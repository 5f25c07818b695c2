-- ===== src/Socket.antt =====
-- include/firelink/platform/windows/win_socket.hpp and src/platform/windows/win_socket.cpp.
pub mod State
pub mod Sync
pub mod Disconnect
pub mod Contracts
pub mod Address
pub mod Lifecycle
pub mod Context
pub mod Objects
