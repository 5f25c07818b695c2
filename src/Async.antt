-- ===== src/Async.antt =====
-- The asynchronous half of src/platform/windows/win_socket.cpp.
pub mod Store
pub mod Start
pub mod Completion
pub mod Lifecycle
pub mod System
