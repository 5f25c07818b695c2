-- ===== src/IoCore.antt =====
-- include/firelink/io_core.hpp, include/firelink/platform/windows/win_io_core.hpp,
-- src/io_core.cpp and src/platform/windows/win_io_core.cpp.
pub mod Threadpool
pub mod Extensions
pub mod Core
pub mod RunStop
pub mod Post
