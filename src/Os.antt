-- ===== src/Os.antt =====
-- The system below the library: Winsock and the Windows thread pool, which are not part of the
-- repository. `Os` is the parameter that stands for them: one function answers every call. A method
-- of the library is a `M W A`: it makes calls, each written to the trace with what it returned.
pub mod Calls
pub mod Base
pub mod Ledger
pub mod Laws
pub mod Overlapped
pub mod Script
unfoldable pub use Base.*
