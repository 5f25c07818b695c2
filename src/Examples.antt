-- ===== src/Examples.antt =====
-- The two example programs, as clients of the library (examples/). Their console output and the bytes
-- in their buffer are not modelled.
pub mod Buffer
pub mod EchoServer
pub mod EchoClient
pub mod Ledger
