-- ===== src/Tests.antt =====
-- The theorems at concrete inputs, one file for each part of the library.
mod Fixtures
mod SocketRuns
mod ObjectRuns
mod DisconnectRuns
mod CoreRuns
mod RunStopRuns
mod AsyncRuns
mod TextRuns
mod SystemRuns
mod ExampleRuns
