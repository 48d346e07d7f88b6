-- ===== src/Examples.antt =====
-- The example programs of the repository: a client that streams a wave to a DAC, two that listen for
-- DACs, and two that run the emulator, one of them with a window that shows what it puts out.
pub mod Wave
pub mod Streaming
pub mod Enumerate
pub mod Visualiser
pub mod View
pub mod Default
pub mod Listening
pub mod Running
