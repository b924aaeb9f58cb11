-- ===== src/Io/Process.antt =====
-- libqrexec/process_io.c: `qrexec_process_io`, the loop between a local process and the data
-- channel.
pub mod State
pub mod Loop
pub mod Kept
pub mod Rounds
pub mod Descriptors
pub mod Messages
pub mod Exit
mod Tests
