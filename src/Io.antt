-- ===== src/Io.antt =====
-- libqrexec: the buffers and the data channel.
pub mod Memory
pub mod Stdin
pub mod Replace
pub mod Channel
pub mod Process
mod Tests
pub mod All
