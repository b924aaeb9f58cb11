-- ===== src/Rpc.antt =====
-- libqrexec/exec.c: how a command line is parsed, found and executed.
pub mod Command
pub mod Port
pub mod Find
pub mod Service
mod Tests
