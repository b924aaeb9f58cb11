-- ===== src/Daemon.antt =====
-- daemon/qrexec-daemon.c, a component of its state to each child.
pub mod Invariant
pub mod State
pub mod Ports
pub mod Sanitize
pub mod Policy
pub mod Execute
pub mod Pending
pub mod Agent
pub mod Client
pub mod Restart
mod Tests
