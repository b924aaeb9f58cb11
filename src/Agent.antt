-- ===== src/Agent.antt =====
-- agent/qrexec-agent.c, and the programs that talk to it.
pub mod State
pub mod Ident
pub mod Connections
pub mod Requests
pub mod Events
pub mod Invariant
pub mod Data
pub mod ClientVm
pub mod ForkServer
mod Tests
