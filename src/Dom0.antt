-- ===== src/Dom0.antt =====
-- daemon/qrexec-daemon-common.c: the side of dom0 in a connection, for the daemon and the client,
-- and the handshakes of the data vchan at both of its ends.
pub mod Link
pub mod Handshake
pub mod Connect
pub mod Execute
pub mod Run
mod Tests
