-- ===== src/Protocol.antt =====
-- libqrexec/qrexec.h: the constants, the message types and the structures that travel on the
-- vchan and on the sockets, with their layout on a little-endian machine.
mod Layout
pub mod Header
pub use Layout.*
