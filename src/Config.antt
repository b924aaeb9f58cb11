-- ===== src/Config.antt =====
-- libqrexec/toml.c: the service configuration.
pub mod Value
pub mod File
mod Tests
