-- ===== src/Platform.antt =====
-- crates/edison-stdiod/src/platform: the registration of the daemon with the host's service manager.
pub mod Linux
