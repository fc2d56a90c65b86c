-- ===== src/Cli.antt =====
-- crates/edison-stdiod/src/cli: the commands that change the saved configuration.
pub mod Login
pub mod Logout
pub mod Server
pub mod Tests
