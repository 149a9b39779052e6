-- ===== src/Daemon.antt =====
-- src/daemon/: the state that the key event handlers share with the reloading of the configuration.
pub mod State
