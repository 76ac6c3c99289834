-- ===== src/Daemon.antt =====
-- internal/daemon: the parts of the daemon that keep state of their own.
pub mod Lan
pub mod Activity
pub mod Pause
pub mod Server
