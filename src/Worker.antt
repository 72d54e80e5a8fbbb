-- ===== src/Worker.antt =====
-- The workers: profiles, the commands of the settings page, and the state of a worker process.
pub mod Commands
pub mod Profiles
pub mod Presets
pub mod Runtime
