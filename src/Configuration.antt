-- ===== src/Configuration.antt =====
-- identity.py, kernel/launch.py, config.py, workspace_resolver.py and resource/settings.py: what a
-- kernel and a daemon are told.
pub mod Identity
pub mod Settings
pub mod Files
