-- ===== src/Config.antt =====
-- lsmf/configuration.py: the settings file of the desktop program.
pub mod Values
pub mod Lines
pub mod Parse
pub mod Save
pub mod Legacy
