-- ===== src/Config.antt =====
-- src/config_hotreload/config_hotreload_service.cpp and its header: the configuration that is read from
-- a YAML file, and read again when the file changes.
pub mod Types
pub mod Yaml
pub mod Parse
pub mod Service
mod Found
mod Reload
mod Bounds
mod Tests
