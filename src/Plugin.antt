-- ===== src/Plugin.antt =====
-- plugin: the parts of the plugin runtime that are not behind the bridge.
pub mod Contributions
pub mod Hooks
pub mod Supervisor
pub mod Frame
pub mod Mux
pub mod Install
pub mod ConfigSchema
pub mod Revocation
pub mod Manifest
pub mod Compat
pub mod Commands
