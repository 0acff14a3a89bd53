-- ===== src/Bridge.antt =====
-- plugin/bridge: the capability gate in front of every call of a plugin, and its connections.
pub mod Exec
pub mod Http
pub mod Fs
pub mod Gate
pub mod Manager
pub mod Storage
