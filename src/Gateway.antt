-- ===== src/Gateway.antt =====
-- gateway: the parts of the server's handlers that compute.
pub mod LlmStream
pub mod LlmTranslate
pub mod Assets
