-- ===== src/Connectors.antt =====
-- packages/connectors/src: what the data plane knows of each kind of upstream server.
pub mod Breed
pub mod Io
pub mod Ollama
pub mod Comfyui
