-- ===== src/DataPlane.antt =====
-- apps/data-plane/src: the proxy that consumers call.
pub mod RateLimit
pub mod JobStore
pub mod Cache
pub mod Proxy
pub mod World
pub mod Breeds
pub mod Pipeline
pub mod JobResult
pub mod App
