-- ===== src/Edge.antt =====
-- cmd/edgeproxy: the edge node. Its configuration and enrollment, the handler of requests with the
-- response cache and the decisions about caching and compression, plugin routes and the WebSocket tunnel,
-- and the choice of certificates by name.
pub mod Http
pub mod CacheControl
pub mod Cache
pub mod Certificates
pub mod Routes
pub mod Pipeline
pub mod Config
pub mod Enroll
pub mod Tunnel
