-- ===== src/Admission.antt =====
-- middleware/: what a request meets before the application. Paths are normalized and checked against
-- the whitelist, and the endpoints that serve models ask for an API key.
pub mod Body
pub mod Paths
pub mod ProxyAuth
pub mod Sessions
pub mod Whitelist
