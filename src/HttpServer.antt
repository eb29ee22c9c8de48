-- ===== src/HttpServer.antt =====
-- src/api/HttpServer.cpp: the admin HTTP server.
pub mod Parse
pub mod Validate
pub mod KeyCheck
pub mod Paths
pub mod Fields
pub mod RateLimit
pub mod Response
pub mod Handlers
pub mod Outbound
pub mod Routes
mod Tests
