-- ===== src/Router.antt =====
-- services/api/internal/router/tplink.go: the client of TP-Link routers.
pub mod Clients
pub mod Crypto
pub mod Json
pub mod Library
pub mod Grant
pub mod SgLogin
pub mod Login
pub mod Probe
pub mod Provider
pub mod Requests
pub mod Session
pub mod Padding
pub mod Examples
mod Tests
