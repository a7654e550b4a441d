-- ===== src/HttpApi.antt =====
-- services/api/internal/httpapi/api.go: the routes, the handlers and what they do to requests and settings.
pub mod Reads
pub mod Requests
pub mod Routes
pub mod Serve
pub mod Settings
mod Tests
pub mod Users
