-- ===== src/Store.antt =====
-- services/api/internal/store: the tables, and one module for each group of statements.
mod Tests
pub mod Stamp
pub mod RouterTraffic
pub mod LatencyStats
pub mod Schema
pub mod Outages
pub mod Quiet
pub mod Checks
pub mod Settings
pub mod Sound
pub mod SpeedTests
pub mod Users
