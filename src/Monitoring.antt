-- ===== src/Monitoring.antt =====
-- services/api/internal/monitoring: the decisions, the service's state and its checks.
pub mod Decisions
pub mod Service
pub mod Sound
pub mod Outage
pub mod Checks
pub mod RouterTraffic
pub mod Loops
pub mod Summary
mod Tests
pub mod Trigger
