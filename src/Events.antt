-- ===== src/Events.antt =====
-- services/api/internal/events/outbox.go: notification events as files of a directory.
pub mod SafeName
pub mod Disk
pub mod Outbox
