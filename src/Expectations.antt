-- ===== src/Expectations.antt =====
-- The controller expectations, pkg/controller/expectations/expectations.go.
pub mod Interfaces
pub mod Counters
pub mod Tracking
pub mod Tracked
