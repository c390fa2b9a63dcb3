-- ===== src/Metrics.antt =====
-- `MetricsService` of apps/api/src/integration/metrics.service.ts: `Window` the recent requests and the
-- alerts, `Bounds` what holds of them.
pub mod Window
pub mod Bounds
pub mod Summary
pub mod Percentiles
