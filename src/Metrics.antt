-- ===== src/Metrics.antt =====
-- The metrics explorer (frontend/src/pages/monitor/PrometheusMetrics.tsx).
pub mod AutoQuery
pub mod SearchBox
pub mod Chart
pub mod Explorer
pub mod ServiceHealth
