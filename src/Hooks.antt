-- ===== src/Hooks.antt =====
-- The hooks that fetch data (frontend/src/hooks).
pub mod UseApi
pub mod UseTraceMetrics
pub mod UsePrometheus
