-- ===== src/Log.antt =====
-- The log explorer (frontend/src/pages/log, frontend/src/hooks/useLogFilters.ts).
pub mod Filters
pub mod Window
pub mod Entry
pub mod Drilldown
pub mod Viewer
pub mod Facets
