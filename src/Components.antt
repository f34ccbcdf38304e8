-- ===== src/Components.antt =====
-- The shared components with state or arithmetic of their own (frontend/src/components/shared).
pub mod DataTable
pub mod KeyValue
