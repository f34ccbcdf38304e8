-- ===== src/Cicd.antt =====
-- The pipelines (frontend/src/pages/cicd).
pub mod Pipelines
