-- ===== src/Tools.antt =====
-- The tools (frontend/src/pages/tools).
pub mod Clone
