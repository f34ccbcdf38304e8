-- ===== src/App.antt =====
-- The routes of the front end and its menu (frontend/src/App.tsx,
-- frontend/src/layouts/MainLayout.tsx).
pub mod Element
pub mod Routes
pub mod Menu
