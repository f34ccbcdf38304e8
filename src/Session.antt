-- ===== src/Session.antt =====
-- Requests and the session of the user (frontend/src/lib/api.ts, frontend/src/hooks/useAuth.tsx).
pub mod Api
pub mod Auth
