-- ===== src/Ai.antt =====
-- The pages of the AI assistant (frontend/src/pages/ai).
pub mod Stream
pub mod Analysis
pub mod Queries
pub mod Chat
pub mod RawResponse
