-- ===== src/Trace.antt =====
-- The trace explorer (frontend/src/pages/log/TraceDetail.tsx and its siblings).
pub mod Span
pub mod Tree
pub mod Services
pub mod Structure
pub mod SpanLogs
pub mod Viewer
