-- ===== src/Trace/Span.antt =====
-- The span of a trace (frontend/src/pages/log/TraceDetail.tsx, the same in StructureView.tsx).
-- Times are nanoseconds, natural numbers.
use mrboard.Shared.{ℕ, List, Text}

pub record Span : Type 0 where
  pub span_id : Text
  pub trace_id : Text
  pub parent_span_id : Text
  pub operation_name : Text
  pub service_name : Text
  pub start_time : ℕ
  pub duration : ℕ
  pub status : Text
  pub tags : List (Text × Text)
