-- ===== src/Trace/SpanLogs.antt =====
-- The logs of the selected span, frontend/src/pages/log/TraceDetail.tsx. Times are nanoseconds, and
-- exact, while JavaScript rounds them above 2^53.
pub mod Laws
use mrboard.Shared.{
  ℕ, ◌+◌, ◌-◌, Bool, true, false, not, ◌||◌, Option, none, some, List, [], ◌∷◌, if◌then◌else◌, ◌==◌,
  ltb, get_elem?, Text, text_eq, lit,
}
use mrboard.Shared.Assoc.{get}
use mrboard.Shared.Sort.{sort_by}
use mrboard.Session.Api.{Outcome, resolved, thrown}
use mrboard.Log.Entry.{LogEntry}
use mrboard.Trace.Span.{Span}

-- `nsPadding`.
unfoldable ns_padding : Option Span → ℕ
ns_padding none = 5000000000
ns_padding (some s) =
    if ltb s.duration 1000000000
    then 2000000000
    else if ltb s.duration 10000000000
    then s.duration
    else 5000000000

-- `start` and `end` of the request: `Math.max(0, ...)` is the subtraction that stops at 0.
unfoldable log_window : Span → ℕ × ℕ
log_window s = (s.start_time - ns_padding (some s), s.start_time + s.duration + ns_padding (some s))

abbrev has_value : Option Text → Text → Bool
has_value none t = false
has_value (some v) t = v == t

-- `aMatch === 0`: one of the three labels names the trace.
unfoldable is_match : Text → LogEntry → Bool
is_match trace_id e =
    has_value (get (lit "traceID") e.labels) trace_id
    || (has_value (get (lit "traceId") e.labels) trace_id
        || has_value (get (lit "trace_id") e.labels) trace_id)

-- `aMatch - bMatch` is at most 0.
abbrev before : Text → LogEntry → LogEntry → Bool
before trace_id a b = is_match trace_id a || not (is_match trace_id b)

sort_logs : Text → List LogEntry → List LogEntry
sort_logs trace_id entries = sort_by (before trace_id) entries

pub data DetailTab : Type 0 where
  tags timing logs : DetailTab

pub record SpanLogs : Type 0 where
  pub span_logs : List LogEntry
  pub logs_loading : Bool

-- The effect, up to the answer: with the tab of the logs open and a span selected it asks for the
-- entries of the window.
unfoldable ask_logs : DetailTab → Option Span → SpanLogs → SpanLogs × Option (ℕ × ℕ)
ask_logs logs (some s) p = (record p { logs_loading = true }, some (log_window s))
ask_logs _ _ p = (record p { span_logs = [] }, none)

logs_arrived : Text → Outcome (Option (List LogEntry)) → SpanLogs → SpanLogs
logs_arrived trace_id (resolved (some entries)) p = record {
  span_logs = sort_logs trace_id entries;
  logs_loading = false;
}
logs_arrived trace_id (resolved none) p = record { span_logs = []; logs_loading = false }
logs_arrived trace_id (thrown message) p = record { span_logs = []; logs_loading = false }
