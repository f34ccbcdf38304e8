-- ===== src/Trace/SpanLogs/Laws.antt =====
-- The logs of a span: their window and their order (frontend/src/pages/log/TraceDetail.tsx).
use mrboard.Shared.{
  ◌≡◌, refl, Bool, true, false, not, ◌&&◌, some, List, [], ◌∷◌, ◌++◌, arith, if◌then◌else◌, keep,
}
use mrboard.Shared.Sort.{sort_by, insert_by}
use mrboard.Shared.{Text, text_eq}
use mrboard.Session.Api.{resolved}
use mrboard.Log.Entry.{LogEntry}
use mrboard.Trace.SpanLogs.{SpanLogs, is_match, before, sort_logs, logs_arrived}

abbrev all_match : Text → Bool → List LogEntry → Bool
all_match t b [] = true
all_match t b (e ∷ es) = (if b then is_match t e else not (is_match t e)) && all_match t b es

all_match-keep : (t : Text) (es : List LogEntry) → all_match t true (keep (is_match t) es) ≡ true
unfolding keep
all_match-keep t [] = refl
all_match-keep t (e ∷ es) = ground (arith, all_match-keep t es)

all_match-keep-not :
    (t : Text) (es : List LogEntry) → all_match t false (keep (λ x. not (is_match t x)) es) ≡ true
unfolding keep
all_match-keep-not t [] = refl
all_match-keep-not t (e ∷ es) = ground (arith, all_match-keep-not t es)

insert_split :
    (t : Text) (e : LogEntry) (xs ys : List LogEntry)
    → all_match t true xs ≡ true
    → all_match t false ys ≡ true
    → insert_by (before t) e (xs ++ ys) ≡ (if is_match t e then (e ∷ xs) ++ ys else xs ++ (e ∷ ys))
unfolding insert_by
insert_split t e [] [] h k = ground arith
insert_split t e [] (y ∷ ys) h k = ground arith
insert_split t e (x ∷ xs) ys h k = ground (arith, insert_split t e xs ys)

sort_logs-keep :
    (t : Text) (es : List LogEntry)
    → sort_logs t es ≡ keep (is_match t) es ++ keep (λ x. not (is_match t x)) es
unfolding sort_logs sort_by keep
sort_logs-keep t [] = refl
sort_logs-keep t (e ∷ es) = ground (
  arith,
  sort_logs-keep t es,
  insert_split t e (keep (is_match t) es) (keep (λ x. not (is_match t x)) es),
  all_match-keep t es,
  all_match-keep-not t es,
)

-- The entries that an answer brings are shown with those of the trace first and then the others, each
-- in the order of the answer.
logs_arrived-resolved :
    (trace_id : Text) (entries : List LogEntry) (p : SpanLogs)
    → (logs_arrived trace_id (resolved (some entries)) p).span_logs
      ≡ keep (is_match trace_id) entries ++ keep (λ e. not (is_match trace_id e)) entries
unfolding logs_arrived
logs_arrived-resolved trace_id entries p = sort_logs-keep trace_id entries
