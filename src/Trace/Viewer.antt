-- ===== src/Trace/Viewer.antt =====
-- The search of traces, `TraceViewer` of frontend/src/pages/log/TraceViewer.tsx. `print` prints a number;
-- times are nanoseconds, exact where JavaScript rounds them, and the clock is past the longest range. The drawing and the tabs of other
-- components are left out.
pub mod Laws
use mrboard.Shared.{
  ℕ, zero, suc, ◌-◌, ◌*◌, ◌++◌, Bool, true, false, ◌&&◌, ◌||◌, Option, none, some, List, [], ◌∷◌,
  if◌then◌else◌, leb, nat_eq, ◌==◌, length, get_elem?, Text, lit, is_truthy,
}
use mrboard.Session.Api.{Outcome, resolved, thrown}

pub record TraceEntry : Type 0 where
  pub trace_id : Text
  pub root_service : Text
  pub root_operation : Text
  pub duration : ℕ
  pub start_time : ℕ
  pub span_count : ℕ
  pub status : Text

pub data Tab : Type 0 where
  breakdown structure traces topology : Tab

pub data TraceFilter : Type 0 where
  all errors slow : TraceFilter

pub record Viewer : Type 0 where
  pub traces : List TraceEntry
  pub loading : Bool
  pub has_searched : Bool
  pub service_name : Text
  pub tags : Text
  pub limit : Text
  pub cluster_id : Text
  pub active_tab : Tab
  pub trace_filter : TraceFilter
  pub span_id : Text
  pub operation : Text
  pub time_range : ℕ
  pub min_duration : Text
  pub max_duration : Text
  pub toasts : List Text

abbrev Params : Type 0
Params = List (Text × Text)

-- The hours of `TIME_RANGES`.
abbrev range_hours : List ℕ
range_hours = 1 ∷ 6 ∷ 24 ∷ 72 ∷ []

-- The poll of the stored cluster, each 500 ms, while there is none.
unfoldable poll_cluster : Option Text → Viewer → Viewer
poll_cluster none s = s
poll_cluster (some id) s = if is_truthy s.cluster_id then s else record s { cluster_id = id }

abbrev set_if : Text → Text → Params
set_if k v = if is_truthy v then (k, v) ∷ [] else []

-- The query string of `handleSearch`; none where there is no such range, which makes it throw.
abbrev window_params : (ℕ → Text) → ℕ → Option ℕ → Option Params
window_params print now none = none
window_params print now (some hours) = some (
    (lit "start", print (now * 1000000 - hours * 3600 * 1000000000))
    ∷ (lit "end", print (now * 1000000))
    ∷ [])

abbrev after_window : Viewer → Option Params → Option Params
after_window s none = none
after_window s (some window) = some (
    (lit "clusterId", s.cluster_id) ∷ set_if (lit "service") s.service_name
    ++ (set_if (lit "tags") s.tags
        ++ ((lit "limit", s.limit) ∷ set_if (lit "operation") s.operation
            ++ (window
                ++ (set_if (lit "minDuration") s.min_duration
                    ++ set_if (lit "maxDuration") s.max_duration)))))

unfoldable search_params : (ℕ → Text) → ℕ → Viewer → Option Params
search_params print now s =
    after_window s (window_params print now (get_elem? range_hours s.time_range))

abbrev ask : Viewer → Option Params → Viewer × Option Params
ask s none = (
  record s {
    toasts = s.toasts ++ lit "Cannot read properties of undefined (reading 'hours')" ∷ [];
    loading = false;
    has_searched = true;
  },
  none,
)
ask s (some params) = (record s { loading = true; has_searched = true }, some params)

-- `handleSearch`, up to the request, at the milliseconds `now`.
handle_search : (ℕ → Text) → ℕ → Viewer → Viewer × Option Params
handle_search print now s =
    if is_truthy s.cluster_id
    then ask s (search_params print now s)
    else (record s { toasts = s.toasts ++ lit "请先选择集群" ∷ [] }, none)

-- `handleSearch`, from the answer on, with missing data as [].
traces_arrived : Outcome (List TraceEntry) → Viewer → Viewer
traces_arrived (resolved ds) s = record s { traces = ds; loading = false }
traces_arrived (thrown message) s = record s { toasts = s.toasts ++ message ∷ []; loading = false }

-- `[0-9a-fA-F]`.
abbrev is_hex : ℕ → Bool
is_hex c = (leb 48 c && leb c 57) || (leb 97 c && leb c 102) || (leb 65 c && leb c 70)

-- `/^[0-9a-fA-F]{n}$/`: the expression is followed through the text, one code unit after the other.
unfoldable matches_hex : ℕ → Text → Bool
matches_hex zero [] = true
matches_hex zero (c ∷ s) = false
matches_hex (suc n) [] = false
matches_hex (suc n) (c ∷ s) = is_hex c && matches_hex n s

-- `handleSpanIDSearch`, up to the request.
pub handle_span_id_search : Viewer → Viewer × Option Params
handle_span_id_search s =
    if matches_hex 32 s.span_id
    then (
      record s { loading = true },
      some ((lit "clusterId", s.cluster_id) ∷ (lit "spanID", s.span_id) ∷ []),
    )
    else (record s { toasts = s.toasts ++ lit "SpanID 必须为 32 位十六进制字符" ∷ [] }, none)

-- The path of the detail of a trace, `handleViewTrace`.
unfoldable handle_view_trace : Text → Viewer → Text
handle_view_trace trace_id s =
    lit "/log/trace/detail?clusterId=" ++ (s.cluster_id ++ (lit "&traceId=" ++ trace_id))

-- The code and the trace that an answer names, '' where it names none.
pub record SpanAnswer : Type 0 where
  pub code : ℕ
  pub trace_id : Text

abbrev not_found : Viewer → Viewer × Option Text
not_found s =
    (record s { toasts = s.toasts ++ lit "未找到该 SpanID 对应的链路" ∷ []; loading = false }, none)

-- `handleSpanIDSearch`, from the answer on: the state, and where the page goes.
span_arrived : Outcome SpanAnswer → Viewer → Viewer × Option Text
span_arrived (thrown message) s = not_found s
span_arrived (resolved a) s =
    if a.code == 0 && is_truthy a.trace_id
    then (record s { loading = false }, some (handle_view_trace a.trace_id s))
    else not_found s

-- The clicks on the panel and on a service of the breakdown.
unfoldable show_traces : TraceFilter → Viewer → Viewer
show_traces f s = record s { trace_filter = f; active_tab = traces }

unfoldable click_service : Text → Viewer → Viewer
click_service svc s = record s { service_name = svc; active_tab = traces }
