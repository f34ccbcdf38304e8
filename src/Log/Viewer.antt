-- ===== src/Log/Viewer.antt =====
-- The log viewer, `LogViewer` of frontend/src/pages/log/LogViewer.tsx: its state, its handlers and
-- what it asks. `now` is Date.now(); `print` writes a number. A query string is the list of its
-- pairs, whose names differ.
pub mod Query
pub mod Laws
use mrboard.Shared.{
  ℕ, ◌-◌, ◌*◌, ◌++◌, Bool, true, false, not, ◌&&◌, Option, none, some, List, [], ◌∷◌, if◌then◌else◌,
  ltb, Text, text_eq, nat_eq, lit, is_truthy, keep, contains, length, join,
}
use mrboard.Shared.Assoc.{put}
use mrboard.Shared.Members.{toggle, without, includes}
use mrboard.Session.Api.{Outcome, resolved, thrown}
use mrboard.Log.Entry.{LogEntry, HistogramBucket}

pub record LevelCount : Type 0 where
  pub level : Text
  pub count : ℕ

pub record Viewer : Type 0 where
  pub cluster_id : Text
  pub time_range : Text
  pub namespaces : List Text
  pub namespace : Text
  pub available_services : List Text
  pub selected_services : List Text
  pub search_text : Text
  pub logql : Text
  pub active_levels : List Text
  pub histogram : List HistogramBucket
  pub level_counts : List LevelCount
  pub logs : List LogEntry
  pub total : ℕ
  pub loading : Bool
  pub has_queried : Bool
  pub auto_refresh : Bool
  pub expanded_rows : List ℕ
  pub toasts : List Text

abbrev all_levels : List Text
all_levels = lit "error" ∷ lit "warn" ∷ lit "info" ∷ lit "debug" ∷ []

-- The state at the first render, for the cluster that the local storage holds.
unfoldable pub open_viewer : Text → Viewer
open_viewer cluster_id = record {
  cluster_id = cluster_id;
  time_range = lit "1h";
  namespaces = [];
  namespace = [];
  available_services = [];
  selected_services = [];
  search_text = [];
  logql = [];
  active_levels = all_levels;
  histogram = [];
  level_counts = [];
  logs = [];
  total = 0;
  loading = false;
  has_queried = false;
  auto_refresh = false;
  expanded_rows = [];
  toasts = [];
}

-- The requests of the page; those for logs carry their query string.
pub data Request : Type 0 where
  histogram levels query : Request

unfoldable pub can_ask : Viewer → Bool
can_ask s = is_truthy s.cluster_id && is_truthy s.namespace

-- `fetchHistogram`, `fetchLevels` and `fetchLogs`, up to the answers.
unfoldable pub fetch_all : Viewer → Viewer × List Request
fetch_all s =
    if can_ask s then (record s { loading = true }, histogram ∷ levels ∷ query ∷ []) else (s, [])

pub histogram_arrived : Outcome (List HistogramBucket) → Viewer → Viewer
histogram_arrived (resolved buckets) s = record s { histogram = buckets }
histogram_arrived (thrown message) s = s

pub levels_arrived : Outcome (List LevelCount) → Viewer → Viewer
levels_arrived (resolved counts) s = record s { level_counts = counts }
levels_arrived (thrown message) s = s

-- `fetchLogs`, from the answer on: entries and total, [] and 0 where they are missing.
pub logs_arrived : Outcome (List LogEntry × ℕ) → Viewer → Viewer
logs_arrived (resolved (entries, total)) s = record s {
  logs = entries;
  total = total;
  expanded_rows = [];
  loading = false;
}
logs_arrived (thrown message) s = record s { toasts = s.toasts ++ message ∷ []; loading = false }

-- The click on a bar of the histogram, from the answer on.
pub bucket_arrived : Outcome (List LogEntry × ℕ) → Viewer → Viewer
bucket_arrived (resolved (entries, total)) s = record s {
  logs = entries;
  total = total;
  has_queried = true;
  expanded_rows = [];
  loading = false;
}
bucket_arrived (thrown message) s = record s { toasts = s.toasts ++ message ∷ []; loading = false }

unfoldable pub handle_query : Viewer → Viewer × List Request
handle_query s =
    if is_truthy s.namespace
    then fetch_all (record s { has_queried = true })
    else (record s { toasts = s.toasts ++ lit "请先选择命名空间" ∷ [] }, [])

-- The condition under which the effect keeps an interval of 5 s, and what the interval does.
unfoldable pub polls : Viewer → Bool
polls s = s.auto_refresh && (is_truthy s.namespace && s.has_queried)

pub poll : Viewer → Viewer × List Request
poll s = if polls s then fetch_all s else (s, [])

-- The effect on the namespace, the services and the time range.
pub summary_effect : Viewer → Viewer × List Request
summary_effect s =
    if can_ask s
    then (s, histogram ∷ levels ∷ [])
    else (record s { histogram = []; level_counts = [] }, [])

-- The effect that fetches the services: none chosen where there is no namespace.
pub services_effect : Viewer → Viewer
services_effect s =
    if can_ask s then s else record s { available_services = []; selected_services = [] }

pub toggle_level : Text → Viewer → Viewer
toggle_level level s = record s { active_levels = toggle level s.active_levels }

pub toggle_row : ℕ → Viewer → Viewer
toggle_row idx s = record s { expanded_rows = toggle idx s.expanded_rows }

pub toggle_service : Text → Viewer → Viewer
toggle_service svc s = record s { selected_services = toggle svc s.selected_services }

unfoldable pub select_namespace : Text → Viewer → Viewer
select_namespace ns s = record s {
  namespace = ns;
  selected_services = [];
  has_queried = false;
  logs = [];
  histogram = [];
  level_counts = [];
  total = 0;
  auto_refresh = false;
}

-- The button 自动刷新, disabled where there is no namespace or no query yet.
unfoldable pub toggle_auto_refresh : Viewer → Viewer
toggle_auto_refresh s =
    if is_truthy s.namespace && s.has_queried
    then record s { auto_refresh = not s.auto_refresh }
    else s

-- `totalByLevel`.
unfoldable total_by_level : List LevelCount → List (Text × ℕ) → List (Text × ℕ)
total_by_level [] acc = acc
total_by_level (lc ∷ counts) acc = total_by_level counts (put lc.level lc.count acc)

-- `filteredNamespaces` and `filteredServices`.
unfoldable search_names : Text → List Text → List Text
search_names search names = if is_truthy search then keep (λ n. contains search n) names else names
