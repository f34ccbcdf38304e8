-- ===== src/Log/Drilldown.antt =====
-- The queries of the log explorer, frontend/src/pages/log/LogDrilldown.tsx: the time window, the
-- parameters that each request is made of, and the LogQL text that is shown. Times are exact, while
-- JavaScript rounds nanoseconds above 2^53 to a double; `print` is its printing of a number.
pub mod State
pub mod Tail
pub mod Laws
pub mod Rows
use mrboard.Shared.{
  ℕ, ◌+◌, ◌-◌, ◌*◌, ◌++◌, Bool, true, false, ◌&&◌, Option, none, some, List, [], ◌∷◌, if◌then◌else◌,
  ltb, ◌==◌, Text, text_eq, lit, is_truthy, join, length,
}
use mrboard.Shared.Assoc.{get}
use mrboard.Log.Filters.{FilterState, FacetMap, Params, comma, set_param, set_if, is_filled}

-- `TIME_RANGES.find(t => t.value === range)?.ms || 3600000`.
unfoldable range_ms : Text → ℕ
range_ms range =
    if range == lit "5m"
    then 300000
    else if range == lit "15m"
    then 900000
    else if range == lit "1h"
    then 3600000
    else if range == lit "6h"
    then 21600000
    else if range == lit "24h"
    then 86400000
    else 3600000

-- `m[name]`, where a missing name and one that holds undefined are alike.
abbrev label_values : Text → FacetMap → Option (List Text)
label_values name m = elim (get name m) [ some (some vs) ↦ some vs | _ ↦ none ]

abbrev or_values : Option (List Text) → Option (List Text) → Option (List Text)
or_values (some vs) o = some vs
or_values none o = o

-- `filters.labels['service_name'] || filters.labels['service']`.
abbrev service_values : FacetMap → Option (List Text)
service_values m = or_values (label_values (lit "service_name") m) (label_values (lit "service") m)

-- The first value of the label 'namespace'.
abbrev set_namespace : Option (List Text) → Params → Params
set_namespace (some (v ∷ vs)) ps = set_param (lit "namespace") v ps
set_namespace _ ps = ps

abbrev set_services : Option (List Text) → Params → Params
set_services (some (v ∷ vs)) ps = set_param (lit "services") (join comma (v ∷ vs)) ps
set_services _ ps = ps

-- The two selectors of the text.
abbrev namespace_selector : Option (List Text) → List Text
namespace_selector (some (v ∷ vs)) = (lit "namespace=\"" ++ v ++ lit "\"") ∷ []
namespace_selector _ = []

abbrev service_selector : Option (List Text) → List Text
service_selector (some (v ∷ [])) = (lit "service_name=\"" ++ v ++ lit "\"") ∷ []
service_selector (some (v ∷ w ∷ vs)) =
    (lit "service_name=~\"" ++ join b'|' (v ∷ w ∷ vs) ++ lit "\"") ∷ []
service_selector _ = []

-- `selectors.join(', ')`, for at most two of them.
abbrev join_selectors : List Text → Text
join_selectors [] = []
join_selectors (s ∷ []) = s
join_selectors (s ∷ t ∷ ts) = s ++ lit ", " ++ join_selectors (t ∷ ts)

unfoldable pub build_logql_display : FilterState → Text
build_logql_display fs =
    if is_truthy fs.logql
    then fs.logql
    else lit "{"
      ++ join_selectors (
          namespace_selector (label_values (lit "namespace") fs.labels)
          ++ service_selector (service_values fs.labels))
      ++ lit "}"
      ++ (if is_truthy fs.search then lit " |= `" ++ fs.search ++ lit "`" else [])

module _ (print : ℕ → Text) where
  unfoldable compute_time_window : ℕ → Text → Text × Text
  compute_time_window now range = (print ((now - range_ms range) * 1000000), print (now * 1000000))

  pub build_base_params : ℕ → Text → FilterState → Text → Params
  build_base_params now cluster_id fs time_range =
      let window = compute_time_window now time_range in
      let ps = set_param (lit "clusterId") cluster_id [] in
      let qs = set_namespace (label_values (lit "namespace") fs.labels) ps in
      let rs = set_services (service_values fs.labels) qs in
      let ss =
        set_if (is_filled fs.levels && ltb (length fs.levels) 4) (lit "levels")
          (join comma fs.levels) rs in
      let ts = set_if (is_truthy fs.search) (lit "search") fs.search ss in
      set_param (lit "end") window.1 (set_param (lit "start") window.0 ts)

  -- The parameters of the preview, of the logs of one service, and of a clicked bucket. A
  -- bucket's time is at least 30: the subtraction stops at 0, where JavaScript's goes on.
  unfoldable preview_params : ℕ → Text → FilterState → Text → Params
  preview_params now cluster_id fs time_range =
      set_param (lit "direction") (lit "backward")
        (set_param (lit "limit") (lit "10") (build_base_params now cluster_id fs time_range))

  unfoldable expanded_params : ℕ → Text → FilterState → Text → Text → Params
  expanded_params now cluster_id fs time_range service =
      set_param (lit "direction") (lit "backward") (
        set_param (lit "limit") (lit "500")
          (set_param (lit "services") service (build_base_params now cluster_id fs time_range)))

  unfoldable bucket_params : Text → ℕ → Params
  bucket_params cluster_id time = set_param (lit "direction") (lit "backward") (
      set_param (lit "limit") (lit "10") (
        set_param (lit "end") (print ((time + 30) * 1000000)) (
          set_param (lit "start") (print ((time - 30) * 1000000))
            (set_param (lit "clusterId") cluster_id []))))
