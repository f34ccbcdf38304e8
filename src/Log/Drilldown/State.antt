-- ===== src/Log/Drilldown/State.antt =====
-- The state of the log explorer, its requests and their answers
-- (frontend/src/pages/log/LogDrilldown.tsx). The answer to a request is an operation of its own; a
-- missing part of an answer is none.
use mrboard.Shared.{
  ℕ, ◌++◌, Bool, true, false, ◌||◌, Option, none, some, List, [], ◌∷◌, map, if◌then◌else◌, ◌==◌,
  Text, text_eq, lit, is_truthy,
}
use mrboard.Session.Api.{Outcome, resolved, thrown}
use mrboard.Log.Entry.{DetectedField, LogPattern, LabelWithValues, LogEntry, HistogramBucket}
use mrboard.Log.Filters.{FilterState, Params}
use mrboard.Log.Drilldown.{
  compute_time_window, build_base_params, preview_params, expanded_params, bucket_params,
}

pub data ViewMode : Type 0 where
  summary expanded : ViewMode

-- A socket, with the view that its handlers were made in.
pub record Socket : Type 0 where
  pub into_expanded : Bool

pub record Drilldown : Type 0 where
  pub cluster_id : Text
  pub filters : FilterState
  pub time_range : Text
  pub live_tail : Bool
  pub socket : Option Socket
  pub view_mode : ViewMode
  pub expanded_service : Option Text
  pub labels : List LabelWithValues
  pub fields : List DetectedField
  pub patterns : List LogPattern
  pub histogram : List HistogramBucket
  pub level_counts : List (Text × ℕ)
  pub preview_logs : List LogEntry
  pub expanded_logs : List LogEntry
  pub total : ℕ
  pub loading : Bool
  pub service_list : List (Text × ℕ)
  pub toasts : List Text

pub data Request : Type 0 where
  get_labels : (cluster_id start_time end_time : Text) → Request
  get_histogram get_levels get_patterns get_fields query_preview query_expanded : Params → Request

-- The entries and the total of an answer to a query.
pub record Entries : Type 0 where
  pub entries : List LogEntry
  pub total : ℕ

-- `data.find(l => l.name === 'service_name' || l.name === 'service')`.
unfoldable find_service_label : List LabelWithValues → Option LabelWithValues
find_service_label [] = none
find_service_label (l ∷ ls) =
    if l.name == lit "service_name" || l.name == lit "service"
    then some l
    else find_service_label ls

abbrev or_empty {ℓ} : {A : Type ℓ} → Option (List A) → List A
or_empty none = []
or_empty (some xs) = xs

unfoldable histogram_arrived : Outcome (Option (List HistogramBucket)) → Drilldown → Drilldown
histogram_arrived (resolved data') p = record p { histogram = or_empty data' }
histogram_arrived (thrown message) p = p

unfoldable levels_arrived : Outcome (Option (List (Text × ℕ))) → Drilldown → Drilldown
levels_arrived (resolved data') p = record p { level_counts = or_empty data' }
levels_arrived (thrown message) p = p

unfoldable patterns_arrived : Outcome (Option (List LogPattern)) → Drilldown → Drilldown
patterns_arrived (resolved data') p = record p { patterns = or_empty data' }
patterns_arrived (thrown message) p = p

unfoldable fields_arrived : Outcome (Option (List DetectedField)) → Drilldown → Drilldown
fields_arrived (resolved data') p = record p { fields = or_empty data' }
fields_arrived (thrown message) p = p

-- The list of services is taken from the first label of either name, if there is one.
unfoldable labels_arrived : Outcome (Option (List LabelWithValues)) → Drilldown → Drilldown
labels_arrived (resolved data') p =
    let q = record p { labels = or_empty data' } in
    elim (find_service_label (or_empty data')) [
      | some l ↦ record q { service_list = map (λ v. (v.value, v.count)) l.values }
      | none ↦ q
    ]
labels_arrived (thrown message) p = p

abbrev no_entries : Entries
no_entries = record { entries = []; total = 0 }

abbrev entries_or : Option Entries → Entries
entries_or none = no_entries
entries_or (some e) = e

unfoldable preview_arrived : Outcome (Option Entries) → Drilldown → Drilldown
preview_arrived (resolved o) p = record p {
  preview_logs = (entries_or o).entries;
  total = (entries_or o).total;
  loading = false;
}
preview_arrived (thrown message) p = record p { loading = false; toasts = p.toasts ++ message ∷ [] }

unfoldable expanded_arrived : Outcome (Option Entries) → Drilldown → Drilldown
expanded_arrived (resolved o) p = record p {
  expanded_logs = (entries_or o).entries;
  total = (entries_or o).total;
  loading = false;
}
expanded_arrived (thrown message) p = record p {
  loading = false;
  toasts = p.toasts ++ message ∷ [];
}

module _ (print : ℕ → Text) (now : ℕ) where
  abbrev base : Drilldown → Params
  base p = build_base_params print now p.cluster_id p.filters p.time_range

  -- `fetchSummary`, the six requests in their order.
  unfoldable fetch_summary : Drilldown → Drilldown × List Request
  fetch_summary p =
      let window = compute_time_window print now p.time_range in
      if is_truthy p.cluster_id
      then (
        record p { loading = true },
        get_labels p.cluster_id window.0 window.1
            ∷ get_histogram (base p)
            ∷ get_levels (base p)
            ∷ query_preview (preview_params print now p.cluster_id p.filters p.time_range)
            ∷ get_patterns (base p)
            ∷ get_fields (base p)
            ∷ [],
      )
      else (p, [])

  unfoldable pub fetch_expanded_logs : Text → Drilldown → Drilldown × List Request
  fetch_expanded_logs service p =
      if is_truthy p.cluster_id
      then (
        record p { loading = true },
        query_expanded (expanded_params print now p.cluster_id p.filters p.time_range service) ∷ [],
      )
      else (p, [])

  -- A click on a bucket of the histogram asks for the entries around it.
  unfoldable handle_click_bucket : ℕ → Drilldown → Drilldown × List Request
  handle_click_bucket time p =
      (record p { loading = true }, query_preview (bucket_params print p.cluster_id time) ∷ [])
