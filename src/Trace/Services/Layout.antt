-- ===== src/Trace/Services/Layout.antt =====
-- Where the service graph draws its services and what it says of them, the second half of
-- `buildLayout` of frontend/src/pages/log/ServiceGraph.tsx. An average is the pair of a sum and a
-- count, with hundredths in the sum; 0 / 0, which is NaN, has no rounded value.
use mrboard.Shared.{
  ℕ, zero, suc, ◌+◌, ◌-◌, ◌*◌, ◌/◌, ◌++◌, Bool, Option, none, some, List, [], ◌∷◌, if◌then◌else◌,
  leb, ltb, nat_eq, nat_beq, text_eq, Text, length,
}
use mrboard.Shared.Assoc.{get, put}
use Prim.Native.Nat.{max}
use mrboard.Trace.Services.{Dependency, Metrics, Depths, metrics_of, collect_metrics, depth_map}

pub data Status : Type 0 where
  healthy degraded error : Status

-- `computeStatus` of total / count; no comparison with NaN holds.
unfoldable pub compute_status : ℕ → ℕ → Status
compute_status total count =
    if nat_beq count 0
    then healthy
    else if ltb (500 * count) total
    then error
    else if leb (100 * count) total
    then degraded
    else healthy

-- `Math.round(total / count * 100) / 100`, in hundredths.
unfoldable round_average : ℕ → ℕ → Option ℕ
round_average total zero = none
round_average total (suc n) = some ((2 * total + suc n) / (2 * suc n))

-- The two branches of `formatCallCount` that divide use `to_fixed n d`, which is
-- (n / d).toFixed(1).
unfoldable pub format_call_count : (ℕ → Text) → (ℕ → ℕ → Text) → ℕ → Text
format_call_count print to_fixed n =
    if leb 1000000 n
    then to_fixed n 1000000 ++ b'M' ∷ []
    else if leb 1000 n
    then to_fixed n 1000 ++ b'k' ∷ []
    else print n

abbrev pub Groups : Type 0
Groups = List (ℕ × List Text)

abbrev pub group_of : ℕ → Groups → List Text
group_of depth groups = elim (get depth groups) [ some names ↦ names | none ↦ [] ]

unfoldable pub group_by_depth : Depths → Groups → Groups
group_by_depth [] groups = groups
group_by_depth ((name, depth) ∷ depths) groups =
    group_by_depth depths (put depth (group_of depth groups ++ name ∷ []) groups)

pub record FlowNode : Type 0 where
  pub id : Text
  pub x : ℕ
  pub y : ℕ
  pub status : Status
  pub avg_latency_ms : Option ℕ
  pub error_rate : Option ℕ
  pub rpm : ℕ
  pub call_count : ℕ

abbrev x_gap : ℕ
x_gap = 260

abbrev y_gap : ℕ
y_gap = 120

-- `Math.max(60, 200 - totalHeight / 2)` for a group of n services.
abbrev pub start_y : ℕ → ℕ
start_y n = max 60 (200 - (n - 1) * y_gap / 2)

unfoldable pub place_names : List (Text × Metrics) → ℕ → ℕ → ℕ → List Text → List FlowNode
unfolding round_average
place_names metrics x y i [] = []
place_names metrics x y i (name ∷ names) =
    let m = metrics_of name metrics in
    record {
      id = name;
      x = x;
      y = y + i * y_gap;
      status = compute_status m.total_errors m.count;
      avg_latency_ms = round_average m.total_latency m.count;
      error_rate = round_average m.total_errors m.count;
      rpm = m.total_rpm;
      call_count = m.total_calls;
    }
    ∷ place_names metrics x y (i + 1) names

unfoldable pub place_groups : List (Text × Metrics) → Groups → List FlowNode
place_groups metrics [] = []
place_groups metrics ((depth, names) ∷ groups) =
    place_names metrics (80 + depth * x_gap) (start_y (length names)) 0 names
    ++ place_groups metrics groups

-- The width of the stroke is 1 + 4 * call_count / max_calls.
pub record FlowEdge : Type 0 where
  pub source : Text
  pub target : Text
  pub index : ℕ
  pub label : Text
  pub call_count : ℕ
  pub max_calls : ℕ
  pub is_error : Bool

-- `Math.max(...deps.map(d => d.callCount), 1)`.
unfoldable pub max_calls : List Dependency → ℕ
max_calls [] = 1
max_calls (d ∷ deps) = max d.call_count (max_calls deps)

unfoldable pub flow_edges : (ℕ → Text) → ℕ → ℕ → List Dependency → List FlowEdge
flow_edges format most i [] = []
flow_edges format most i (d ∷ deps) =
    record {
      source = d.parent;
      target = d.child;
      index = i;
      label = format d.call_count;
      call_count = d.call_count;
      max_calls = most;
      is_error = ltb 500 d.error_rate;
    }
    ∷ flow_edges format most (i + 1) deps

unfoldable pub build_layout :
    (ℕ → Text) → (ℕ → ℕ → Text) → List Dependency → Option (List FlowNode × List FlowEdge)
build_layout print to_fixed deps = elim (depth_map deps) [
  | some depths ↦ some (
    place_groups (collect_metrics deps []) (group_by_depth depths []),
    flow_edges (format_call_count print to_fixed) (max_calls deps) 0 deps,
  )
  | none ↦ none
]
