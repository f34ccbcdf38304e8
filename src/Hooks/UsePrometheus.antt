-- ===== src/Hooks/UsePrometheus.antt =====
-- `usePrometheusQuery` and `useLabelValues`, frontend/src/hooks/usePrometheus.ts. `parse` is JSON.parse
-- as the hooks use it: of a text, the field `data` of what it stands for, if that is truthy, else all
-- of it; none if the text is no JSON.
pub mod Laws
use mrboard.Shared.{
  ℕ, suc, ◌+◌, Bool, true, false, Option, none, some, List, [], ◌∷◌, if◌then◌else◌, nat_beq, Text,
  text_eq, lit, is_truthy,
}
use mrboard.Session.Api.{Outcome, resolved, thrown}
use mrboard.Log.Filters.{Params, set_param, set_if}

pub record MetricFilters : Type 0 where
  pub namespace : Text
  pub node : Text
  pub pod : Text
  pub service : Text

pub record TimeRange : Type 0 where
  pub start_time : ℕ
  pub end_time : ℕ
  pub step : ℕ

-- `aborts` counts the calls of `abort()`; the signal of the controller is given to no request.
pub record UsePrometheus (D : Type 0) : Type 0 where
  pub data_value : Option D
  pub loading : Bool
  pub error : Option Text
  pub controller : Bool
  pub aborts : ℕ

unfoldable query_params : (ℕ → Text) → Text → Text → MetricFilters → TimeRange → Params
query_params print cluster_id metric fs range =
    let ps =
      (lit "clusterId", cluster_id)
      ∷ (lit "metric", metric)
      ∷ (lit "start", print range.start_time)
      ∷ (lit "end", print range.end_time)
      ∷ (lit "step", print range.step)
      ∷ [] in
    let qs = set_if (is_truthy fs.namespace) (lit "namespace") fs.namespace ps in
    let rs = set_if (is_truthy fs.node) (lit "node") fs.node qs in
    let ss = set_if (is_truthy fs.pod) (lit "pod") fs.pod rs in
    set_if (is_truthy fs.service) (lit "service") fs.service ss

abbrev abort_open : Bool → ℕ → ℕ
abort_open true n = suc n
abort_open false n = n

-- `fetchData` up to the answer: what it sends, if there is a cluster.
fetch_data :
    {D : Type 0}
    → (ℕ → Text)
    → Option Text
    → Text
    → MetricFilters
    → TimeRange
    → UsePrometheus D
    → UsePrometheus D × Option Params
fetch_data print none metric fs range s = (s, none)
fetch_data print (some cluster_id) metric fs range s =
    if is_truthy cluster_id
    then (
      record s {
        loading = true;
        error = none;
        controller = true;
        aborts = abort_open s.controller s.aborts;
      },
      some (query_params print cluster_id metric fs range),
    )
    else (s, none)

-- The cleanup of the effect.
unfoldable cleanup : {D : Type 0} → UsePrometheus D → UsePrometheus D
cleanup s = record s { aborts = abort_open s.controller s.aborts }

pub record QueryAnswer : Type 0 where
  pub code : ℕ
  pub msg : Text
  pub raw : Option Text

abbrev text_or : Text → Text → Text
text_or [] message = message
text_or (c ∷ s) message = c ∷ s

abbrev truthy_text : Option Text → Option Text
truthy_text none = none
truthy_text (some []) = none
truthy_text (some (c ∷ s)) = some (c ∷ s)

module _ {D : Type 0} (parse : Text → Option D) where
  -- What the body of the `try` does with a raw result.
  abbrev accept_raw : Text → UsePrometheus D → UsePrometheus D
  accept_raw raw s = elim (parse raw) [
    | some d ↦ record s { data_value = some d }
    | none ↦ record s { error = some (lit "SyntaxError") }
  ]

  abbrev accept_answer : QueryAnswer → UsePrometheus D → UsePrometheus D
  accept_answer r s = elim (truthy_text r.raw) [
    | some raw ↦
        if nat_beq r.code 0
        then accept_raw raw s
        else record s { error = some (text_or r.msg (lit "查询失败")) }
    | none ↦ record s { error = some (text_or r.msg (lit "查询失败")) }
  ]

  -- `fetchData` from the answer on, with the `finally`.
  pub data_arrived : Outcome QueryAnswer → UsePrometheus D → UsePrometheus D
  data_arrived (resolved r) s = record (accept_answer r s) { loading = false }
  data_arrived (thrown message) s = record s {
    loading = false;
    error = some (text_or message (lit "请求失败"));
  }

-- `useLabelValues`.
pub record LabelValues : Type 0 where
  pub values : List Text
  pub loading : Bool

abbrev with_match : Option Text → Params → Params
with_match none ps = ps
with_match (some m) ps = set_if (is_truthy m) (lit "match") m ps

unfoldable ask_values : Option Text → Text → Option Text → LabelValues → LabelValues × Option Params
ask_values none label match' s = (s, none)
ask_values (some cluster_id) label match' s =
    if is_truthy cluster_id
    then (
      record s { loading = true },
      some (with_match match' ((lit "clusterId", cluster_id) ∷ (lit "label", label) ∷ [])),
    )
    else (s, none)

-- The first text may be the JSON of all values (`parsed.data || []`); if it is none, the texts are the
-- values.
accept_values : (Text → Option (List Text)) → List Text → LabelValues → LabelValues
accept_values parse [] s = s
accept_values parse (v ∷ vs) s = elim (parse v) [
  | some all ↦ record s { values = all }
  | none ↦ record s { values = v ∷ vs }
]

unfoldable values_arrived :
    (Text → Option (List Text)) → Outcome (ℕ × List Text) → LabelValues → LabelValues
unfolding accept_values
values_arrived parse (resolved r) s =
    record (if nat_beq r.0 0 then accept_values parse r.1 s else s) { loading = false }
values_arrived parse (thrown message) s = record s { values = []; loading = false }
