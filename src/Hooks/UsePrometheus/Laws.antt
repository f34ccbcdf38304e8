-- ===== src/Hooks/UsePrometheus/Laws.antt =====
-- What the answers to a query of metrics leave behind (frontend/src/hooks/usePrometheus.ts).
use mrboard.Shared.{
  ◌≡◌, refl, ℕ, true, false, not, Option, none, some, arith, if◌then◌else◌, nat_beq, Text,
  is_truthy, is_some,
}
use mrboard.Session.Api.{Outcome, resolved, thrown}
use mrboard.Hooks.UsePrometheus.{
  UsePrometheus, MetricFilters, TimeRange, QueryAnswer, fetch_data, data_arrived, truthy_text,
}

-- What an answer delivers: its code is 0 and it has a raw result that parses.
abbrev delivers : {D : Type 0} → (Text → Option D) → Outcome QueryAnswer → Option D
delivers parse (thrown message) = none
delivers parse (resolved r) = elim (truthy_text r.raw) [
  | some raw ↦ if nat_beq r.code 0 then parse raw else none
  | none ↦ none
]

-- When the answer to a query has arrived, nothing is loading. If it delivers data, they are shown
-- without error; if not, there is an error and the data shown before stay.
data_arrived_lem :
    {D : Type 0} (print : ℕ → Text) (parse : Text → Option D) (cluster_id metric : Text)
    (fs : MetricFilters) (range : TimeRange) (answer : Outcome QueryAnswer) (s : UsePrometheus D)
    → is_truthy cluster_id ≡ true
    → let asked = (fetch_data print (some cluster_id) metric fs range s).0 in
      let heard = data_arrived parse answer asked in
      (heard.loading ≡ false)
      × (heard.data_value ≡ elim (delivers parse answer) [ some d ↦ some d | none ↦ s.data_value ])
      × (is_some heard.error ≡ not (is_some (delivers parse answer)))
unfolding fetch_data data_arrived
data_arrived_lem print parse cluster_id metric fs range (thrown message) s h =
    (refl, ground arith, refl)
data_arrived_lem print parse cluster_id metric fs range (resolved r) s h =
    (refl, ground arith, ground arith)
