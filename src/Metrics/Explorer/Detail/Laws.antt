-- ===== src/Metrics/Explorer/Detail/Laws.antt =====
-- The labels of a metric and the end of the waits
-- (frontend/src/pages/monitor/PrometheusMetrics.tsx).
use mrboard.Shared.{
  ◌≡◌, ◌∙◌, refl, Bool, false, not, ◌&&◌, ◌||◌, Option, none, some, List, [], ◌∷◌, if◌then◌else◌,
  ◌==◌, arith, Text, text_eq, text_beq_iff, text_leb, text_leb_total, text_leb_trans, lit,
}
use mrboard.Shared.Assoc.{keys}
use mrboard.Shared.Members.{includes, add_member, includes-add_member}
use mrboard.Shared.Sort.{IsSortedBy, sort_by-IsSortedBy, includes-sort_by}
use mrboard.Session.Api.{Outcome, resolved, thrown}
use mrboard.Metrics.Chart.{MetricSeries}
use mrboard.Metrics.Explorer.{Explorer, QueryAnswer}
use mrboard.Metrics.Explorer.Detail.{
  add_labels, all_labels, discovered, drilldown_answered, end_drilldown, after_chart,
  labels_arrived, chart_arrived, custom_answered,
}

abbrev name_label : Text
name_label = lit "__name__"

-- Some series has the label.
abbrev has_label : List MetricSeries → Text → Bool
has_label [] k = false
has_label (s ∷ series) k = includes (keys s.metric) k || has_label series k

includes-add_labels :
    (ks labels : List Text) (k : Text)
    → includes (add_labels ks labels) k
      ≡ (includes labels k || (includes ks k && not (k == lit "__name__")))
unfolding add_labels includes
includes-add_labels [] labels k = ground arith
includes-add_labels (j ∷ ks) labels k = ground (
  arith,
  includes-add_labels ks (if j == name_label then labels else add_member j labels) k,
  includes-add_member labels j k,
  text_beq_iff j k,
  text_beq_iff j name_label,
  text_beq_iff k name_label,
)

includes-all_labels :
    (series : List MetricSeries) (labels : List Text) (k : Text)
    → includes (all_labels series labels) k
      ≡ (includes labels k || (has_label series k && not (k == lit "__name__")))
unfolding all_labels
includes-all_labels [] labels k = ground arith
includes-all_labels (s ∷ series) labels k = ground (
  arith,
  includes-all_labels series (add_labels (keys s.metric) labels) k,
  includes-add_labels (keys s.metric) labels k,
)

-- The labels that a drill-down offers are those that some series has, without the name of the
-- metric, and they are sorted.
discovered_lem :
    (series : List MetricSeries) (k : Text)
    → IsSortedBy text_leb (discovered series)
      × (includes (discovered series) k ≡ (has_label series k && not (k == lit "__name__")))
unfolding discovered includes
discovered_lem series k = (
  sort_by-IsSortedBy text_leb text_leb_total text_leb_trans (all_labels series []),
  includes-sort_by text_leb k (all_labels series []) ∙ includes-all_labels series [] k,
)

end_drilldown-loading :
    (parse : Text → Option (List MetricSeries)) (s : Explorer) (o : Option Explorer)
    → (end_drilldown parse s o).detail_loading ≡ false
end_drilldown-loading parse s none = refl
end_drilldown-loading parse s (some t) = refl

after_chart-loading :
    (parse : Text → Option (List MetricSeries)) (known : Text) (second : Outcome QueryAnswer)
    (s : Explorer) (o : Option Explorer)
    → (after_chart parse known second s o).detail_loading ≡ false
after_chart-loading parse known second s none = refl
after_chart-loading parse known (thrown message) s (some t) = refl
after_chart-loading parse known (resolved b) s (some t) =
    end_drilldown-loading parse t (labels_arrived parse known b t)

-- However its two requests are answered, a drill-down ends its wait; so does a custom query, however
-- its request is answered.
drilldown_answered_lem :
    (parse : Text → Option (List MetricSeries)) (known : Text) (first second : Outcome QueryAnswer)
    (s : Explorer)
    → ((drilldown_answered parse known first second s).detail_loading ≡ false)
      × ((custom_answered parse first s).custom_loading ≡ false)
unfolding drilldown_answered custom_answered
drilldown_answered_lem parse known (thrown message) second s = (refl, refl)
drilldown_answered_lem parse known (resolved a) second s =
    (after_chart-loading parse known second s (chart_arrived parse a s), refl)
