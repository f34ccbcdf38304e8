-- ===== src/Tests/Filters.antt =====
-- The filters of the log explorer at concrete states (frontend/src/types/log.ts,
-- frontend/src/hooks/useLogFilters.ts).
use mrboard.Shared.{
  ◌≡◌, ◌≢◌, refl, false, not, ◌&&◌, none, some, [], ◌∷◌, arith, ◌==◌, text_eq, lit, split, join,
  keep,
}
use mrboard.Shared.Assoc.{get, put, remove}
use mrboard.Shared.Members.{toggle, includes}
use mrboard.Log.Filters.{
  Params, FilterState, empty_filter_state, ok, filter_state_to_query, parse_filter_state, values,
  set_param, append_entries, append_values, set_if, read_params, read_param, push_value,
}
use mrboard.Log.Filters.Reducers.{label, facet, toggle_label_value, toggle_in, remove_filter, given}
use mrboard.Log.Filters.TagBar.{filter_tags, push_tags, push_values}
use mrboard.Log.Filters.Reading.{IsValid}
use mrboard.Log.Filters.RoundTrip.{parse_filter_state-filter_state_to_query}
use mrboard.Log.Filters.Undefined.{throws, throws_iff_undefined}
use mrboard.Log.Filters.Changes.{selects, is_facet, toggle_label_value_lem}
use mrboard.Log.Filters.Keeps.{hits, remove_filter_lem}

abbrev sample : FilterState
sample = record empty_filter_state {
  labels = (lit "app", some (lit "web" ∷ lit "api" ∷ [])) ∷ (lit "ns", some (lit "prod" ∷ [])) ∷ [];
  exclude_fields = (lit "code", some (lit "200" ∷ [])) ∷ [];
  search = lit "time";
}

program : Unit {0}
unfolding filter_state_to_query append_entries append_values set_if set_param remove
    parse_filter_state read_params read_param push_value get put toggle includes keep
    toggle_label_value toggle_in filter_tags push_tags push_values join split
program = tt

query_test :
    filter_state_to_query (record sample { levels = lit "warn" ∷ lit "info" ∷ [] })
    ≡ ok (
        (lit "label_app", lit "web")
        ∷ (lit "label_app", lit "api")
        ∷ (lit "label_ns", lit "prod")
        ∷ (lit "xField_code", lit "200")
        ∷ (lit "levels", lit "warn,info")
        ∷ (lit "search", lit "time")
        ∷ [])
unfolding program
query_test = refl

no_levels_test : parse_filter_state [] ≡ empty_filter_state
unfolding program
no_levels_test = refl

sample-IsValid : IsValid sample
unfolding get
sample-IsValid = record {
  labels = (tt, refl, (tt, refl, tt));
  exclude_labels = tt;
  fields = tt;
  exclude_fields = (tt, refl, tt);
  some_level = cc;
  levels = grind arith;
}

parse_filter_state-filter_state_to_query_example :
    (ps : Params) × (filter_state_to_query sample ≡ ok ps) × (parse_filter_state ps ≡ sample)
parse_filter_state-filter_state_to_query_example =
    parse_filter_state-filter_state_to_query sample sample-IsValid

throws_iff_undefined_example :
    (throws (filter_state_to_query sample) ≡ false) × (throws (filter_tags sample) ≡ false)
throws_iff_undefined_example = throws_iff_undefined sample

one_label : values (lit "ns") (facet label sample) ≡ lit "prod" ∷ []
unfolding get
one_label = refl

toggle_label_value_lem_example :
    (selects
        (facet label (toggle_label_value (lit "app") (lit "web") false sample))
        (lit "app")
        (lit "web")
      ≡ not (selects (facet label sample) (lit "app") (lit "web")))
    × ((toggle_label_value (lit "app") (lit "web") false sample).levels ≡ sample.levels)
    × ((toggle_label_value (lit "app") (lit "web") false sample).search ≡ sample.search)
    × ((toggle_label_value (lit "app") (lit "web") false sample).logql ≡ sample.logql)
toggle_label_value_lem_example =
    toggle_label_value_lem (lit "app") (lit "web") false sample label (lit "app") (lit "web")

more_left : toggle (lit "web") (values (lit "app") (facet label sample)) ≢ []
unfolding program
more_left = cc

remove_filter_lem_example :
    selects
      (facet label (remove_filter label (lit "app") (some (lit "web")) sample))
      (lit "app")
      (lit "web")
    ≡ (selects (facet label sample) (lit "app") (lit "web")
        && not (
            is_facet label label
            && (lit "app" == lit "app" && hits (given (some (lit "web"))) (lit "web"))))
remove_filter_lem_example =
    remove_filter_lem label (lit "app") (some (lit "web")) sample label (lit "app") (lit "web")

no_search_field : get (lit "search") sample.fields ≡ none
unfolding get
no_search_field = refl
