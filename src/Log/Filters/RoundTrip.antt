-- ===== src/Log/Filters/RoundTrip.antt =====
-- The search string of a filter state is parsed back to it (frontend/src/types/log.ts).
use mrboard.Shared.{
  ◌≡◌, ◌≢◌, ◌∙◌, refl, sym, ap, ◌++◌, Bool, true, false, List, [], ◌∷◌, append_assoc, append-nil,
  arith, Text, text_eq, lit, join, All, All-append, is_truthy, keep, split,
}
use mrboard.Shared.Split.{IsPart, split-join, keep_parts}
use mrboard.Log.Filters.{
  Params, FilterState, empty_filter_state, ok, comma, set_if, filter_state_to_query, read_param,
  read_params, parse_filter_state, is_filled,
}
use mrboard.Log.Filters.Reducers.{label, x_label, field, x_field}
use mrboard.Log.Filters.Reading.{IsValid, facet_params, append_entries_lem, read-facet_params}
use mrboard.Log.Filters.Gather.{
  gather-nil, Absent, IsPlain, IsPlain-append, facet_params-IsPlain, set_param-Absent,
}

abbrev facets : FilterState → Params
facets fs =
    ((([] ++ facet_params (lit "label_") fs.labels)
        ++ facet_params (lit "xLabel_") fs.exclude_labels)
      ++ facet_params (lit "field_") fs.fields)
    ++ facet_params (lit "xField_") fs.exclude_fields

facets-IsPlain : (fs : FilterState) → IsPlain (facets fs)
facets-IsPlain fs =
    IsPlain-append _ _
      (IsPlain-append _ _
        (IsPlain-append _ _ (facet_params-IsPlain label fs.labels)
          (facet_params-IsPlain x_label fs.exclude_labels))
        (facet_params-IsPlain field fs.fields))
      (facet_params-IsPlain x_field fs.exclude_fields)

abbrev when : Bool → Text → Text → Params
when true k v = (k, v) ∷ []
when false k v = []

set_if-Absent :
    (b : Bool) (k v : Text) (ps : Params) → Absent k ps → set_if b k v ps ≡ ps ++ when b k v
unfolding set_if
set_if-Absent true k v ps h = set_param-Absent k v ps h
set_if-Absent false k v ps h = sym (append-nil ps)

Absent-when : (k j v : Text) (b : Bool) → text_eq.same j k ≡ false → Absent k (when b j v)
Absent-when k j v true h = (h, tt)
Absent-when k j v false h = tt

abbrev plain : List Text → Text → Text → Params
plain levels search logql =
    when (is_filled levels) (lit "levels") (join comma levels)
    ++ (when (is_truthy search) (lit "search") search ++ when (is_truthy logql) (lit "logql") logql)

set_plain :
    (levels : List Text) (search logql : Text) (ps : Params)
    → IsPlain ps
    → set_if (is_truthy logql) (lit "logql") logql (
        set_if
          (is_truthy search)
          (lit "search")
          search
          (set_if (is_filled levels) (lit "levels") (join comma levels) ps))
      ≡ ps ++ plain levels search logql
set_plain levels search logql ps (a, b, c) =
    let w1 = when (is_filled levels) (lit "levels") (join comma levels) in
    let w2 = when (is_truthy search) (lit "search") search in
    let w3 = when (is_truthy logql) (lit "logql") logql in
    ap
      (λ qs.
        set_if (is_truthy logql) (lit "logql") logql
          (set_if (is_truthy search) (lit "search") search qs))
      (set_if-Absent (is_filled levels) (lit "levels") (join comma levels) ps a)
    ∙ ap (set_if (is_truthy logql) (lit "logql") logql) (
        set_if-Absent (is_truthy search) (lit "search") search (ps ++ w1)
          (All-append _ ps w1 b (Absent-when _ _ _ (is_filled levels) refl)))
    ∙ set_if-Absent (is_truthy logql) (lit "logql") logql ((ps ++ w1) ++ w2) (
        All-append _ (ps ++ w1) w2
          (All-append _ ps w1 c (Absent-when _ _ _ (is_filled levels) refl))
          (Absent-when _ _ _ (is_truthy search) refl))
    ∙ append_assoc (ps ++ w1) w2 w3
    ∙ append_assoc ps w1 (w2 ++ w3)

filter_state_to_query_lem :
    (fs : FilterState)
    → IsValid fs
    → filter_state_to_query fs ≡ ok (facets fs ++ plain fs.levels fs.search fs.logql)
unfolding filter_state_to_query
filter_state_to_query_lem fs h =
    simp
      (
        append_entries_lem (lit "label_") fs.labels [] h.labels,
        append_entries_lem (lit "xLabel_") fs.exclude_labels _ h.exclude_labels,
        append_entries_lem (lit "field_") fs.fields _ h.fields,
        append_entries_lem (lit "xField_") fs.exclude_fields _ h.exclude_fields,
      )
      (ap ok (set_plain fs.levels fs.search fs.logql (facets fs) (facets-IsPlain fs)))

read_levels :
    (levels : List Text)
    → levels ≢ []
    → All (IsPart comma) levels
    → keep is_truthy (split comma (join comma levels)) ≡ levels
read_levels [] n h = absurd (n refl)
read_levels (s ∷ ss) n h =
    ap (keep is_truthy) (split-join comma s ss h) ∙ keep_parts comma (s ∷ ss) h

-- From a state without search and query, the plain pairs give levels, search and query.
read_plain :
    (fs : FilterState) (levels : List Text) (search logql : Text)
    → fs.search ≡ []
    → fs.logql ≡ []
    → levels ≢ []
    → All (IsPart comma) levels
    → read_params fs (plain levels search logql)
      ≡ record fs { levels = levels; search = search; logql = logql }
unfolding read_params read_param
read_plain fs [] search logql s l n h = absurd (n refl)
read_plain fs (v ∷ vs) [] [] s l n h = ground (arith, read_levels (v ∷ vs) n h)
read_plain fs (v ∷ vs) [] (c ∷ q) s l n h = ground (arith, read_levels (v ∷ vs) n h)
read_plain fs (v ∷ vs) (d ∷ r) [] s l n h = ground (arith, read_levels (v ∷ vs) n h)
read_plain fs (v ∷ vs) (d ∷ r) (c ∷ q) s l n h = ground (arith, read_levels (v ∷ vs) n h)

read_facets :
    (fs : FilterState) (rest : Params)
    → IsValid fs
    → parse_filter_state (facets fs ++ rest)
      ≡ read_params (record fs { levels = empty_filter_state.levels; search = []; logql = [] }) rest
unfolding parse_filter_state
read_facets fs rest h = simp (
  append_assoc,
  read-facet_params label,
  read-facet_params x_label,
  read-facet_params field,
  read-facet_params x_field,
  gather-nil fs.labels h.labels,
  gather-nil fs.exclude_labels h.exclude_labels,
  gather-nil fs.fields h.fields,
  gather-nil fs.exclude_fields h.exclude_fields,
)

-- A filter state whose facets hold only non-empty lists, under names that differ, and that has
-- levels, each non-empty and without comma, is written to a search string with no exception, and
-- that search string is parsed to the same state.
pub parse_filter_state-filter_state_to_query :
    (fs : FilterState)
    → IsValid fs
    → (ps : Params) × (filter_state_to_query fs ≡ ok ps) × (parse_filter_state ps ≡ fs)
parse_filter_state-filter_state_to_query fs h = (
  facets fs ++ plain fs.levels fs.search fs.logql,
  filter_state_to_query_lem fs h,
  read_facets fs _ h ∙ read_plain _ fs.levels fs.search fs.logql refl refl h.some_level h.levels,
)
