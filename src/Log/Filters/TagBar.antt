-- ===== src/Log/Filters/TagBar.antt =====
-- The tags of the active filters (frontend/src/pages/log/LogDrilldown/FilterTagBar.tsx).
use mrboard.Shared.{
  text_eq, ◌++◌, Bool, true, false, none, some, List, [], ◌∷◌, if◌then◌else◌, ◌==◌, Text, lit,
  is_truthy,
}
use mrboard.Log.Filters.{FacetMap, FilterState, Result, ok, type_error, ◌>>=◌}
use mrboard.Log.Filters.Reducers.{Facet, label, x_label, field, x_field, remove_filter}

pub record Tag : Type 0 where
  pub type : Facet
  pub name : Text
  pub value : Text
  pub exclude : Bool

unfoldable pub push_values : Facet → Bool → Text → List Text → List Tag → List Tag
push_values type exclude name [] tags = tags
push_values type exclude name (v ∷ vs) tags =
    push_values type exclude name vs
      (tags ++ record { type = type; name = name; value = v; exclude = exclude } ∷ [])

-- One of the four loops. To iterate over undefined throws, while the bar is rendered.
unfoldable pub push_tags : Facet → Bool → FacetMap → List Tag → Result (List Tag)
push_tags type exclude [] tags = ok tags
push_tags type exclude ((name, none) ∷ m) tags = type_error
push_tags type exclude ((name, some vs) ∷ m) tags =
    push_tags type exclude m (push_values type exclude name vs tags)

abbrev pub search_tag : Text → Tag
search_tag s = record { type = field; name = lit "search"; value = s; exclude = false }

unfoldable pub filter_tags : FilterState → Result (List Tag)
filter_tags fs = do
  a ← push_tags label false fs.labels []
  b ← push_tags x_label true fs.exclude_labels a
  c ← push_tags field false fs.fields b
  d ← push_tags x_field true fs.exclude_fields c
  ok (if is_truthy fs.search then d ++ search_tag fs.search ∷ [] else d)

-- The click on a tag's cross, where `onRemove` is the hook's `removeFilter`.
unfoldable pub click_remove : Tag → FilterState → FilterState
click_remove tag fs =
    if tag.name == lit "search"
    then remove_filter field (lit "search") none fs
    else remove_filter tag.type tag.name (some tag.value) fs
