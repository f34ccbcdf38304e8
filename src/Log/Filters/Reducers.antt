-- ===== src/Log/Filters/Reducers.antt =====
-- The state updates of frontend/src/hooks/useLogFilters.ts, each a function of the previous state.
use mrboard.Shared.{
  text_eq, Bool, true, false, ◌||◌, Option, none, some, List, [], ◌∷◌, if◌then◌else◌, Text,
  is_truthy,
}
use mrboard.Shared.Members.{without, toggle}
use mrboard.Shared.Assoc.{get, put, remove}
use mrboard.Log.Filters.{FacetMap, FilterState, empty_filter_state, values}

-- The `type` of a removal, and the four keys that it and the toggles choose among.
pub data Facet : Type 0 where
  label x_label field x_field : Facet

abbrev pub facet : Facet → FilterState → FacetMap
facet label fs = fs.labels
facet x_label fs = fs.exclude_labels
facet field fs = fs.fields
facet x_field fs = fs.exclude_fields

abbrev pub set_facet : Facet → FacetMap → FilterState → FilterState
set_facet label m fs = record fs { labels = m }
set_facet x_label m fs = record fs { exclude_labels = m }
set_facet field m fs = record fs { fields = m }
set_facet x_field m fs = record fs { exclude_fields = m }

-- `next.length > 0 ? next : undefined`.
abbrev pub defined : List Text → Option (List Text)
defined [] = none
defined (v ∷ vs) = some (v ∷ vs)

-- The body that both toggles have.
unfoldable pub toggle_in : Text → Text → FacetMap → FacetMap
toggle_in name value m = put name (defined (toggle value (values name m))) m

unfoldable pub toggle_label_value : Text → Text → Bool → FilterState → FilterState
toggle_label_value name value exclude prev =
    let target = if exclude then x_label else label in
    set_facet target (toggle_in name value (facet target prev)) prev

unfoldable pub toggle_field_value : Text → Text → Bool → FilterState → FilterState
toggle_field_value name value exclude prev =
    let target = if exclude then x_field else field in
    set_facet target (toggle_in name value (facet target prev)) prev

unfoldable toggle_level : Text → FilterState → FilterState
toggle_level level prev = record prev { levels = toggle level prev.levels }

unfoldable set_search : Text → FilterState → FilterState
set_search search prev = record prev { search = search }

unfoldable pub set_logql : Text → FilterState → FilterState
set_logql logql prev = record prev { logql = logql }

-- `if (value)`: a value is given, and it is not empty.
abbrev pub given : Option Text → Option Text
given none = none
given (some []) = none
given (some (c ∷ s)) = some (c ∷ s)

-- A removal where the name holds `current`: of one value, or of the whole name.
unfoldable pub remove_in : Text → Option Text → List Text → FacetMap → FacetMap
remove_in name (some value) current m = put name (defined (without value current)) m
remove_in name none current m = remove name m

-- `const current = prev[key][name]; if (!current) return prev`.
unfoldable pub remove_current :
    Option (Option (List Text)) → Facet → Text → Option Text → FilterState → FilterState
remove_current (some (some current)) type name value prev =
    set_facet type (remove_in name (given value) current (facet type prev)) prev
remove_current _ type name value prev = prev

unfoldable pub remove_filter : Facet → Text → Option Text → FilterState → FilterState
unfolding remove_current
remove_filter type name value prev =
    remove_current (get name (facet type prev)) type name value prev

unfoldable clear_all : FilterState → FilterState
clear_all prev = empty_filter_state

-- `Object.keys(m).length > 0`.
abbrev pub has_keys : FacetMap → Bool
has_keys [] = false
has_keys (e ∷ m) = true

unfoldable pub has_active_filters : FilterState → Bool
has_active_filters fs =
    has_keys fs.labels
    || has_keys fs.exclude_labels
    || has_keys fs.fields
    || has_keys fs.exclude_fields
    || is_truthy fs.search
