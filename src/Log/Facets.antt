-- ===== src/Log/Facets.antt =====
-- The panel of the facets, frontend/src/pages/log/LogDrilldown/FacetPanel.tsx, and a group of it,
-- frontend/src/pages/log/LogDrilldown/FacetGroup.tsx.
pub mod Laws
use mrboard.Shared.{
  ℕ, ◌-◌, ◌++◌, Bool, true, false, not, ◌&&◌, List, [], ◌∷◌, map, if◌then◌else◌, leb, ltb, length,
  take, Text, text_eq, lit,
}
use mrboard.Shared.Members.{includes}
use mrboard.Shared.Sort.{sort_by}
use mrboard.Log.Filters.{FilterState, values}
use mrboard.Log.Filters.Reducers.{toggle_label_value, toggle_field_value}
use mrboard.Log.Entry.{DetectedFieldValue, DetectedField, LabelWithValues}

-- `FacetGroupProps`, with the toggle as the facet that it is for.
pub data Toggles : Type 0 where
  level_toggle : Toggles
  label_toggle field_toggle : Text → Toggles

pub record Group : Type 0 where
  pub title : Text
  pub options : List DetectedFieldValue
  pub selected : List Text
  pub exclude_selected : List Text
  pub toggles : Toggles
  pub default_expanded : Bool

-- The two states of a group.
pub record Shown : Type 0 where
  pub expanded : Bool
  pub show_all : Bool

abbrev open_group : Group → Shown
open_group g = record { expanded = g.default_expanded; show_all = false }

unfoldable toggle_expanded : Shown → Shown
toggle_expanded s = record s { expanded = not s.expanded }

unfoldable click_show_more : Shown → Shown
click_show_more s = record s { show_all = true }

unfoldable display_values : Group → Shown → List DetectedFieldValue
display_values g s = if s.show_all then g.options else take 10 g.options

-- A row of a group: its value, and its two marks.
pub record OptionRow : Type 0 where
  pub value : Text
  pub is_selected : Bool
  pub is_excluded : Bool

abbrev pub option_row : Group → DetectedFieldValue → OptionRow
option_row g v = record {
  value = v.value;
  is_selected = includes g.selected v.value;
  is_excluded = includes g.exclude_selected v.value;
}

-- The rows that are drawn, and the number that the button Show more tells, 0 without the button.
pub option_rows : Group → Shown → List OptionRow
unfolding display_values
option_rows g s = if s.expanded then map (option_row g) (display_values g s) else []

pub more_count : Group → Shown → ℕ
more_count g s =
    if s.expanded && (ltb 10 (length g.options) && not s.show_all) then length g.options - 10 else 0

abbrev level_value : Text × ℕ → DetectedFieldValue
level_value (level, count) = record { value = level; count = count }

-- The order of the levels.
abbrev is_oftener : DetectedFieldValue → DetectedFieldValue → Bool
is_oftener a b = leb b.count a.count

level_values : List (Text × ℕ) → List DetectedFieldValue
level_values levels = sort_by is_oftener (map level_value levels)

abbrev level_group : List (Text × ℕ) → FilterState → Group
level_group levels fs = record {
  title = lit "Levels";
  options = level_values levels;
  selected = fs.levels;
  exclude_selected = [];
  toggles = level_toggle;
  default_expanded = true;
}

pub label_group : FilterState → LabelWithValues → Group
label_group fs l = record {
  title = l.name;
  options = l.values;
  selected = values l.name fs.labels;
  exclude_selected = values l.name fs.exclude_labels;
  toggles = label_toggle l.name;
  default_expanded = true;
}

unfoldable field_group : FilterState → DetectedField → Group
field_group fs f = record {
  title = f.name;
  options = f.values;
  selected = values f.name fs.fields;
  exclude_selected = values f.name fs.exclude_fields;
  toggles = field_toggle f.name;
  default_expanded = false;
}

-- The groups of the panel, in their order.
unfoldable facet_panel :
    List LabelWithValues → List DetectedField → List (Text × ℕ) → FilterState → List Group
facet_panel labels fields levels fs =
    level_group levels fs ∷ map (label_group fs) labels ++ map (field_group fs) fields
