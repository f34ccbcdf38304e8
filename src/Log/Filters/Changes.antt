-- ===== src/Log/Filters/Changes.antt =====
-- What each state update of the log filters changes, and what it leaves
-- (frontend/src/hooks/useLogFilters.ts, FilterTagBar.tsx).
use mrboard.Shared.{
  ◌≡◌, refl, Bool, true, false, not, ◌&&◌, Option, none, some, List, [], ◌∷◌, arith, if◌then◌else◌,
  ◌==◌, Text, text_eq, text_beq_iff,
}
use mrboard.Shared.Members.{toggle, includes, includes-toggle}
use mrboard.Shared.Assoc.{put, get-put}
use mrboard.Log.Filters.{FacetMap, FilterState, values}
use mrboard.Log.Filters.Reducers.{
  Facet, label, x_label, field, x_field, facet, defined, toggle_in, toggle_label_value, has_keys,
  has_active_filters,
}

-- Whether a name of a facet holds a value.
abbrev pub selects : FacetMap → Text → Text → Bool
selects m name value = includes (values name m) value

pub values-put :
    (n name : Text) (o : Option (List Text)) (m : FacetMap)
    → values n (put name o m)
      ≡ (if name == n then elim o [ some vs ↦ vs | none ↦ [] ] else values n m)
values-put n name none m = ground (arith, get-put name n none m)
values-put n name (some vs) m = ground (arith, get-put name n (some vs) m)

pub values-defined : (vs : List Text) → elim (defined vs) [ some ws ↦ ws | none ↦ [] ] ≡ vs
values-defined [] = refl
values-defined (v ∷ vs) = refl

selects-toggle_in :
    (name value n v : Text) (m : FacetMap)
    → selects (toggle_in name value m) n v
      ≡ (if name == n && value == v then not (selects m n v) else selects m n v)
unfolding toggle_in
selects-toggle_in name value n v m = ground (
  arith,
  values-put n name (defined (toggle value (values name m))) m,
  values-defined (toggle value (values name m)),
  includes-toggle (values name m) value v,
  text_beq_iff name n,
  text_beq_iff value v,
)

abbrev pub is_facet : Facet → Facet → Bool
is_facet label label = true
is_facet x_label x_label = true
is_facet field field = true
is_facet x_field x_field = true
is_facet _ _ = false

-- A toggle of a label's value flips whether its target (the excluded labels if `exclude`, else the
-- labels) selects that value of that name, and changes no other selection, level, search or query.
pub toggle_label_value_lem :
    (name value : Text) (exclude : Bool) (fs : FilterState) (f : Facet) (n v : Text)
    → (selects (facet f (toggle_label_value name value exclude fs)) n v ≡ (
        if is_facet f (if exclude then x_label else label) && (name == n && value == v)
        then not (selects (facet f fs) n v)
        else selects (facet f fs) n v))
      × ((toggle_label_value name value exclude fs).levels ≡ fs.levels)
      × ((toggle_label_value name value exclude fs).search ≡ fs.search)
      × ((toggle_label_value name value exclude fs).logql ≡ fs.logql)
unfolding toggle_label_value
toggle_label_value_lem name value true fs x_label n v =
    (selects-toggle_in name value n v fs.exclude_labels, refl, refl, refl)
toggle_label_value_lem name value false fs label n v =
    (selects-toggle_in name value n v fs.labels, refl, refl, refl)
toggle_label_value_lem name value true fs label n v = (refl, refl, refl, refl)
toggle_label_value_lem name value true fs field n v = (refl, refl, refl, refl)
toggle_label_value_lem name value true fs x_field n v = (refl, refl, refl, refl)
toggle_label_value_lem name value false fs x_label n v = (refl, refl, refl, refl)
toggle_label_value_lem name value false fs field n v = (refl, refl, refl, refl)
toggle_label_value_lem name value false fs x_field n v = (refl, refl, refl, refl)

has_keys-put : (k : Text) (o : Option (List Text)) (m : FacetMap) → has_keys (put k o m) ≡ true
unfolding put
has_keys-put k o [] = refl
has_keys-put k o ((j, p) ∷ m) = ground arith

-- After any toggle of a label's value, also one that leaves nothing selected, filters count as
-- active.
has_active_filters-toggle_label_value :
    (name value : Text) (exclude : Bool) (fs : FilterState)
    → has_active_filters (toggle_label_value name value exclude fs) ≡ true
unfolding has_active_filters toggle_label_value toggle_in
has_active_filters-toggle_label_value name value true fs = ground (
  arith,
  has_keys-put name (defined (toggle value (values name fs.exclude_labels))) fs.exclude_labels,
)
has_active_filters-toggle_label_value name value false fs =
    ground (arith, has_keys-put name (defined (toggle value (values name fs.labels))) fs.labels)
