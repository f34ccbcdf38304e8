-- ===== src/Log/Filters/Keeps.antt =====
-- Which state updates of the log filters keep the state one that has a search string
-- (frontend/src/hooks/useLogFilters.ts), and what a removal does (FilterTagBar.tsx).
use mrboard.Shared.{
  ◌≡◌, ◌≢◌, refl, Bool, true, false, not, ◌&&◌, Option, none, some, List, [], ◌∷◌, arith, subst,
  if◌then◌else◌, ◌==◌, Text, text_eq, text_beq_iff, lit, Bool-cases, inl, inr, List-cases,
}
use mrboard.Shared.Members.{toggle, includes, includes-without, without}
use mrboard.Shared.Assoc.{get, put, get-put, get-remove}
use mrboard.Log.Filters.{FacetMap, FilterState, values}
use mrboard.Log.Filters.Reducers.{
  Facet, label, x_label, field, x_field, facet, set_facet, defined, toggle_in, toggle_label_value,
  remove_in, remove_current, remove_filter, given,
}
use mrboard.Log.Filters.TagBar.{search_tag, click_remove}
use mrboard.Log.Filters.Reading.{IsCodable, IsValid}
use mrboard.Log.Filters.Changes.{selects, values-put, values-defined, is_facet}

get-put_other :
    (k j : Text) (o : Option (List Text)) (m : FacetMap)
    → (k == j) ≡ false
    → get j m ≡ none
    → get j (put k o m) ≡ none
get-put_other k j o m e h = ground (arith, get-put k j o m)

put-IsCodable :
    (k v : Text) (vs : List Text) (m : FacetMap) → IsCodable m → IsCodable (put k (some (v ∷ vs)) m)
unfolding put get
put-IsCodable k v vs [] h = (tt, refl, tt)
put-IsCodable k v vs ((j, o) ∷ m) (filled, fresh, h) = elim (Bool-cases (j == k)) [
  | inl same ↦ rw same (tt, fresh, h)
  | inr other ↦ rw other (
    filled,
    get-put_other k j _ m (ground (arith, text_beq_iff k j, text_beq_iff j k)) fresh,
    put-IsCodable k v vs m h,
  )
]

toggle_in-IsCodable :
    (name value : Text) (m : FacetMap)
    → IsCodable m
    → toggle value (values name m) ≢ []
    → IsCodable (toggle_in name value m)
unfolding toggle_in
toggle_in-IsCodable name value m h more = elim (List-cases (toggle value (values name m))) [
  | inl empty ↦ absurd (more empty)
  | inr (v, vs, e) ↦ rw e (put-IsCodable name v vs m h)
]

-- Unless it leaves its name with nothing selected, a toggle of a label's value keeps a valid state
-- valid: the next state has a search string from which it is read back.
toggle_label_value-IsValid :
    (name value : Text) (exclude : Bool) (fs : FilterState)
    → toggle value (values name (facet (if exclude then x_label else label) fs)) ≢ []
    → IsValid fs
    → IsValid (toggle_label_value name value exclude fs)
unfolding toggle_label_value
toggle_label_value-IsValid name value true fs more h = record {
  labels = h.labels;
  exclude_labels = toggle_in-IsCodable name value fs.exclude_labels h.exclude_labels more;
  fields = h.fields;
  exclude_fields = h.exclude_fields;
  some_level = h.some_level;
  levels = h.levels;
}
toggle_label_value-IsValid name value false fs more h = record {
  labels = toggle_in-IsCodable name value fs.labels h.labels more;
  exclude_labels = h.exclude_labels;
  fields = h.fields;
  exclude_fields = h.exclude_fields;
  some_level = h.some_level;
  levels = h.levels;
}

-- The value that a removal with a non-empty `value` names, or any value if none is given.
abbrev pub hits : Option Text → Text → Bool
hits none v = true
hits (some value) v = value == v

selects-remove_in :
    (name : Text) (value : Option Text) (current : List Text) (m : FacetMap) (n v : Text)
    → get name m ≡ some (some current)
    → selects (remove_in name value current m) n v
      ≡ (selects m n v && not (name == n && hits value v))
unfolding remove_in includes
selects-remove_in name none current m n v h =
    ground (arith, get-remove name n m, text_beq_iff name n)
selects-remove_in name (some value) current m n v h = ground (
  arith,
  values-put n name (defined (without value current)) m,
  values-defined (without value current),
  includes-without current value v,
  text_beq_iff name n,
  text_beq_iff value v,
)

facet-set_facet :
    (f t : Facet) (m : FacetMap) (fs : FilterState)
    → facet f (set_facet t m fs) ≡ (if is_facet f t then m else facet f fs)
facet-set_facet label label m fs = refl
facet-set_facet x_label x_label m fs = refl
facet-set_facet field field m fs = refl
facet-set_facet x_field x_field m fs = refl
facet-set_facet _ _ m fs = refl

eq_of_is_facet : (f t : Facet) → is_facet f t ≡ true → f ≡ t
eq_of_is_facet label label h = refl
eq_of_is_facet x_label x_label h = refl
eq_of_is_facet field field h = refl
eq_of_is_facet x_field x_field h = refl
eq_of_is_facet _ _ h = cc

-- A name that is missing or holds undefined selects nothing.
selects_unset :
    (name n v : Text) (m : FacetMap)
    → values name m ≡ []
    → (name == n) ≡ true
    → selects m n v ≡ false
unfolding includes
selects_unset name n v m h e = subst (λ k. selects m k v ≡ false) ((text_beq_iff name n).0 e) (rw h)

module _ (type : Facet) (name : Text) (value : Option Text) (fs : FilterState) (f : Facet)
    (n v : Text) where
  unset_lem :
      values name (facet type fs) ≡ []
      → selects (facet f fs) n v
        ≡ (selects (facet f fs) n v && not (is_facet f type && (name == n && hits (given value) v)))
  unset_lem h = elim (Bool-cases (is_facet f type)) [
    | inl same ↦
        let e = eq_of_is_facet f type same in
        ground (arith, selects_unset name n v (facet f fs) (rw e h))
    | inr other ↦ ground arith
  ]

  remove_current_lem :
      (o : Option (Option (List Text)))
      → get name (facet type fs) ≡ o
      → selects (facet f (remove_current o type name value fs)) n v
        ≡ (selects (facet f fs) n v && not (is_facet f type && (name == n && hits (given value) v)))
  unfolding remove_current
  remove_current_lem none h = unset_lem (ground arith)
  remove_current_lem (some none) h = unset_lem (ground arith)
  remove_current_lem (some (some current)) h = elim (Bool-cases (is_facet f type)) [
    | inl same ↦
        let e = eq_of_is_facet f type same in
        ground (
          arith,
          facet-set_facet f type (remove_in name (given value) current (facet type fs)) fs,
          selects-remove_in name (given value) current (facet type fs) n v h,
          e,
        )
    | inr other ↦
        ground
          (arith, facet-set_facet f type (remove_in name (given value) current (facet type fs)) fs)
  ]

-- A removal drops the selection of the given value of the name, or of all its values if none (or the
-- empty value) is given, from the facet of its type; it drops nothing else and selects nothing.
pub remove_filter_lem :
    (type : Facet) (name : Text) (value : Option Text) (fs : FilterState) (f : Facet) (n v : Text)
    → selects (facet f (remove_filter type name value fs)) n v
      ≡ (selects (facet f fs) n v && not (is_facet f type && (name == n && hits (given value) v)))
unfolding remove_filter
remove_filter_lem type name value fs f n v = remove_current_lem type name value fs f n v _ refl

-- The cross of the search tag does nothing, unless a field is named "search": it removes a field's
-- filter of that name.
click_remove-search_tag :
    (fs : FilterState)
    → get (lit "search") fs.fields ≡ none
    → click_remove (search_tag fs.search) fs ≡ fs
unfolding click_remove remove_filter
click_remove-search_tag fs h = ground arith
