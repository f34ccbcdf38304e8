-- ===== src/Log/Filters/Reading.antt =====
-- The pairs that a filter state is written to, and what reading them does (frontend/src/types/log.ts).
use mrboard.Shared.{
  ◌≡◌, ◌≢◌, ◌∙◌, refl, sym, ap, ◌++◌, Option, none, some, List, [], ◌∷◌, append_assoc, append-nil,
  Text, text_eq, lit, All,
}
use mrboard.Shared.Assoc.{get}
use mrboard.Shared.Split.{IsPart}
use mrboard.Log.Filters.{
  FacetMap, Params, FilterState, ok, comma, append_values, append_entries, push_value, read_param,
  read_params,
}
use mrboard.Log.Filters.Reducers.{Facet, label, x_label, field, x_field, facet, set_facet}

abbrev IsFilled : Option (List Text) → Type 0
IsFilled (some (v ∷ vs)) = Unit
IsFilled _ = ⊥

-- Every name holds a non-empty list, and no name stands twice.
abbrev pub IsCodable : FacetMap → Type 0
IsCodable [] = Unit
IsCodable ((k, o) ∷ m) = IsFilled o × (get k m ≡ none) × IsCodable m

pub record IsValid (fs : FilterState) : Type 0 where
  pub labels : IsCodable fs.labels
  pub exclude_labels : IsCodable fs.exclude_labels
  pub fields : IsCodable fs.fields
  pub exclude_fields : IsCodable fs.exclude_fields
  pub some_level : fs.levels ≢ []
  pub levels : All (IsPart comma) fs.levels

abbrev pub prefix : Facet → Text
prefix label = lit "label_"
prefix x_label = lit "xLabel_"
prefix field = lit "field_"
prefix x_field = lit "xField_"

abbrev pub value_params : Text → List Text → Params
value_params key [] = []
value_params key (v ∷ vs) = (key, v) ∷ value_params key vs

abbrev pub facet_params : Text → FacetMap → Params
facet_params p [] = []
facet_params p ((k, none) ∷ m) = facet_params p m
facet_params p ((k, some vs) ∷ m) = value_params (p ++ k) vs ++ facet_params p m

append_values_lem :
    (key : Text) (vs : List Text) (ps : Params)
    → append_values key vs ps ≡ ps ++ value_params key vs
unfolding append_values
append_values_lem key [] ps = sym (append-nil ps)
append_values_lem key (v ∷ vs) ps =
    append_values_lem key vs (ps ++ (key, v) ∷ []) ∙ append_assoc ps ((key, v) ∷ []) _

pub append_entries_lem :
    (p : Text) (m : FacetMap) (ps : Params)
    → IsCodable m
    → append_entries p m ps ≡ ok (ps ++ facet_params p m)
unfolding append_entries
append_entries_lem p [] ps h = ap ok (sym (append-nil ps))
append_entries_lem p ((k, none) ∷ m) ps h = absurd h.0
append_entries_lem p ((k, some vs) ∷ m) ps h =
    append_entries_lem p m (append_values (p ++ k) vs ps) h.2
    ∙ ap ok (
        ap (λ (qs : Params). qs ++ facet_params p m) (append_values_lem (p ++ k) vs ps)
        ∙ append_assoc ps (value_params (p ++ k) vs) (facet_params p m))

-- Reading: the pairs of one facet change that facet only.
read_param_lem :
    (f : Facet) (fs : FilterState) (name val : Text)
    → read_param fs (prefix f ++ name) val ≡ set_facet f (push_value name val (facet f fs)) fs
unfolding read_param
read_param_lem label fs name val = refl
read_param_lem x_label fs name val = refl
read_param_lem field fs name val = refl
read_param_lem x_field fs name val = refl

facet-set_facet : (f : Facet) (m : FacetMap) (fs : FilterState) → facet f (set_facet f m fs) ≡ m
facet-set_facet label m fs = refl
facet-set_facet x_label m fs = refl
facet-set_facet field m fs = refl
facet-set_facet x_field m fs = refl

set_facet-set_facet :
    (f : Facet) (m n : FacetMap) (fs : FilterState)
    → set_facet f n (set_facet f m fs) ≡ set_facet f n fs
set_facet-set_facet label m n fs = refl
set_facet-set_facet x_label m n fs = refl
set_facet-set_facet field m n fs = refl
set_facet-set_facet x_field m n fs = refl

set_facet_self : (f : Facet) (fs : FilterState) → set_facet f (facet f fs) fs ≡ fs
set_facet_self label fs = refl
set_facet_self x_label fs = refl
set_facet_self field fs = refl
set_facet_self x_field fs = refl

unfoldable pub push_list : Text → List Text → FacetMap → FacetMap
push_list k [] m = m
push_list k (v ∷ vs) m = push_list k vs (push_value k v m)

unfoldable pub gather : FacetMap → FacetMap → FacetMap
gather [] a = a
gather ((k, none) ∷ m) a = gather m a
gather ((k, some vs) ∷ m) a = gather m (push_list k vs a)

read-value_params :
    (f : Facet) (k : Text) (vs : List Text) (fs : FilterState) (rest : Params)
    → read_params fs (value_params (prefix f ++ k) vs ++ rest)
      ≡ read_params (set_facet f (push_list k vs (facet f fs)) fs) rest
unfolding read_params push_list
read-value_params f k [] fs rest = ap (λ s. read_params s rest) (sym (set_facet_self f fs))
read-value_params f k (v ∷ vs) fs rest =
    simp (read_param_lem, read-value_params f k vs, facet-set_facet, set_facet-set_facet)

pub read-facet_params :
    (f : Facet) (m : FacetMap) (fs : FilterState) (rest : Params)
    → read_params fs (facet_params (prefix f) m ++ rest)
      ≡ read_params (set_facet f (gather m (facet f fs)) fs) rest
unfolding gather
read-facet_params f [] fs rest = ap (λ s. read_params s rest) (sym (set_facet_self f fs))
read-facet_params f ((k, none) ∷ m) fs rest = read-facet_params f m fs rest
read-facet_params f ((k, some vs) ∷ m) fs rest = simp (
  append_assoc,
  read-value_params f k vs,
  read-facet_params f m,
  facet-set_facet,
  set_facet-set_facet,
)
