-- ===== src/Log/Filters/Undefined.antt =====
-- When a name that holds undefined makes the query string and the tag bar throw
-- (frontend/src/types/log.ts, frontend/src/hooks/useLogFilters.ts, FilterTagBar.tsx).
use mrboard.Shared.{
  ◌≡◌, refl, Bool, true, false, ◌||◌, none, some, List, [], ◌∷◌, arith, if◌then◌else◌, Text,
  text_eq, text_beq_iff, ◌++◌, keep, ◌∙◌,
}
use mrboard.Shared.Members.{toggle, includes}
use mrboard.Shared.Assoc.{put}
use mrboard.Log.Filters.{
  FacetMap, Params, FilterState, Result, ok, type_error, ◌>>=◌, append_values, append_entries,
  filter_state_to_query, values,
}
use mrboard.Log.Filters.Reducers.{
  Facet, label, x_label, field, x_field, facet, toggle_in, toggle_label_value,
}
use mrboard.Log.Filters.TagBar.{Tag, push_values, push_tags, filter_tags}

abbrev holds_undefined : FacetMap → Bool
holds_undefined [] = false
holds_undefined ((k, none) ∷ m) = true
holds_undefined ((k, some vs) ∷ m) = holds_undefined m

abbrev any_undefined : FilterState → Bool
any_undefined fs =
    holds_undefined fs.labels
    || holds_undefined fs.exclude_labels
    || holds_undefined fs.fields
    || holds_undefined fs.exclude_fields

abbrev pub throws {ℓ} : {A : Type ℓ} → Result A → Bool
throws (ok a) = false
throws type_error = true

throws-append_entries :
    (p : Text) (m : FacetMap) (ps : Params) → throws (append_entries p m ps) ≡ holds_undefined m
unfolding append_entries
throws-append_entries p [] ps = refl
throws-append_entries p ((k, none) ∷ m) ps = refl
throws-append_entries p ((k, some vs) ∷ m) ps =
    throws-append_entries p m (append_values (p ++ k) vs ps)

throws-push_tags :
    (f : Facet) (x : Bool) (m : FacetMap) (ts : List Tag)
    → throws (push_tags f x m ts) ≡ holds_undefined m
unfolding push_tags
throws-push_tags f x [] ts = refl
throws-push_tags f x ((k, none) ∷ m) ts = refl
throws-push_tags f x ((k, some vs) ∷ m) ts = throws-push_tags f x m (push_values f x k vs ts)

-- A bind throws if its first step does, or if what follows does, whatever it is given.
throws-bind {ℓ κ} :
    {A : Type ℓ} {B : Type κ} (r : Result A) (k : A → Result B) {a b : Bool}
    → throws r ≡ a
    → ((x : A) → throws (k x) ≡ b)
    → throws (r >>= k) ≡ (a || b)
throws-bind (ok x) k e h = ground (arith, h x)
throws-bind type_error k e h = ground arith

regroup :
    (fs : FilterState) (r : Bool)
    → r ≡ (
        holds_undefined fs.labels
        || (holds_undefined fs.exclude_labels
            || (holds_undefined fs.fields || (holds_undefined fs.exclude_fields || false))))
    → r ≡ any_undefined fs
regroup fs r h = ground arith

-- The query string and the tag bar throw alike: exactly when some facet has a name that holds
-- undefined.
pub throws_iff_undefined :
    (fs : FilterState)
    → (throws (filter_state_to_query fs) ≡ any_undefined fs)
      × (throws (filter_tags fs) ≡ any_undefined fs)
unfolding filter_state_to_query filter_tags
throws_iff_undefined fs = (
  regroup fs _ (
      throws-bind _ _ (throws-append_entries _ fs.labels []) λ ps.
        throws-bind _ _ (throws-append_entries _ fs.exclude_labels ps) λ qs.
          throws-bind _ _ (throws-append_entries _ fs.fields qs)
            λ rs. throws-bind _ _ (throws-append_entries _ fs.exclude_fields rs) λ ss. refl),
  regroup fs _ (
      throws-bind _ _ (throws-push_tags label false fs.labels []) λ ps.
        throws-bind _ _ (throws-push_tags x_label true fs.exclude_labels ps) λ qs.
          throws-bind _ _ (throws-push_tags field false fs.fields qs)
            λ rs. throws-bind _ _ (throws-push_tags x_field true fs.exclude_fields rs) λ ss. refl),
)

holds_undefined-put : (k : Text) (m : FacetMap) → holds_undefined (put k none m) ≡ true
unfolding put
holds_undefined-put k [] = refl
holds_undefined-put k ((j, none) ∷ m) = ground arith
holds_undefined-put k ((j, some vs) ∷ m) = ground (arith, holds_undefined-put k m)

toggle_in-holds_undefined :
    (name value : Text) (m : FacetMap)
    → values name m ≡ value ∷ []
    → holds_undefined (toggle_in name value m) ≡ true
unfolding toggle_in toggle includes keep
toggle_in-holds_undefined name value m h =
    ground (arith, h, text_beq_iff value value, holds_undefined-put name m)

type_error_of_throws {ℓ} : {A : Type ℓ} (r : Result A) → throws r ≡ true → r ≡ type_error
type_error_of_throws (ok a) h = cc
type_error_of_throws type_error h = refl

crash :
    (fs : FilterState)
    → any_undefined fs ≡ true
    → (filter_state_to_query fs ≡ type_error) × (filter_tags fs ≡ type_error)
crash fs h =
    let (q, t) = throws_iff_undefined fs in
    (type_error_of_throws _ (q ∙ h), type_error_of_throws _ (t ∙ h))

-- When a label's only selected (or only excluded) value is toggled off, both the query string and
-- the tag bar of the next state throw a TypeError.
toggle_label_value_last :
    (name value : Text) (exclude : Bool) (fs : FilterState)
    → values name (facet (if exclude then x_label else label) fs) ≡ value ∷ []
    → (filter_state_to_query (toggle_label_value name value exclude fs) ≡ type_error)
      × (filter_tags (toggle_label_value name value exclude fs) ≡ type_error)
unfolding toggle_label_value
toggle_label_value_last name value true fs h =
    crash _ (ground (arith, toggle_in-holds_undefined name value fs.exclude_labels h))
toggle_label_value_last name value false fs h =
    crash _ (ground (arith, toggle_in-holds_undefined name value fs.labels h))
