-- ===== src/Log/Filters.antt =====
-- The filter state of the log explorer and its query string (frontend/src/types/log.ts), and the
-- reducers that change it (frontend/src/hooks/useLogFilters.ts).
-- A search string is the list of the pairs that URLSearchParams reads from it and writes to it.
pub mod Changes
pub mod Gather
pub mod Keeps
pub mod Reading
pub mod Reducers
pub mod TagBar
pub mod RoundTrip
pub mod Undefined
use mrboard.Shared.{
  ℕ, ◌++◌, Bool, true, false, not, ◌&&◌, Option, none, some, List, [], ◌∷◌, if◌then◌else◌, ◌==◌,
  Text, lit, strip, is_truthy, join, split, keep, or_else, text_eq,
}
use mrboard.Shared.Assoc.{get, put, remove}

-- `Record<string, string[]>`; `none` is a key that holds undefined.
abbrev pub FacetMap : Type 0
FacetMap = List (Text × Option (List Text))

abbrev pub Params : Type 0
Params = List (Text × Text)

pub record FilterState : Type 0 where
  pub labels : FacetMap
  pub exclude_labels : FacetMap
  pub fields : FacetMap
  pub exclude_fields : FacetMap
  pub levels : List Text
  pub search : Text
  pub logql : Text

abbrev pub empty_filter_state : FilterState
empty_filter_state = record {
  labels = [];
  exclude_labels = [];
  fields = [];
  exclude_fields = [];
  levels = lit "error" ∷ lit "warn" ∷ lit "info" ∷ lit "debug" ∷ [];
  search = [];
  logql = [];
}

-- A run that may throw a TypeError.
pub data Result {ℓ} (A : Type ℓ) : Type ℓ where
  ok : A → Result A
  type_error : Result A

infixl 5 ◌>>=◌
abbrev ◌>>=◌ {ℓ κ} : {A : Type ℓ} {B : Type κ} → Result A → (A → Result B) → Result B
ok a >>= k = k a
type_error >>= k = type_error

abbrev pub comma : ℕ
comma = b','

-- URLSearchParams.set: the first pair of the name is changed and the others go.
unfoldable pub set_param : Text → Text → Params → Params
set_param k v [] = (k, v) ∷ []
set_param k v ((j, w) ∷ ps) = if j == k then (j, v) ∷ remove k ps else (j, w) ∷ set_param k v ps

-- The inner loop, `for (const v of vs) params.append(key, v)`.
unfoldable pub append_values : Text → List Text → Params → Params
append_values key [] ps = ps
append_values key (v ∷ vs) ps = append_values key vs (ps ++ (key, v) ∷ [])

-- The outer loop over the entries of one facet. To iterate over undefined throws.
unfoldable pub append_entries : Text → FacetMap → Params → Result Params
append_entries prefix [] ps = ok ps
append_entries prefix ((k, none) ∷ m) ps = type_error
append_entries prefix ((k, some vs) ∷ m) ps =
    append_entries prefix m (append_values (prefix ++ k) vs ps)

unfoldable pub set_if : Bool → Text → Text → Params → Params
set_if true k v ps = set_param k v ps
set_if false k v ps = ps

abbrev pub is_filled : List Text → Bool
is_filled [] = false
is_filled (v ∷ vs) = true

unfoldable pub filter_state_to_query : FilterState → Result Params
filter_state_to_query fs = do
  ps ← append_entries (lit "label_") fs.labels []
  qs ← append_entries (lit "xLabel_") fs.exclude_labels ps
  rs ← append_entries (lit "field_") fs.fields qs
  ss ← append_entries (lit "xField_") fs.exclude_fields rs
  let ts = set_if (is_filled fs.levels) (lit "levels") (join comma fs.levels) ss
  let us = set_if (is_truthy fs.search) (lit "search") fs.search ts
  ok (set_if (is_truthy fs.logql) (lit "logql") fs.logql us)

-- `m[name] || []`.
abbrev pub values : Text → FacetMap → List Text
values name m = elim (get name m) [ some (some vs) ↦ vs | _ ↦ [] ]

-- `m[name] = m[name] || []; m[name].push(val)`.
unfoldable pub push_value : Text → Text → FacetMap → FacetMap
push_value name val m = put name (some (values name m ++ val ∷ [])) m

abbrev on_some {ℓ κ} : {A : Type ℓ} {B : Type κ} → Option A → (A → B) → B → B
on_some none f d = d
on_some (some a) f d = f a

-- One round of the loop over the parameters.
unfoldable pub read_param : FilterState → Text → Text → FilterState
read_param fs key val =
    on_some (strip (lit "label_") key)
      (λ name. record fs { labels = push_value name val fs.labels })
      (on_some (strip (lit "xLabel_") key)
        (λ name. record fs { exclude_labels = push_value name val fs.exclude_labels })
        (on_some (strip (lit "field_") key)
          (λ name. record fs { fields = push_value name val fs.fields })
          (on_some (strip (lit "xField_") key)
            (λ name. record fs { exclude_fields = push_value name val fs.exclude_fields })
            (if key == lit "levels"
              then record fs { levels = keep is_truthy (split comma val) }
              else if key == lit "search"
              then record fs { search = val }
              else if key == lit "logql"
              then record fs { logql = val }
              else fs))))

unfoldable pub read_params : FilterState → Params → FilterState
read_params fs [] = fs
read_params fs ((key, val) ∷ ps) = read_params (read_param fs key val) ps

unfoldable pub parse_filter_state : Params → FilterState
parse_filter_state ps = read_params empty_filter_state ps
