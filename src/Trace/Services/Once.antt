-- ===== src/Trace/Services/Once.antt =====
-- Each service is drawn once (frontend/src/pages/log/ServiceGraph.tsx).
use mrboard.Shared.{
  ◌≡◌, refl, ap, subst, ℕ, zero, suc, ◌+◌, ◌*◌, ◌++◌, Bool, true, false, ◌||◌, some, List, [], ◌∷◌,
  arith, ◌==◌, Text, text_eq, text_beq_iff, nat_eq, is_some, Bool-cases, inl, inr, length,
}
use mrboard.Shared.Assoc.{get, put, get-put}
use mrboard.Shared.Members.{includes}
use mrboard.Trace.Services.{Metrics, Depths, visit, search_depths, add_orphans}
use mrboard.Trace.Services.Layout.{
  Groups, group_of, group_by_depth, FlowNode, place_names, place_groups, start_y,
}

abbrev pub one_if : Bool → ℕ
one_if true = 1
one_if false = 0

-- How often a service is drawn.
abbrev pub times_drawn : Text → List FlowNode → ℕ
times_drawn s [] = 0
times_drawn s (n ∷ nodes) = one_if (n.id == s) + times_drawn s nodes

abbrev times_in : Text → List Text → ℕ
times_in s [] = 0
times_in s (name ∷ names) = one_if (name == s) + times_in s names

abbrev times_grouped : Text → Groups → ℕ
times_grouped s [] = 0
times_grouped s ((depth, names) ∷ groups) = times_in s names + times_grouped s groups

abbrev times_mapped : Text → Depths → ℕ
times_mapped s [] = 0
times_mapped s ((name, depth) ∷ m) = one_if (name == s) + times_mapped s m

times_drawn-append :
    (s : Text) (xs ys : List FlowNode)
    → times_drawn s (xs ++ ys) ≡ times_drawn s xs + times_drawn s ys
times_drawn-append s [] ys = omega arith
times_drawn-append s (x ∷ xs) ys = ground (arith, times_drawn-append s xs ys)

times_in-append_one :
    (s a : Text) (xs : List Text) → times_in s (xs ++ a ∷ []) ≡ times_in s xs + one_if (a == s)
times_in-append_one s a [] = omega arith
times_in-append_one s a (x ∷ xs) = ground (arith, times_in-append_one s a xs)

times_drawn-place_names :
    (s : Text) (metrics : List (Text × Metrics)) (x y i : ℕ) (names : List Text)
    → times_drawn s (place_names metrics x y i names) ≡ times_in s names
unfolding place_names
times_drawn-place_names s metrics x y i [] = refl
times_drawn-place_names s metrics x y i (a ∷ names) =
    ap (λ n. one_if (a == s) + n) (times_drawn-place_names s metrics x y (i + 1) names)

pub times_drawn-place_groups :
    (s : Text) (metrics : List (Text × Metrics)) (groups : Groups)
    → times_drawn s (place_groups metrics groups) ≡ times_grouped s groups
unfolding place_groups
times_drawn-place_groups s metrics [] = refl
times_drawn-place_groups s metrics ((depth, names) ∷ groups) =
    let here = place_names metrics (80 + depth * 260) (start_y (length names)) 0 names in
    ground (
      arith,
      times_drawn-append s here (place_groups metrics groups),
      times_drawn-place_names s metrics (80 + depth * 260) (start_y (length names)) 0 names,
      times_drawn-place_groups s metrics groups,
    )

times_grouped-put :
    (s : Text) (k : ℕ) (names : List Text) (groups : Groups)
    → times_grouped s (put k names groups) + times_in s (group_of k groups)
      ≡ times_grouped s groups + times_in s names
unfolding put get
times_grouped-put s k names [] = omega arith
times_grouped-put s k names ((j, here) ∷ groups) =
    ground (arith, times_grouped-put s k names groups)

pub times_grouped-group_by_depth :
    (s : Text) (m : Depths) (groups : Groups)
    → times_grouped s (group_by_depth m groups) ≡ times_mapped s m + times_grouped s groups
unfolding group_by_depth
times_grouped-group_by_depth s [] groups = omega arith
times_grouped-group_by_depth s ((name, depth) ∷ m) groups =
    let names = group_of depth groups ++ name ∷ [] in
    ground (
      arith,
      times_grouped-group_by_depth s m (put depth names groups),
      times_grouped-put s depth names groups,
      times_in-append_one s name (group_of depth groups),
    )

-- A map has a key once or not at all.
abbrev pub IsMap : Depths → Type 0
IsMap m = (s : Text) → times_mapped s m ≡ one_if (is_some (get s m))

times_mapped-put :
    (s a : Text) (k : ℕ) (m : Depths)
    → is_some (get a m) ≡ false
    → times_mapped s (put a k m) ≡ times_mapped s m + one_if (a == s)
unfolding put get
times_mapped-put s a k [] h = omega arith
times_mapped-put s a k ((b, j) ∷ m) h = ground (arith, times_mapped-put s a k m)

put-IsMap :
    (a : Text) (k : ℕ) (m : Depths) → is_some (get a m) ≡ false → IsMap m → IsMap (put a k m)
put-IsMap a k m h hm s =
    ground (arith, times_mapped-put s a k m h, hm s, get-put a s k m, text_beq_iff a s)

pub search_depths-IsMap :
    (adj : List (Text × List Text)) (fuel : ℕ) (queue m found : Depths)
    → IsMap m
    → search_depths adj fuel queue m ≡ some found
    → IsMap found
unfolding search_depths visit
search_depths-IsMap adj fuel [] m found hm h = subst IsMap (ground (arith, h)) hm
search_depths-IsMap adj zero (q ∷ queue) m found hm h = cc
search_depths-IsMap adj (suc fuel) ((s, j) ∷ queue) m found hm h =
    elim (Bool-cases (is_some (get s m))) [
      | inl old ↦ search_depths-IsMap adj fuel queue m found hm (ground arith)
      | inr new ↦
          search_depths-IsMap adj fuel (visit adj s j queue m).0 (put s j m) found
            (put-IsMap s j m new hm) (ground arith)
    ]

pub add_orphans-IsMap : (names : List Text) (m : Depths) → IsMap m → IsMap (add_orphans names m)
unfolding add_orphans
add_orphans-IsMap [] m hm = hm
add_orphans-IsMap (s ∷ names) m hm = elim (Bool-cases (is_some (get s m))) [
  | inl old ↦ rw old (add_orphans-IsMap names m hm)
  | inr new ↦ rw new (add_orphans-IsMap names (put s 1 m) (put-IsMap s 1 m new hm))
]

pub has-add_orphans :
    (names : List Text) (m : Depths) (s : Text)
    → is_some (get s (add_orphans names m)) ≡ (is_some (get s m) || includes names s)
unfolding add_orphans includes
has-add_orphans [] m s = ground arith
has-add_orphans (a ∷ names) m s = ground (
  arith,
  has-add_orphans names m s,
  has-add_orphans names (put a 1 m) s,
  get-put a s 1 m,
  text_beq_iff a s,
)
