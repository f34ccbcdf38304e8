-- ===== src/Trace/Services/Least.antt =====
-- No chain of calls from a root is shorter than the depth that the search finds
-- (frontend/src/pages/log/ServiceGraph.tsx).
use mrboard.Shared.{
  ◌≡◌, refl, ℕ, ◌+◌, ◌≤◌, ◌++◌, Bool, true, false, ◌||◌, ◌&&◌, none, some, List, [], ◌∷◌, leb,
  nat_beq, arith, if◌then◌else◌, ◌==◌, Text, text_eq, text_beq_iff, is_some, Bool-cases,
  Option-cases, inl, inr,
}
use mrboard.Shared.Assoc.{get, put, get-put}
use mrboard.Shared.Members.{includes}
use mrboard.Trace.Services.{Dependency, Depths, push_children}
use mrboard.Trace.Services.Search.{callees}

-- The service waits in the queue at a depth of at most k, or has such a depth.
abbrev pub waits : Text → ℕ → Depths → Bool
waits c k [] = false
waits c k ((s, j) ∷ queue) = (s == c && leb j k) || waits c k queue

abbrev pub placed : Text → ℕ → Depths → Bool
placed c k m = elim (get c m) [ some j ↦ leb j k | none ↦ false ]

-- All entries of the queue are at depth k.
abbrev all_at : ℕ → Depths → Bool
all_at k [] = true
all_at k ((s, j) ∷ queue) = nat_beq j k && all_at k queue

-- The entries of the queue are at depth k, then at k + 1.
abbrev pub band : ℕ → Depths → Bool
band k [] = true
band k ((s, j) ∷ queue) =
    (nat_beq j k && band k queue) || (nat_beq j (k + 1) && all_at (k + 1) queue)

waits-append :
    (c : Text) (k : ℕ) (xs ys : Depths) → waits c k (xs ++ ys) ≡ (waits c k xs || waits c k ys)
waits-append c k [] ys = refl
waits-append c k ((s, j) ∷ xs) ys = ground (arith, waits-append c k xs ys)

all_at-append : (k : ℕ) (xs ys : Depths) → all_at k (xs ++ ys) ≡ (all_at k xs && all_at k ys)
all_at-append k [] ys = refl
all_at-append k ((s, j) ∷ xs) ys = ground (arith, all_at-append k xs ys)

band-append :
    (k : ℕ) (xs ys : Depths)
    → band k xs ≡ true
    → all_at (k + 1) ys ≡ true
    → band k (xs ++ ys) ≡ true
band-append k [] [] h i = refl
band-append k [] ((s, j) ∷ ys) h i = ground arith
band-append k ((s, j) ∷ xs) ys h i =
    ground (arith, band-append k xs ys, all_at-append (k + 1) xs ys)

band-all_at : (k : ℕ) (queue : Depths) → all_at k queue ≡ true → band k queue ≡ true
band-all_at k [] h = refl
band-all_at k ((s, j) ∷ queue) h = ground (arith, band-all_at k queue)

pub band-push_children :
    (m : Depths) (k : ℕ) (cs : List Text) (queue : Depths)
    → band k queue ≡ true
    → band k (push_children m k cs queue) ≡ true
unfolding push_children
band-push_children m k [] queue h = h
band-push_children m k (c ∷ cs) queue h = ground (
  arith,
  band-push_children m k cs queue,
  band-push_children m k cs (queue ++ (c, k + 1) ∷ []),
  band-append k queue ((c, k + 1) ∷ []),
)

-- Pushing loses no entry, and each child gets a place or an entry.
waits-push_children :
    (m : Depths) (depth : ℕ) (cs : List Text) (queue : Depths) (c : Text) (k : ℕ)
    → waits c k queue ≡ true
    → waits c k (push_children m depth cs queue) ≡ true
unfolding push_children
waits-push_children m depth [] queue c k h = h
waits-push_children m depth (a ∷ cs) queue c k h = ground (
  arith,
  waits-push_children m depth cs queue c k,
  waits-push_children m depth cs (queue ++ (a, depth + 1) ∷ []) c k,
  waits-append c k queue ((a, depth + 1) ∷ []),
)

child_waits :
    (m : Depths) (depth : ℕ) (cs : List Text) (queue : Depths) (c : Text)
    → includes cs c ≡ true
    → (is_some (get c m) || waits c (depth + 1) (push_children m depth cs queue)) ≡ true
unfolding push_children includes
child_waits m depth [] queue c h = cc
child_waits m depth (a ∷ cs) queue c h =
    let q = if is_some (get a m) then queue else queue ++ (a, depth + 1) ∷ [] in
    ground (
      arith,
      child_waits m depth cs q c,
      waits-push_children m depth cs (queue ++ (a, depth + 1) ∷ []) c (depth + 1),
      waits-append c (depth + 1) queue ((a, depth + 1) ∷ []),
      text_beq_iff a c,
    )

-- The state of the search: every child of a service that has depth d has a depth of at most d + 1 or
-- waits at one; the queue is a band from k on, and no depth exceeds k.
abbrev pub covered : Text → ℕ → Depths → Depths → Bool
covered c k queue m = placed c k m || waits c k queue

abbrev pub Closed : List Dependency → Depths → Depths → Type 0
Closed deps queue m =
    (p : Text) (d : ℕ) (c : Text)
    → get p m ≡ some d
    → includes (callees deps p) c ≡ true
    → covered c (d + 1) queue m ≡ true

abbrev pub IsLow : ℕ → Depths → Type 0
IsLow k m = (s : Text) (d : ℕ) → get s m ≡ some d → d ≤ k

-- Where the head of the queue is at depth j, the band is one from j on.
pub band-head :
    (k j : ℕ) (s : Text) (queue : Depths)
    → band k ((s, j) ∷ queue) ≡ true
    → (k ≤ j) × (band j queue ≡ true)
band-head k j s queue h = ground (arith, band-all_at (k + 1) queue)

-- A service that waits still waits, or has got a depth, after a round of the loop.
pub covered-visit_old :
    (c : Text) (k j : ℕ) (s : Text) (queue m : Depths)
    → is_some (get s m) ≡ true
    → IsLow j m
    → covered c k ((s, j) ∷ queue) m ≡ true
    → covered c k queue m ≡ true
covered-visit_old c k j s queue m h low i = elim (Option-cases (get s m)) [
  | inl e ↦ cc
  | inr (d, e) ↦ ground (arith, text_beq_iff s c, low s d e)
]

pub covered-visit_new :
    (c : Text) (k j : ℕ) (s : Text) (cs : List Text) (queue m : Depths)
    → is_some (get s m) ≡ false
    → covered c k ((s, j) ∷ queue) m ≡ true
    → covered c k (push_children (put s j m) j cs queue) (put s j m) ≡ true
covered-visit_new c k j s cs queue m h i =
    ground
      (arith, text_beq_iff s c, get-put s c j m, waits-push_children (put s j m) j cs queue c k)

pub IsLow-put : (s : Text) (j k : ℕ) (m : Depths) → k ≤ j → IsLow k m → IsLow j (put s j m)
IsLow-put s j k m h low t d e = elim (Bool-cases (s == t)) [
  | inl same ↦ ground (arith, get-put s t j m)
  | inr other ↦ ground (arith, get-put s t j m, low t d (ground (arith, get-put s t j m)))
]

pub Closed-put :
    (deps : List Dependency) (s : Text) (j : ℕ) (queue m : Depths)
    → is_some (get s m) ≡ false
    → IsLow j m
    → Closed deps ((s, j) ∷ queue) m
    → Closed deps (push_children (put s j m) j (callees deps s) queue) (put s j m)
Closed-put deps s j queue m h low closed p d c e i = elim (Bool-cases (s == p)) [
  | inl same ↦
      let pushed = push_children (put s j m) j (callees deps s) queue in
      elim (Option-cases (get c m)) [
        | inl new ↦ ground (
          arith,
          get-put s p j m,
          get-put s c j m,
          text_beq_iff s p,
          child_waits (put s j m) j (callees deps s) queue c,
        )
        | inr (b, old) ↦
            ground (arith, get-put s p j m, get-put s c j m, text_beq_iff s p, low c b old)
      ]
  | inr other ↦
      covered-visit_new c (d + 1) j s (callees deps s) queue m h
        (closed p d c (ground (arith, get-put s p j m)) i)
]
