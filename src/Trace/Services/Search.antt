-- ===== src/Trace/Services/Search.antt =====
-- The search for the depths ends (frontend/src/pages/log/ServiceGraph.tsx).
use mrboard.Shared.{
  ◌≡◌, refl, ap, ℕ, zero, suc, ◌+◌, ◌≤◌, ◌++◌, false, some, List, [], ◌∷◌, arith, if◌then◌else◌,
  ◌==◌, Text, text_eq, text_beq_iff, is_some, length, length-append, append_assoc, append-nil,
}
use mrboard.Shared.Assoc.{get, put, get-put}
use mrboard.Trace.Services.{
  Dependency, Depths, adj_of, add_edges, push_children, visit, search_depths, start_queue,
}

-- The children that the dependencies give a service, in their order.
abbrev pub callees : List Dependency → Text → List Text
callees [] name = []
callees (d ∷ deps) name =
    if d.parent == name then d.child ∷ callees deps name else callees deps name

adj_of-add_edges_from :
    (deps : List Dependency) (adj : List (Text × List Text)) (name : Text)
    → adj_of name (add_edges deps adj) ≡ adj_of name adj ++ callees deps name
unfolding add_edges
adj_of-add_edges_from [] adj name = ground (arith, append-nil (adj_of name adj))
adj_of-add_edges_from (d ∷ deps) adj name =
    let cs = adj_of d.parent adj in
    ground (
      arith,
      adj_of-add_edges_from deps (put d.parent (cs ++ d.child ∷ []) adj) name,
      get-put d.parent name (cs ++ d.child ∷ []) adj,
      text_beq_iff d.parent name,
      append_assoc (adj_of name adj) (d.child ∷ []) (callees deps name),
    )

pub adj_of-add_edges :
    (deps : List Dependency) (name : Text) → adj_of name (add_edges deps []) ≡ callees deps name
unfolding get
adj_of-add_edges deps name = adj_of-add_edges_from deps [] name

-- How many dependencies have a parent without depth.
abbrev open_calls : List Dependency → Depths → ℕ
open_calls [] m = 0
open_calls (d ∷ deps) m =
    if is_some (get d.parent m) then open_calls deps m else suc (open_calls deps m)

open_calls-put :
    (deps : List Dependency) (name : Text) (depth : ℕ) (m : Depths)
    → is_some (get name m) ≡ false
    → open_calls deps (put name depth m) + length (callees deps name) ≡ open_calls deps m
open_calls-put [] name depth m h = refl
open_calls-put (d ∷ deps) name depth m h = ground (
  arith,
  open_calls-put deps name depth m h,
  get-put name d.parent depth m,
  text_beq_iff name d.parent,
  text_beq_iff d.parent name,
)

length-push_children :
    (m : Depths) (depth : ℕ) (cs : List Text) (queue : Depths)
    → length (push_children m depth cs queue) ≤ length queue + length cs
unfolding push_children
length-push_children m depth [] queue = omega arith
length-push_children m depth (c ∷ cs) queue = ground (
  arith,
  length-push_children m depth cs queue,
  length-push_children m depth cs (queue ++ (c, depth + 1) ∷ []),
  length-append queue ((c, depth + 1) ∷ []),
)

no_rounds : (m n : ℕ) → suc m + n ≤ 0 → ⊥
no_rounds m n h = omega arith

-- With a round for each entry of the queue and each dependency whose parent has no depth, the
-- search ends.
pub search_depths_total :
    (deps : List Dependency) (adj : List (Text × List Text)) (fuel : ℕ) (queue m : Depths)
    → ((name : Text) → adj_of name adj ≡ callees deps name)
    → length queue + open_calls deps m ≤ fuel
    → (found : Depths) × (search_depths adj fuel queue m ≡ some found)
unfolding search_depths visit
search_depths_total deps adj fuel [] m e h = (m, refl)
search_depths_total deps adj zero (q ∷ queue) m e h =
    elim (no_rounds (length queue) (open_calls deps m) h) [ ]
search_depths_total deps adj (suc fuel) ((name, depth) ∷ queue) m e h =
    let next = visit adj name depth queue m in
    search_depths_total deps adj fuel next.0 next.1 e (
      ground (
        arith,
        e name,
        open_calls-put deps name depth m,
        length-push_children (put name depth m) depth (adj_of name adj) queue,
      ))

pub open_calls-nil : (deps : List Dependency) → open_calls deps [] ≡ length deps
unfolding get
open_calls-nil [] = refl
open_calls-nil (d ∷ deps) = ap suc (open_calls-nil deps)

pub length-start_queue : (roots : List Text) → length (start_queue roots) ≡ length roots
unfolding start_queue
length-start_queue [] = refl
length-start_queue (r ∷ roots) = ap suc (length-start_queue roots)
