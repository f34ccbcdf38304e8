-- ===== src/Trace/Services/Reached.antt =====
-- The depths that the search finds are lengths of chains of calls from a root
-- (frontend/src/pages/log/ServiceGraph.tsx).
use mrboard.Shared.{
  ◌≡◌, subst, ℕ, zero, suc, ◌+◌, true, some, List, [], ◌∷◌, arith, ◌==◌, Text, text_eq,
  text_beq_iff, is_some, Bool-cases, inl, inr, All, All-append,
}
use mrboard.Shared.Assoc.{get, put, get-put}
use mrboard.Shared.Members.{includes}
use mrboard.Trace.Services.{
  Dependency, Depths, adj_of, push_children, visit, search_depths, start_queue, root_names,
}
use mrboard.Trace.Services.Search.{callees}

-- A service is reached by k calls from a root.
pub data Chain (deps : List Dependency) : Text → ℕ → Type 0 where
  start : {s : Text} → includes (root_names deps) s ≡ true → Chain deps s 0
  call :
      {c : Text} {k : ℕ} (p : Text)
      → Chain deps p k
      → includes (callees deps p) c ≡ true
      → Chain deps c (k + 1)

abbrev IsChained : List Dependency → Depths → Type 0
IsChained deps queue = All (λ e. Chain deps e.0 e.1) queue

abbrev Chained : List Dependency → Depths → Type 0
Chained deps m = (s : Text) (k : ℕ) → get s m ≡ some k → Chain deps s k

push_children-IsChained :
    (deps : List Dependency) (m : Depths) (depth : ℕ) (cs : List Text) (queue : Depths)
    → ((c : Text) → includes cs c ≡ true → Chain deps c (depth + 1))
    → IsChained deps queue
    → IsChained deps (push_children m depth cs queue)
unfolding push_children includes
push_children-IsChained deps m depth [] queue h hq = hq
push_children-IsChained deps m depth (c ∷ cs) queue h hq =
    push_children-IsChained deps m depth cs _ (λ a i. h a (ground arith))
      (elim (Bool-cases (is_some (get c m))) [
        | inl old ↦ rw old hq
        | inr new ↦ rw new (All-append _ queue _ hq (h c (ground (arith, text_beq_iff c c)), tt))
      ])

put-Chained :
    (deps : List Dependency) (m : Depths) (name : Text) (depth : ℕ)
    → Chain deps name depth
    → Chained deps m
    → Chained deps (put name depth m)
put-Chained deps m name depth h hm s k e = elim (Bool-cases (name == s)) [
  | inl same ↦
      subst (λ t. Chain deps t k) ((text_beq_iff name s).0 same)
        (subst (λ j. Chain deps name j) (ground (arith, get-put name s depth m)) h)
  | inr other ↦ hm s k (ground (arith, get-put name s depth m))
]

pub search_depths-Chained :
    (deps : List Dependency) (adj : List (Text × List Text)) (fuel : ℕ) (queue m found : Depths)
    → ((name : Text) → adj_of name adj ≡ callees deps name)
    → IsChained deps queue
    → Chained deps m
    → search_depths adj fuel queue m ≡ some found
    → Chained deps found
unfolding search_depths visit
search_depths-Chained deps adj fuel [] m found e hq hm h = subst (Chained deps) (ground arith) hm
search_depths-Chained deps adj zero (q ∷ queue) m found e hq hm h = cc
search_depths-Chained deps adj (suc fuel) ((name, depth) ∷ queue) m found e (hn, hq) hm h =
    elim (Bool-cases (is_some (get name m))) [
      | inl old ↦ search_depths-Chained deps adj fuel queue m found e hq hm (ground arith)
      | inr new ↦
          search_depths-Chained deps adj fuel
            (push_children (put name depth m) depth (adj_of name adj) queue) (put name depth m)
            found e
            (push_children-IsChained deps (put name depth m) depth (adj_of name adj) queue
              (λ c i. call name hn (ground (arith, e name))) hq)
            (put-Chained deps m name depth hn hm) (ground arith)
    ]

pub start_queue-IsChained :
    (deps : List Dependency) (roots : List Text)
    → ((s : Text) → includes roots s ≡ true → includes (root_names deps) s ≡ true)
    → IsChained deps (start_queue roots)
unfolding start_queue includes
start_queue-IsChained deps [] h = tt
start_queue-IsChained deps (r ∷ roots) h = (
  start (h r (ground (arith, text_beq_iff r r))),
  start_queue-IsChained deps roots (λ s i. h s (ground arith)),
)
