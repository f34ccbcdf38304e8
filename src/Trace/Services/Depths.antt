-- ===== src/Trace/Services/Depths.antt =====
-- The search for the depths finds least distances (frontend/src/pages/log/ServiceGraph.tsx).
use mrboard.Shared.{
  ◌≡◌, ◌↔◌, refl, subst, ℕ, zero, suc, ◌+◌, ◌≤◌, true, some, List, [], ◌∷◌, arith, Text, text_eq,
  is_some, Bool-cases, Option-cases, inl, inr,
}
use mrboard.Shared.Assoc.{get, put}
use mrboard.Shared.Members.{includes}
use mrboard.Trace.Services.{
  Dependency, Depths, add_edges, push_children, visit, search_depths, start_queue, root_names,
  reached_depths, rounds,
}
use mrboard.Trace.Services.Search.{
  callees, adj_of-add_edges, search_depths_total, length-start_queue, open_calls-nil,
}
use mrboard.Trace.Services.Reached.{
  Chain, start, call, search_depths-Chained, start_queue-IsChained,
}
use mrboard.Trace.Services.Least.{
  waits, placed, band, covered, Closed, IsLow, band-head, covered-visit_old, covered-visit_new,
  IsLow-put, Closed-put, band-push_children,
}

Closed-visit_old :
    (deps : List Dependency) (j : ℕ) (s : Text) (queue m : Depths)
    → is_some (get s m) ≡ true
    → IsLow j m
    → Closed deps ((s, j) ∷ queue) m
    → Closed deps queue m
Closed-visit_old deps j s queue m old low closed p d c e i =
    covered-visit_old c (d + 1) j s queue m old low (closed p d c e i)

IsLow-up : (k j : ℕ) (m : Depths) → k ≤ j → IsLow k m → IsLow j m
IsLow-up k j m h low s d e = ground (arith, low s d e)

-- What the search has found is closed, and covers what was covered before.
search_depths-Closed :
    (deps : List Dependency) (fuel k : ℕ) (queue m found : Depths)
    → band k queue ≡ true
    → IsLow k m
    → Closed deps queue m
    → search_depths (add_edges deps []) fuel queue m ≡ some found
    → Closed deps [] found
      × ((c : Text) (b : ℕ) → covered c b queue m ≡ true → covered c b [] found ≡ true)
unfolding search_depths visit
search_depths-Closed deps fuel k [] m found hb low closed h = (
  subst (Closed deps []) (ground (arith, h)) closed,
  λ c b i. subst (λ f. covered c b [] f ≡ true) (ground (arith, h)) i,
)
search_depths-Closed deps zero k (q ∷ queue) m found hb low closed h = cc
search_depths-Closed deps (suc fuel) k ((s, j) ∷ queue) m found hb low closed h =
    let (kj, hq) = band-head k j s queue hb in
    let low' = IsLow-up k j m kj low in
    elim (Bool-cases (is_some (get s m))) [
      | inl old ↦
          let rest =
            search_depths-Closed deps fuel j queue m found hq low'
              (Closed-visit_old deps j s queue m old low' closed) (ground arith) in
          (rest.0, λ c b i. rest.1 c b (covered-visit_old c b j s queue m old low' i))
      | inr new ↦
          let rest =
            search_depths-Closed deps fuel j (push_children (put s j m) j (callees deps s) queue)
              (put s j m) found (band-push_children (put s j m) j (callees deps s) queue hq)
              (IsLow-put s j k m kj low) (Closed-put deps s j queue m new low' closed)
              (ground (arith, adj_of-add_edges deps s)) in
          (rest.0, λ c b i. rest.1 c b (covered-visit_new c b j s (callees deps s) queue m new i))
    ]

band-start_queue : (roots : List Text) → band 0 (start_queue roots) ≡ true
unfolding start_queue
band-start_queue [] = refl
band-start_queue (r ∷ roots) = ground (arith, band-start_queue roots)

waits-start_queue :
    (s : Text) (roots : List Text) → includes roots s ≡ true → waits s 0 (start_queue roots) ≡ true
unfolding start_queue includes
waits-start_queue s [] h = cc
waits-start_queue s (r ∷ roots) h = ground (arith, waits-start_queue s roots)

placed-Chain :
    (deps : List Dependency) (found : Depths) (s : Text) (j : ℕ)
    → Closed deps [] found
    → ((r : Text) → includes (root_names deps) r ≡ true → placed r 0 found ≡ true)
    → Chain deps s j
    → placed s j found ≡ true
placed-Chain deps found s j closed roots (start h) = roots s h
placed-Chain deps found s j closed roots (call {k = k} p ch i) =
    let above = placed-Chain deps found p k closed roots ch in
    elim (Option-cases (get p found)) [
      | inl e ↦ ground (arith, above)
      | inr (d, e) ↦ ground (arith, above, closed p d s e i)
    ]

-- Every chain of calls from a root leads to a service that has been found at most that deep.
found_placed :
    (deps : List Dependency) (found : Depths) (s : Text) (j : ℕ)
    → reached_depths deps ≡ some found
    → Chain deps s j
    → placed s j found ≡ true
unfolding reached_depths get
found_placed deps found s j h ch =
    let (closed, kept) =
      search_depths-Closed deps (rounds deps) 0 (start_queue (root_names deps)) [] found
        (band-start_queue (root_names deps)) (λ t d e. cc) (λ p d c e i. cc) h in
    placed-Chain deps found s j closed
      (λ r i. ground (arith, kept r 0 (ground (arith, waits-start_queue r (root_names deps) i)))) ch

pub found-Chain :
    (deps : List Dependency) (found : Depths) (s : Text) (k : ℕ)
    → reached_depths deps ≡ some found
    → get s found ≡ some k
    → Chain deps s k
unfolding reached_depths get
found-Chain deps found s k h =
    search_depths-Chained deps (add_edges deps []) (rounds deps) (start_queue (root_names deps)) []
      found (adj_of-add_edges deps) (start_queue-IsChained deps (root_names deps) (λ t i. i))
      (λ t d e. cc) h s k

-- The shortest chain of calls from a root to the service has length k.
abbrev pub IsLeast : List Dependency → Text → ℕ → Type 0
IsLeast deps s k = Chain deps s k × ((j : ℕ) → Chain deps s j → k ≤ j)

least_placed :
    (deps : List Dependency) (found : Depths) (s : Text) (k : ℕ)
    → reached_depths deps ≡ some found
    → IsLeast deps s k
    → get s found ≡ some k
least_placed deps found s k h (ch, least) =
    let near = found_placed deps found s k h ch in
    elim (Option-cases (get s found)) [
      | inl e ↦ ground (arith, near)
      | inr (d, e) ↦ ground (arith, near, least d (found-Chain deps found s d h e))
    ]

-- For any dependencies, cycles included, the search of the service graph ends within one round for
-- each root and each dependency, and it gives a service depth k exactly if the shortest chain of
-- calls that leads from a root to it has length k.
pub reached_depths_lem :
    (deps : List Dependency)
    → (found : Depths) × (reached_depths deps ≡ some found)
      × ((s : Text) (k : ℕ) → (get s found ≡ some k) ↔ IsLeast deps s k)
unfolding reached_depths start_queue
reached_depths_lem deps =
    let (found, e) =
      search_depths_total deps (add_edges deps []) (rounds deps) (start_queue (root_names deps)) []
        (adj_of-add_edges deps)
        (ground (arith, length-start_queue (root_names deps), open_calls-nil deps)) in
    (
      found,
      e,
      λ s k. (
        λ g. (
          found-Chain deps found s k e g,
          λ j ch. ground (arith, found_placed deps found s j e ch),
        ),
        λ l. least_placed deps found s k e l,
      ),
    )
