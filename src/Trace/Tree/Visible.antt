-- ===== src/Trace/Tree/Visible.antt =====
-- Which rows `flattenVisible` shows (frontend/src/pages/log/TraceDetail.tsx).
use mrboard.Shared.{
  ◌≡◌, ◌≢◌, ◌∙◌, ap, sym, ℕ, zero, suc, ◌++◌, true, ◌||◌, some, List, [], ◌∷◌, arith, if◌then◌else◌,
  ◌==◌, Text, text_eq, text_beq_iff, Bool-cases, Option-cases, inl, inr, ◌⊎◌,
}
use mrboard.Shared.Members.{includes, includes-append}
use mrboard.Trace.Span.{Span}
use mrboard.Trace.Tree.{Store, Forest, children_of, walk, build_span_tree}
use mrboard.Trace.Tree.Parents.{is_child, is_root, build_span_tree_lem}

-- Reached from a list of nodes through nodes that are expanded.
pub data Under (m : Store) (expanded : List Text) : List Text → Text → Type 0 where
  at : {ids : List Text} {c : Text} → includes ids c ≡ true → Under m expanded ids c
  below :
      {ids : List Text} {c : Text} (p : Text)
      → includes ids p ≡ true
      → includes expanded p ≡ true
      → Under m expanded (children_of p m) c
      → Under m expanded ids c

module _ (m : Store) (expanded : List Text) where
  widen :
      (id : Text) {ids : List Text} {c : Text}
      → Under m expanded ids c
      → Under m expanded (id ∷ ids) c
  unfolding includes
  widen id (at h) = at (ground arith)
  widen id (below p h e u) = below p (ground arith) e u

  -- The parts of a successful round of the walk.
  walk-cons :
      (fuel : ℕ) (id : Text) (ids r : List Text)
      → walk m expanded (suc fuel) (id ∷ ids) ≡ some r
      → (inner : List Text) × (rest : List Text) × ((if includes expanded id
            then walk m expanded fuel (children_of id m)
            else some [])
          ≡ some inner)
        × (walk m expanded (suc fuel) ids ≡ some rest)
        × (r ≡ (id ∷ []) ++ (inner ++ rest))
  unfolding walk
  walk-cons fuel id ids r h =
      elim (Option-cases
        (if includes expanded id then walk m expanded fuel (children_of id m) else some [])) [
          | inl stuck ↦ ground arith
          | inr (inner, e) ↦ elim (Option-cases (walk m expanded (suc fuel) ids)) [
            | inl stuck ↦ ground arith
            | inr (rest, e') ↦ (inner, rest, e, e', ground arith)
          ]
        ]

  Under-cases :
      {ids : List Text} {c : Text}
      → Under m expanded ids c
      → (includes ids c ≡ true)
        ⊎ ((p : Text) × (includes ids p ≡ true)
            × (includes expanded p ≡ true)
            × Under m expanded (children_of p m) c)
  Under-cases (at h) = inl h
  Under-cases (below p h e u) = inr (p, h, e, u)

  includes-row :
      (id c : Text) (inner rest : List Text)
      → includes ((id ∷ []) ++ (inner ++ rest)) c
        ≡ (id == c || (includes inner c || includes rest c))
  unfolding includes
  includes-row id c inner rest = ground (arith, includes-append inner rest c)

  includes_head : (id : Text) (ids : List Text) → includes (id ∷ ids) id ≡ true
  unfolding includes
  includes_head id ids = ground (arith, text_beq_iff id id)

  walk-nil : (fuel : ℕ) (r : List Text) → walk m expanded fuel [] ≡ some r → r ≡ []
  unfolding walk
  walk-nil zero r h = ground arith
  walk-nil (suc fuel) r h = ground arith

  walk-zero : (id : Text) (ids r : List Text) → walk m expanded zero (id ∷ ids) ≢ some r
  unfolding walk
  walk-zero id ids r h = cc

  -- A row of a round is the node itself, one of its rows if it is expanded, or a later row.
  walk-row :
      (fuel : ℕ) (id c : Text) (ids r : List Text)
      → walk m expanded (suc fuel) (id ∷ ids) ≡ some r
      → (inner : List Text) × (rest : List Text) × ((if includes expanded id
            then walk m expanded fuel (children_of id m)
            else some [])
          ≡ some inner)
        × (walk m expanded (suc fuel) ids ≡ some rest)
        × (includes r c ≡ (id == c || (includes inner c || includes rest c)))
  walk-row fuel id c ids r h =
      let (inner, rest, e, e', same) = walk-cons fuel id ids r h in
      (inner, rest, e, e', ap (λ rs. includes rs c) same ∙ includes-row id c inner rest)

  pub walk_sound :
      (fuel : ℕ) (ids r : List Text) (c : Text)
      → walk m expanded fuel ids ≡ some r
      → includes r c ≡ true
      → Under m expanded ids c
  unfolding includes
  walk_sound fuel [] r c h k = absurd (ground (arith, walk-nil fuel r h))
  walk_sound zero (id ∷ ids) r c h k = absurd (walk-zero id ids r h)
  walk_sound (suc fuel) (id ∷ ids) r c h k =
      let (inner, rest, e, e', row) = walk-row fuel id c ids r h in
      elim (Bool-cases (id == c)) [
        | inl here ↦ at (ground arith)
        | inr away ↦ elim (Bool-cases (includes rest c)) [
          | inl later ↦ widen id (walk_sound (suc fuel) ids rest c e' later)
          | inr not_later ↦ elim (Bool-cases (includes expanded id)) [
            | inl opened ↦
                below id (includes_head id ids) opened
                  (walk_sound fuel (children_of id m) inner c (rw opened at e) (ground arith))
            | inr shut ↦ absurd (ground arith)
          ]
        ]
      ]

  pub walk_complete :
      (fuel : ℕ) (ids r : List Text) (c : Text)
      → walk m expanded fuel ids ≡ some r
      → Under m expanded ids c
      → includes r c ≡ true
  unfolding includes
  walk_complete fuel [] r c h u = elim (Under-cases u) [ inl k ↦ cc | inr (p, k, _, _) ↦ cc ]
  walk_complete zero (id ∷ ids) r c h u = absurd (walk-zero id ids r h)
  walk_complete (suc fuel) (id ∷ ids) r c h u =
      let (inner, rest, e, e', row) = walk-row fuel id c ids r h in
      elim (Under-cases u) [
        | inl k ↦ elim (Bool-cases (includes ids c)) [
          | inl later ↦
              let found = walk_complete (suc fuel) ids rest c e' (at later) in ground arith
          | inr not_later ↦ ground arith
        ]
        | inr (p, k, opened, v) ↦ elim (Bool-cases (includes ids p)) [
          | inl later ↦
              let found = walk_complete (suc fuel) ids rest c e' (below p later opened v) in
              ground arith
          | inr not_later ↦
              let same : id ≡ p = ground (arith, text_beq_iff id p) in
              let opened' : includes expanded id ≡ true = rw same opened in
              let v' : Under m expanded (children_of id m) c = rw same v in
              let found = walk_complete fuel (children_of id m) inner c (rw opened' at e) v' in
              ground arith
        ]
      ]

-- A row is shown if it is a root, or hangs under a shown row that is expanded.
pub data Visible (spans : List Span) (expanded : List Text) : Text → Type 0 where
  root : {c : Text} → is_root spans c ≡ true → Visible spans expanded c
  child :
      {c : Text} (p : Text)
      → Visible spans expanded p
      → includes expanded p ≡ true
      → is_child spans p c ≡ true
      → Visible spans expanded c

module _ (spans : List Span) (expanded : List Text) where
  abbrev tree : Forest
  tree = build_span_tree spans

  pub under-Visible :
      {ids : List Text} {c : Text}
      → ((a : Text) → includes ids a ≡ true → Visible spans expanded a)
      → Under tree.store expanded ids c
      → Visible spans expanded c
  under-Visible {c} known (at h) = known c h
  under-Visible known (below p h e u) =
      under-Visible (λ a k. child p (known p h) e (sym (build_span_tree_lem spans p a).0 ∙ k)) u

  extend :
      {ids : List Text} {p c : Text}
      → Under tree.store expanded ids p
      → includes expanded p ≡ true
      → is_child spans p c ≡ true
      → Under tree.store expanded ids c
  extend {p} {c} (at h) e k = below p h e (at ((build_span_tree_lem spans p c).0 ∙ k))
  extend (below q h e' u) e k = below q h e' (extend u e k)

  pub visible_under : {c : Text} → Visible spans expanded c → Under tree.store expanded tree.roots c
  visible_under {c} (root h) = at ((build_span_tree_lem spans c c).1 ∙ h)
  visible_under (child p v e k) = extend (visible_under v) e k
