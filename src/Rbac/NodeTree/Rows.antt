-- ===== src/Rbac/NodeTree/Rows.antt =====
-- The rows of the tree of permission nodes (frontend/src/pages/rbac/NodeList.tsx).
use mrboard.Shared.{
  ◌≡◌, refl, ap, ap₂, sym, ◌∙◌, ℕ, ◌+◌, ◌++◌, Bool, true, false, ◌&&◌, ◌||◌, List, [], ◌∷◌, map,
  arith, if◌then◌else◌, nat_eq, nat_beq_iff, append_assoc, append-nil, All, All-append,
}
use mrboard.Shared.Members.{includes, add_member, includes-add_member, includes-append}
use mrboard.Rbac.NodeTree.{
  NodeInfo, Nodes, nil, cons, walk_push, select_all, walk_add, expand_all, fold_all, Row, is_filled,
  render_rows,
}

-- Every node with its depth, a node before its children and these before the next node.
abbrev pub preorder : ℕ → Nodes → List (NodeInfo × ℕ)
preorder depth nil = []
preorder depth (cons n children rest) =
    (n, depth) ∷ (preorder (depth + 1) children ++ preorder depth rest)

abbrev pub node_and_depth : Row → NodeInfo × ℕ
node_and_depth r = (r.info, r.depth)

abbrev ids : Nodes → List ℕ
ids nil = []
ids (cons n children rest) = n.id ∷ (ids children ++ ids rest)

abbrev top_level : Nodes → List NodeInfo
top_level nil = []
top_level (cons n children rest) = n ∷ top_level rest

walk_push_lem : (nodes : Nodes) (acc : List ℕ) → walk_push nodes acc ≡ acc ++ ids nodes
unfolding walk_push
walk_push_lem nil acc = sym (append-nil acc)
walk_push_lem (cons n children rest) acc =
    simp (walk_push_lem children, walk_push_lem rest, append_assoc)

includes-walk_add :
    (nodes : Nodes) (acc : List ℕ) (a : ℕ)
    → includes (walk_add nodes acc) a ≡ (includes acc a || includes (ids nodes) a)
unfolding walk_add includes
includes-walk_add nil acc a = ground arith
includes-walk_add (cons n children rest) acc a = ground (
  arith,
  includes-walk_add children (add_member n.id acc) a,
  includes-walk_add rest (walk_add children (add_member n.id acc)) a,
  includes-add_member acc n.id a,
  includes-append (ids children) (ids rest) a,
)

map-append_rows :
    (xs ys : List Row)
    → map node_and_depth (xs ++ ys) ≡ map node_and_depth xs ++ map node_and_depth ys
map-append_rows [] ys = refl
map-append_rows (x ∷ xs) ys = ap (◌∷◌ (node_and_depth x)) (map-append_rows xs ys)

abbrev AllIn : List ℕ → Nodes → Type 0
AllIn expanded nil = Unit
AllIn expanded (cons n children rest) =
    (includes expanded n.id ≡ true) × AllIn expanded children × AllIn expanded rest

expanded_rows :
    (expanded selected : List ℕ) (depth : ℕ) (nodes : Nodes)
    → AllIn expanded nodes
    → map node_and_depth (render_rows expanded selected depth nodes) ≡ preorder depth nodes
unfolding render_rows
expanded_rows expanded selected depth nil h = refl
expanded_rows expanded selected depth (cons n nil rest) (h, _, hs) =
    ap (◌∷◌ (n, depth)) (expanded_rows expanded selected depth rest hs)
expanded_rows expanded selected depth (cons n (cons m cs rs) rest) (h, hc, hs) = rw h (
    ap (◌∷◌ (n, depth)) (
      map-append_rows (render_rows expanded selected (depth + 1) (cons m cs rs))
        (render_rows expanded selected depth rest)
      ∙ ap₂ (λ (xs ys : List (NodeInfo × ℕ)). xs ++ ys)
          (expanded_rows expanded selected (depth + 1) (cons m cs rs) hc)
          (expanded_rows expanded selected depth rest hs)))

AllIn-of_ids :
    (expanded : List ℕ) (nodes : Nodes)
    → ((a : ℕ) → includes (ids nodes) a ≡ true → includes expanded a ≡ true)
    → AllIn expanded nodes
unfolding includes
AllIn-of_ids expanded nil h = tt
AllIn-of_ids expanded (cons n children rest) h = (
  h n.id (ground (arith, nat_beq_iff n.id n.id)),
  AllIn-of_ids expanded children
      (λ a k. h a (ground (arith, includes-append (ids children) (ids rest) a))),
  AllIn-of_ids expanded rest
      (λ a k. h a (ground (arith, includes-append (ids children) (ids rest) a))),
)

-- After "expand all" the table has a row for every node of the tree, in preorder and at its depth,
-- whatever is selected.
pub render_rows-expand_all :
    (nodes : Nodes) (selected : List ℕ)
    → map node_and_depth (render_rows (expand_all nodes) selected 0 nodes) ≡ preorder 0 nodes
unfolding expand_all includes
render_rows-expand_all nodes selected =
    expanded_rows (expand_all nodes) selected 0 nodes
      (AllIn-of_ids (expand_all nodes) nodes (λ a h. includes-walk_add nodes [] a ∙ h))

folded_rows :
    (selected : List ℕ) (depth : ℕ) (nodes : Nodes)
    → map node_and_depth (render_rows [] selected depth nodes)
      ≡ map (λ n. (n, depth)) (top_level nodes)
unfolding render_rows includes
folded_rows selected depth nil = refl
folded_rows selected depth (cons n nil rest) = ap (◌∷◌ (n, depth)) (folded_rows selected depth rest)
folded_rows selected depth (cons n (cons m cs rs) rest) =
    ap (◌∷◌ (n, depth)) (folded_rows selected depth rest)

-- After "fold all" only the nodes of the top level have rows, at depth 0.
render_rows-fold_all :
    (nodes : Nodes) (selected : List ℕ)
    → map node_and_depth (render_rows fold_all selected 0 nodes)
      ≡ map (λ n. (n, 0)) (top_level nodes)
render_rows-fold_all nodes selected = folded_rows selected 0 nodes

abbrev AllChecked : List Row → Type 0
AllChecked = All (λ r. r.is_selected ≡ true)

AllChecked-if : (b : Bool) (rows : List Row) → AllChecked rows → AllChecked (if b then rows else [])
AllChecked-if true rows h = h
AllChecked-if false rows h = tt

checked_rows :
    (expanded selected : List ℕ) (depth : ℕ) (nodes : Nodes)
    → ((a : ℕ) → includes (ids nodes) a ≡ true → includes selected a ≡ true)
    → AllChecked (render_rows expanded selected depth nodes)
unfolding render_rows includes
checked_rows expanded selected depth nil h = tt
checked_rows expanded selected depth (cons n children rest) h =
    let append = includes-append (ids children) (ids rest) in
    let below =
      checked_rows expanded selected (depth + 1) children (λ a k. h a (ground (arith, append a))) in
    let later = checked_rows expanded selected depth rest (λ a k. h a (ground (arith, append a))) in
    (
      h n.id (ground (arith, nat_beq_iff n.id n.id)),
      All-append _ _ _ (AllChecked-if (is_filled children && includes expanded n.id) _ below) later,
    )

-- "Select all" selects the ids of all nodes, the hidden ones included, in preorder; then every row is
-- checked, whatever is expanded.
select_all_lem :
    (nodes : Nodes) (expanded : List ℕ)
    → (select_all nodes ≡ ids nodes) × AllChecked (render_rows expanded (select_all nodes) 0 nodes)
unfolding select_all
select_all_lem nodes expanded =
    let e = walk_push_lem nodes [] in
    (e, checked_rows expanded (select_all nodes) 0 nodes (λ a h. ap (λ xs. includes xs a) e ∙ h))
