-- ===== src/Rbac/NodeTree.antt =====
-- The tree of permission nodes, its rows, and what the buttons over it collect
-- (frontend/src/pages/rbac/NodeList.tsx).
pub mod Rows
use mrboard.Shared.{
  ℕ, suc, ◌+◌, ◌++◌, Bool, true, false, ◌&&◌, List, [], ◌∷◌, if◌then◌else◌, Text, nat_eq,
}
use mrboard.Shared.Members.{includes, add_member, toggle}

-- `TreeNode` without its children.
pub record NodeInfo : Type 0 where
  pub id : ℕ
  pub title : Text
  pub name : Text
  pub pid : ℕ
  pub level : ℕ
  pub status : ℕ
  pub group_id : Text
  pub remark : Text
  pub icons : Text
  pub sorts : Text

-- `TreeNode[]`: a node, its children, and the nodes after it. Missing children are none.
pub data Nodes : Type 0 where
  nil : Nodes
  cons : NodeInfo → (children rest : Nodes) → Nodes

-- The walk of "select all": it pushes every id.
unfoldable pub walk_push : Nodes → List ℕ → List ℕ
walk_push nil acc = acc
walk_push (cons n children rest) acc = walk_push rest (walk_push children (acc ++ n.id ∷ []))

unfoldable pub select_all : Nodes → List ℕ
unfolding walk_push
select_all nodes = walk_push nodes []

-- The walk of "expand all": it adds every id to a set.
walk_add : Nodes → List ℕ → List ℕ
walk_add nil acc = acc
walk_add (cons n children rest) acc = walk_add rest (walk_add children (add_member n.id acc))

pub expand_all : Nodes → List ℕ
unfolding walk_add
expand_all nodes = walk_add nodes []

abbrev pub fold_all : List ℕ
fold_all = []

pub record Row : Type 0 where
  pub info : NodeInfo
  pub depth : ℕ
  pub has_children : Bool
  pub is_expanded : Bool
  pub is_selected : Bool

abbrev is_filled : Nodes → Bool
is_filled nil = false
is_filled (cons n children rest) = true

-- `renderTreeRow` over a list of nodes.
pub render_rows : List ℕ → List ℕ → ℕ → Nodes → List Row
render_rows expanded selected depth nil = []
render_rows expanded selected depth (cons n children rest) =
    record {
      info = n;
      depth = depth;
      has_children = is_filled children;
      is_expanded = includes expanded n.id;
      is_selected = includes selected n.id;
    }
    ∷ ((if is_filled children && includes expanded n.id
          then render_rows expanded selected (depth + 1) children
          else [])
        ++ render_rows expanded selected depth rest)

-- `toggleSelect`, and the toggle of a row's arrow.
unfoldable pub toggle_select : ℕ → List ℕ → List ℕ
toggle_select id prev = toggle id prev

unfoldable pub toggle_row : ℕ → List ℕ → List ℕ
toggle_row id prev = toggle id prev
