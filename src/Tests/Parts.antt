-- ===== src/Tests/Parts.antt =====
-- Tables, editors, the log window and the tree of permission nodes at concrete inputs
-- (frontend/src/components/shared, frontend/src/pages/log/LogDrilldown, frontend/src/pages/rbac).
use Prim.Native.Nat.{min}
use mrboard.Shared.{
  ◌+◌, ◌≡◌, refl, ℕ, ◌+◌, ◌-◌, ◌≤◌, ◌<◌, false, none, some, List, [], ◌∷◌, map, arith, text_eq,
  nat_eq, lit, length, get_elem?,
}
use mrboard.Components.DataTable.{
  PaginationState, page_links, page_num, array_from, Pager, pager, previous_page, next_page,
}
use mrboard.Components.DataTable.Pages.{page_links_lem}
use mrboard.Log.Window.{start_idx, end_idx, display_logs, visible_logs}
use mrboard.Log.Window.Laws.{visible_logs_cover}
use mrboard.Rbac.NodeTree.{NodeInfo, Nodes, nil, cons, render_rows, expand_all}
use mrboard.Rbac.NodeTree.Rows.{node_and_depth, preorder, render_rows-expand_all}
use mrboard.Rbac.NodeList.{Page, blank_form}

links_test : page_links 6 20 ≡ 4 ∷ 5 ∷ 6 ∷ 7 ∷ 8 ∷ []
unfolding page_links page_num
links_test = refl

page_links_lem_example :
    (first : ℕ) × (page_links 6 20 ≡ array_from (λ i. first + i) 0 (min 5 20))
    × (1 ≤ first)
    × (first + min 5 20 ≤ 20 + 1)
    × (first ≤ 6)
    × (6 < first + min 5 20)
page_links_lem_example = page_links_lem 6 20 (omega arith) (omega arith)

abbrev pages : PaginationState
pages = record { page = 2; limit = 10; total = 25 }

abbrev shown_pager : Pager
shown_pager = record {
  links = page_links 2 3;
  previous = previous_page 2;
  previous_off = false;
  next = next_page 2 3;
  next_off = false;
}

pager_test : pager (some pages) ≡ some shown_pager
unfolding pager
pager_test = refl

abbrev logs : List ℕ
logs = 7 ∷ 8 ∷ 9 ∷ []

visible_logs_cover_example :
    (start_idx 30 ≤ 2)
    × (2 < end_idx (length (display_logs logs)) 30 100)
    × (get_elem? (visible_logs logs 30 100) (2 - start_idx 30) ≡ get_elem? logs 2)
visible_logs_cover_example =
    visible_logs_cover logs 30 100 308 2 (omega arith) (omega arith) (omega arith) (omega arith)

abbrev info : ℕ → NodeInfo
info id = record {
  id = id;
  title = lit "t";
  name = lit "n";
  pid = 0;
  level = 1;
  status = 2;
  group_id = [];
  remark = [];
  icons = [];
  sorts = [];
}

abbrev nodes : Nodes
nodes = cons (info 1) (cons (info 2) nil (cons (info 3) nil nil)) (cons (info 4) nil nil)

render_rows-expand_all_example :
    map node_and_depth (render_rows (expand_all nodes) (2 ∷ []) 0 nodes) ≡ preorder 0 nodes
render_rows-expand_all_example = render_rows-expand_all nodes (2 ∷ [])

abbrev page : Page
page = record {
  nodes = nodes;
  loading = false;
  expanded = [];
  add_open = false;
  auth_open = false;
  selected = 2 ∷ [];
  filter_group = [];
  auth_role = lit "7";
  form = blank_form;
  delete_target = none;
  toasts = [];
}
