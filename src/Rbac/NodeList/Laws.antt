-- ===== src/Rbac/NodeList/Laws.antt =====
-- Sequences of operations on the page of permission nodes (frontend/src/pages/rbac/NodeList.tsx).
use mrboard.Shared.{◌≡◌, ◌≢◌, ◌==◌, text_eq, true, false, [], ◌∷◌, Text, nat_eq, is_truthy, arith}
use mrboard.Shared.Members.{includes}
use mrboard.Session.Api.{resolved, thrown}
use mrboard.Rbac.NodeTree.{NodeInfo, Nodes, select_all}
use mrboard.Rbac.NodeList.{
  Page, list_group, add_access, fetch_nodes, nodes_arrived, set_filter_group, request_delete,
  delete_answered, handle_auth_to_role, auth_answered, check_all,
}

-- After a group was chosen and its nodes have arrived, the choice of "all" sends no request: the table
-- goes on showing the group's nodes.
set_filter_group-back_to_all :
    (p : Page) (group : Text) (list : Nodes)
    → is_truthy group ≡ true
    → (group == p.filter_group) ≡ false
    → let shown = nodes_arrived (resolved list) (set_filter_group group p).0 in
      ((set_filter_group group p).1 ≡ list_group group ∷ [])
      × ((set_filter_group [] shown).1 ≡ [])
      × ((set_filter_group [] shown).0.filter_group ≡ [])
      × ((set_filter_group [] shown).0.nodes ≡ list)
unfolding set_filter_group nodes_arrived fetch_nodes
set_filter_group-back_to_all p group list h k =
    (ground arith, ground arith, ground arith, ground arith)

-- A node that is selected and then deleted stays selected, also when the new list of nodes has arrived:
-- the next authorisation sends its id.
delete-keeps_selected :
    (p : Page) (n : NodeInfo) (list : Nodes)
    → includes p.selected n.id ≡ true
    → is_truthy p.auth_role ≡ true
    → let deleted =
        nodes_arrived (resolved list) (delete_answered (resolved tt) (request_delete n p)).0 in
      ((handle_auth_to_role deleted).1 ≡ add_access p.auth_role p.selected ∷ [])
      × (includes deleted.selected n.id ≡ true)
unfolding nodes_arrived delete_answered request_delete handle_auth_to_role includes fetch_nodes
delete-keeps_selected p n list h k = (ground arith, h)

-- "Select all" and then authorise: with a role chosen and at least one node, one request grants the role
-- all nodes of the tree; when it succeeds nothing is selected any more, and when it fails the
-- selection is kept.
check_all-handle_auth_to_role :
    (p : Page) (message : Text)
    → is_truthy p.auth_role ≡ true
    → select_all p.nodes ≢ []
    → ((handle_auth_to_role (check_all true p)).1
        ≡ add_access p.auth_role (select_all p.nodes) ∷ [])
      × ((auth_answered (resolved tt) (handle_auth_to_role (check_all true p)).0).selected ≡ [])
      × ((auth_answered (thrown message) (handle_auth_to_role (check_all true p)).0).selected
          ≡ select_all p.nodes)
unfolding handle_auth_to_role check_all auth_answered
check_all-handle_auth_to_role p message h k = (ground arith, ground arith, ground arith)
