-- ===== src/Tests/Cloning.antt =====
-- The form for cloning at concrete entries (frontend/src/pages/tools/CloneResource.tsx).
use mrboard.Shared.{◌≡◌, refl, true, false, [], ◌∷◌, ◌++◌, text_eq, lit, is_truthy, is_space, keep}
use mrboard.Tools.Clone.{
  Form, ClonePage, blank_form, handle_submit, clone_body, clean_names, to_commas,
}
use mrboard.Tools.Clone.Laws.{is_clean, handle_submit-clone_body}

abbrev filled : Form
filled = record blank_form {
  res_type = lit "service";
  clusterid = lit "c1";
  namespace = lit "default";
  objname = lit "web, api";
}

abbrev page : ClonePage
page = record {
  clusters = [];
  namespaces = [];
  target_namespaces = [];
  records = [];
  loading = false;
  submitting = false;
  confirm_open = false;
  form = filled;
  toasts = [];
}

names_test : clean_names (lit "a " ++ 65292 ∷ lit "b") ≡ lit "a,b"
unfolding clean_names to_commas keep is_space
names_test = refl

handle_submit-clone_body_example :
    let body = clone_body filled in
    (is_truthy body.clusterid ≡ true)
    × (is_truthy body.namespace ≡ true)
    × (is_truthy body.objname ≡ true)
    × (is_clean body.objname ≡ true)
    × (is_clean body.target_objname ≡ true)
unfolding handle_submit is_space
handle_submit-clone_body_example = handle_submit-clone_body page refl refl
