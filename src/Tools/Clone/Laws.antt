-- ===== src/Tools/Clone/Laws.antt =====
-- What the form for cloning sends (frontend/src/pages/tools/CloneResource.tsx).
use mrboard.Shared.{
  ◌≡◌, refl, Bool, true, false, not, ◌&&◌, ◌||◌, [], ◌∷◌, arith, nat_beq, Text, text_eq,
  text_beq_iff, is_truthy, is_space, keep,
}
use mrboard.Tools.Clone.{
  ClonePage, placeholder, is_unset, has_letter, handle_submit, to_commas, clean_names, clean,
  clone_body,
}

-- No character of the text is white space or a full-width comma.
abbrev pub is_clean : Text → Bool
is_clean [] = true
is_clean (c ∷ s) = not (is_space c || nat_beq c 65292) && is_clean s

clean_names-is_clean : (s : Text) → is_clean (clean_names s) ≡ true
unfolding clean_names to_commas keep is_space
clean_names-is_clean [] = refl
clean_names-is_clean (c ∷ s) = ground (arith, clean_names-is_clean s)

is_truthy-clean_names : (s : Text) → has_letter s ≡ true → is_truthy (clean_names s) ≡ true
unfolding clean_names to_commas keep is_space
is_truthy-clean_names [] h = cc
is_truthy-clean_names (c ∷ s) h = ground (arith, is_truthy-clean_names s)

is_truthy-clean : (v : Text) → is_unset v ≡ false → is_truthy (clean v) ≡ true
is_truthy-clean v h = ground arith

-- If a submission opens the dialog that confirms it, then in the body of the request that the dialog
-- sends the cluster, the namespace and the text of the object names are not empty, and the texts of
-- the object names and of the target names hold neither white space nor full-width commas. That a name
-- stands between the commas is not checked.
pub handle_submit-clone_body :
    (p : ClonePage)
    → p.confirm_open ≡ false
    → (handle_submit p).confirm_open ≡ true
    → let body = clone_body p.form in
      (is_truthy body.clusterid ≡ true)
      × (is_truthy body.namespace ≡ true)
      × (is_truthy body.objname ≡ true)
      × (is_clean body.objname ≡ true)
      × (is_clean body.target_objname ≡ true)
unfolding handle_submit clone_body
handle_submit-clone_body p closed opened = (
  ground (arith, is_truthy-clean p.form.clusterid),
  ground (arith, is_truthy-clean p.form.namespace),
  ground (arith, is_truthy-clean_names p.form.objname),
  clean_names-is_clean p.form.objname,
  clean_names-is_clean p.form.target_objname,
)

-- A submission is accepted also if target cluster, target namespace and target name are all left out;
-- the body then names no target.
handle_submit-no_target :
    (p : ClonePage)
    → is_unset p.form.res_type ≡ false
    → is_unset p.form.clusterid ≡ false
    → is_unset p.form.namespace ≡ false
    → has_letter p.form.objname ≡ true
    → p.form.target_clusterid ≡ placeholder
    → p.form.target_namespace ≡ placeholder
    → p.form.target_objname ≡ []
    → let body = clone_body (handle_submit p).form in
      ((handle_submit p).confirm_open ≡ true)
      × (body.target_clusterid ≡ [])
      × (body.target_namespace ≡ [])
      × (body.target_objname ≡ [])
unfolding handle_submit clone_body clean_names to_commas keep
handle_submit-no_target p r c n o tc tn to = (
  ground arith,
  ground (arith, text_beq_iff placeholder placeholder),
  ground (arith, text_beq_iff placeholder placeholder),
  ground arith,
)
