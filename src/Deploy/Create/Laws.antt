-- ===== src/Deploy/Create/Laws.antt =====
-- What is sent to create a deployment (frontend/src/pages/deploy/DeployList.tsx).
use mrboard.Shared.{
  ◌≡◌, ◌≢◌, refl, true, false, Option, none, some, List, [], ◌∷◌, ◌++◌, map, arith, Text, lit,
  is_truthy, keep, split, All, Bool-cases, List-cases, inl, inr, subst,
}
use mrboard.Shared.Split.{IsPart, split-join}
use mrboard.Deploy.Create.{
  Pair, CreateDialog, CreateTab, form, yaml, CreateRequest, by_form, by_yaml, label_pair, has_key,
  label_list, handle_create, create_by,
}

-- What the server gets.
abbrev IsFilled : CreateRequest → Type 0
IsFilled (by_form ns name image replicas labels) =
    (is_truthy name ≡ true) × (is_truthy image ≡ true)
IsFilled (by_yaml content) = Unit

-- The outcome of 创建: nothing is sent, with a message, or a filled request is.
abbrev IsTold : CreateDialog → CreateDialog × Option CreateRequest → Type 0
IsTold s (t, none) =
    (t.submitting ≡ false) × ((t.create_open ≡ s.create_open) × (t.toasts ≢ s.toasts))
IsTold s (t, some r) = IsFilled r × (t.submitting ≡ true)

append_one_longer : (ts : List Text) (t : Text) → ts ++ t ∷ [] ≢ ts
append_one_longer [] t h = ground (arith, h)
append_one_longer (u ∷ ts) t h = append_one_longer ts t (ground (arith, h))

create_by-IsTold : (tab : CreateTab) (s : CreateDialog) → IsTold s (create_by tab s)
unfolding create_by
create_by-IsTold form s = elim (Bool-cases (is_truthy s.form_name)) [
  | inl e ↦ elim (Bool-cases (is_truthy s.form_image)) [
    | inl k ↦ rw (e, k) ((e, k), refl)
    | inr k ↦ rw (e, k) (refl, (refl, append_one_longer s.toasts (lit "请输入镜像地址")))
  ]
  | inr e ↦ rw e (refl, (refl, append_one_longer s.toasts (lit "请输入名称")))
]
create_by-IsTold yaml s = (tt, refl)

-- A request by the form has a name and an image. Where one is missing nothing is sent: the dialog
-- stays as open as it was, tells so, and does not go on submitting.
handle_create_lem : (s : CreateDialog) → IsTold s (handle_create s)
unfolding handle_create
handle_create_lem s = create_by-IsTold s.create_tab s

label_pair_nonempty : (p : Pair) → label_pair p ≢ []
label_pair_nonempty p = nonempty p.key p.value
  where
    nonempty : (k v : Text) → k ++ (lit "=" ++ v) ≢ []
    nonempty [] v = ground arith
    nonempty (c ∷ k) v = ground arith

All-label_pair :
    (labels : List Pair)
    → All (λ (p : Pair). All (λ c. c ≢ b',') (label_pair p)) labels
    → All (IsPart b',') (map label_pair labels)
All-label_pair [] h = tt
All-label_pair (p ∷ labels) (h, hs) = ((label_pair_nonempty p, h), All-label_pair labels hs)

-- The labels of a request by the form can be read back: if no key and no value holds a comma, the
-- parts of its text are the pairs of the rows that have a key, in their order.
split-label_list :
    (labels : List Pair)
    → (keep has_key labels ≢ [])
    → All (λ (p : Pair). All (λ c. c ≢ b',') (label_pair p)) (keep has_key labels)
    → split b',' (label_list labels) ≡ map label_pair (keep has_key labels)
unfolding label_list
split-label_list labels some_key no_comma = elim (List-cases (keep has_key labels)) [
  | inl e ↦ absurd (some_key e)
  | inr (p, rest, e) ↦ rw e (
      split-join b',' (label_pair p) (map label_pair rest) (
        All-label_pair (p ∷ rest)
          (subst (All (λ (q : Pair). All (λ c. c ≢ b',') (label_pair q))) e no_comma)))
]
