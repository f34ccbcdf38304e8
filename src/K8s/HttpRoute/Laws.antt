-- ===== src/K8s/HttpRoute/Laws.antt =====
-- What the YAML of an HTTPRoute holds, and what its form's request leaves out
-- (frontend/src/pages/k8s/HttpRouteList.tsx).
use mrboard.Shared.{
  is_truthy, ◌≡◌, ◌<◌, ◌∙◌, refl, sym, ap, ℕ, zero, suc, ◌+◌, ◌++◌, append_assoc, append-nil, true,
  List, [], ◌∷◌, map, arith, Text, keep, join, length, contains, contains-append, length-append,
  lit, if◌then◌else◌, Bool-cases, inl, inr,
}
use mrboard.Ai.Stream.{or_text}
use mrboard.Deploy.Create.{has_key, Pair, form, remove_at, change_at}
use mrboard.K8s.CreateDialog.{Dialog, handle_create}
use mrboard.K8s.HttpRoute.{
  header_texts, headers_yaml, RuleRow, RuleField, RouteForm, YamlRule, add_rule, remove_rule,
  update_rule, set_rule, new_rule, has_backend, or_rules, single_rule, my_service_rule, rule_yaml,
  yaml_rule, yaml_rules, head_lines, build_yaml, route_form,
}

-- What the rows of the rules allow.
pub data Edit : Type 0 where
  add : Edit
  remove : ℕ → Edit
  update : ℕ → RuleField → Text → Edit

abbrev edit : Edit → RouteForm → RouteForm
edit add s = add_rule s
edit (remove i) s = remove_rule i s
edit (update i field text) s = update_rule i field text s

abbrev edits : List Edit → RouteForm → RouteForm
edits [] s = s
edits (e ∷ es) s = edits es (edit e s)

length-change_at :
    (i : ℕ) (f : RuleRow → RuleRow) (xs : List RuleRow) → length (change_at i f xs) ≡ length xs
unfolding change_at
length-change_at zero f [] = refl
length-change_at zero f (x ∷ xs) = refl
length-change_at (suc i) f [] = refl
length-change_at (suc i) f (x ∷ xs) = omega (arith, length-change_at i f xs)

length-remove_at : (i : ℕ) (xs : List RuleRow) → length xs < length (remove_at i xs) + 2
unfolding remove_at
length-remove_at zero [] = omega arith
length-remove_at zero (x ∷ xs) = omega arith
length-remove_at (suc i) [] = omega arith
length-remove_at (suc i) (x ∷ xs) = omega (arith, length-remove_at i xs)

edit-length : (e : Edit) (s : RouteForm) → 0 < length s.rules → 0 < length (edit e s).rules
unfolding add_rule remove_rule update_rule
edit-length add s h = omega (arith, h, length-append s.rules (new_rule ∷ []))
edit-length (remove i) s h = ground (arith, h, length-remove_at i s.rules)
edit-length (update i field text) s h =
    omega (arith, h, length-change_at i (set_rule field text) s.rules)

-- Whatever is added, removed and typed in the rows of the rules, in any order, a row is left.
edits-length : (es : List Edit) (s : RouteForm) → 0 < length s.rules → 0 < length (edits es s).rules
edits-length [] s h = h
edits-length (e ∷ es) s h = edits-length es (edit e s) (edit-length e s h)

-- A piece of a joined text stands whole in it.
join-piece :
    (c : ℕ) (xs ys : List Text) (x : Text)
    → (a : Text) × (b : Text) × (join c (xs ++ x ∷ ys) ≡ a ++ (x ++ b))
unfolding join
join-piece c [] [] x = ([], [], sym (append-nil x))
join-piece c [] (y ∷ ys) x = ([], c ∷ join c (y ∷ ys), refl)
join-piece c (w ∷ []) ys x =
    let (a, b, e) = join-piece c [] ys x in
    (w ++ c ∷ a, b, ap (λ t. w ++ c ∷ t) e ∙ sym (append_assoc w (c ∷ a) (x ++ b)))
join-piece c (w ∷ v ∷ xs) ys x =
    let (a, b, e) = join-piece c (v ∷ xs) ys x in
    (w ++ c ∷ a, b, ap (λ t. w ++ c ∷ t) e ∙ sym (append_assoc w (c ∷ a) (x ++ b)))

contains-join : (c : ℕ) (xs ys : List Text) (x : Text) → contains x (join c (xs ++ x ∷ ys)) ≡ true
contains-join c xs ys x = let (a, b, e) = join-piece c xs ys x in rw e (contains-append x a b)

map-keep :
    (g : RuleRow → YamlRule) (pre post : List RuleRow) (r : RuleRow)
    → has_backend r ≡ true
    → map g (keep has_backend (pre ++ r ∷ post))
      ≡ map g (keep has_backend pre) ++ g r ∷ map g (keep has_backend post)
unfolding keep
map-keep g [] post r h = rw h refl
map-keep g (p ∷ pre) post r h = ground (arith, map-keep g pre post r h)

or_rules-append :
    (xs ys zs : List YamlRule) (y : YamlRule) → or_rules (xs ++ y ∷ ys) zs ≡ xs ++ y ∷ ys
or_rules-append [] ys zs y = refl
or_rules-append (x ∷ xs) ys zs y = refl

map-append :
    (xs ys : List YamlRule) (y : YamlRule)
    → map rule_yaml (xs ++ y ∷ ys) ≡ map rule_yaml xs ++ rule_yaml y ∷ map rule_yaml ys
map-append [] ys y = refl
map-append (x ∷ xs) ys y = ap (λ l. rule_yaml x ∷ l) (map-append xs ys y)

contains-lines :
    (front xs ys : List Text) (x : Text) → contains x (join 10 (front ++ (xs ++ x ∷ ys))) ≡ true
contains-lines front xs ys x =
    rw (sym (append_assoc front xs (x ∷ ys))) (contains-join 10 (front ++ xs) ys x)

rules_lines :
    (port : Text → Text) (s : RouteForm) (pre post : List RuleRow) (r : RuleRow)
    → s.rules ≡ pre ++ r ∷ post
    → has_backend r ≡ true
    → (xs : List Text) × (ys : List Text) × (map rule_yaml (yaml_rules port s)
        ≡ xs ++ rule_yaml (yaml_rule port s.headers r) ∷ ys)
unfolding yaml_rules
rules_lines port s pre post r e h =
    let g = λ (q : RuleRow). yaml_rule port s.headers q in
    let xs : List YamlRule = map g (keep has_backend pre) in
    let ys : List YamlRule = map g (keep has_backend post) in
    (
      map rule_yaml xs,
      map rule_yaml ys,
      rw
          (
            e,
            map-keep g pre post r h,
            or_rules-append xs ys (single_rule port s) (g r),
            or_rules-append xs ys (my_service_rule ∷ []) (g r),
          )
          (map-append xs ys (g r)),
    )

-- The text of a rule, written out: that of its headers,
abbrev header_lines : List Pair → Text
header_lines [] = []
header_lines (h ∷ hs) =
    if is_truthy h.key
    then lit "\n            - name: "
      ++ (h.key ++ (lit "\n              value: " ++ (h.value ++ header_lines hs)))
    else header_lines hs

abbrev headers_text : List Pair → Text
headers_text headers =
    if is_truthy (header_lines headers)
    then lit "\n          headers:" ++ header_lines headers
    else []

-- and of the row.
abbrev pub rule_text : (Text → Text) → List Pair → RuleRow → Text
rule_text port headers r =
    lit "    - matches:\n        - path:\n            type: "
    ++ (r.path_type
        ++ (lit "\n            value: "
            ++ ((if is_truthy r.path then r.path else lit "/")
                ++ (headers_text headers
                    ++ (lit "\n      backendRefs:\n        - name: "
                        ++ (r.backend_service
                            ++ (lit "\n          port: " ++ port r.backend_port)))))))

header_texts-keep : (hs : List Pair) → header_texts (keep has_key hs) ≡ header_lines hs
unfolding keep
header_texts-keep [] = refl
header_texts-keep (h ∷ hs) = elim (Bool-cases (is_truthy h.key)) [
  | inl e ↦
      rw (e, header_texts-keep hs)
        (ap (λ t. lit "\n            - name: " ++ t)
          (append_assoc h.key (lit "\n              value: " ++ h.value) (header_lines hs)))
  | inr e ↦ rw e (header_texts-keep hs)
]

headers_yaml_lem :
    (hs : List Pair)
    → headers_yaml hs
      ≡ (if is_truthy (header_texts hs) then lit "\n          headers:" ++ header_texts hs else [])
headers_yaml_lem [] = refl
headers_yaml_lem (h ∷ hs) = refl

rule_yaml_lem :
    (port : Text → Text) (headers : List Pair) (r : RuleRow)
    → rule_yaml (yaml_rule port headers r) ≡ rule_text port headers r
unfolding rule_yaml yaml_rule join or_text
rule_yaml_lem port headers r =
    let value = if is_truthy r.path then r.path else lit "/" in
    let end =
      lit "\n      backendRefs:\n        - name: "
      ++ (r.backend_service ++ (lit "\n          port: " ++ port r.backend_port)) in
    rw (headers_yaml_lem (keep has_key headers), header_texts-keep headers)
      (ap
        (λ t.
          lit "    - matches:\n        - path:\n            type: "
          ++ (r.path_type ++ (lit "\n            value: " ++ t)))
        (append_assoc value (headers_text headers) end))

-- Each row of the rules that has a service stands in the YAML as a whole rule, whose text is written
-- out in `rule_text`: its path type, its path, or "/", the headers that have a name, in their order and
-- with their values, under a heading if there are any, its service and its port.
pub build_yaml-contains :
    (port : Text → Text) (s : RouteForm) (pre post : List RuleRow) (r : RuleRow)
    → s.rules ≡ pre ++ r ∷ post
    → is_truthy r.backend_service ≡ true
    → contains (rule_text port s.headers r) (build_yaml port s) ≡ true
unfolding build_yaml
build_yaml-contains port s pre post r e h =
    let (xs, ys, lines) = rules_lines port s pre post r e h in
    rw (lines, sym (rule_yaml_lem port s.headers r))
      (contains-lines (head_lines s) (lit "  rules:" ∷ xs) ys
        (rule_yaml (yaml_rule port s.headers r)))

-- The request of the form is the same whatever stands in the rows of the rules and of the headers.
handle_create-no_rules :
    (s : Dialog RouteForm) (rules : List RuleRow) (headers : List Pair)
    → s.create_tab ≡ form
    → let t : Dialog RouteForm = record s {
      fields = record s.fields { rules = rules; headers = headers };
    } in
      (handle_create route_form t).1 ≡ (handle_create route_form s).1
unfolding handle_create
handle_create-no_rules s rules headers tab = rw tab (ground arith)
