-- ===== src/Log/Filters/Gather.antt =====
-- The pairs of one facet, read one after another, make up the facet again (frontend/src/types/log.ts).
use mrboard.Shared.{
  ◌≡◌, ◌∙◌, refl, sym, ap, ◌++◌, false, Option, none, some, List, [], ◌∷◌, append_assoc, append-nil,
  arith, if◌then◌else◌, ◌==◌, Text, text_eq, text_beq_iff, lit, All, All-append,
}
use mrboard.Shared.Assoc.{get, put}
use mrboard.Log.Filters.{FacetMap, Params, set_param, push_value}
use mrboard.Log.Filters.Reducers.{Facet, label, x_label, field, x_field}
use mrboard.Log.Filters.Reading.{IsCodable, prefix, value_params, facet_params, push_list, gather}

get_last :
    (k j : Text) (o : Option (List Text)) (a : FacetMap)
    → get j a ≡ none
    → get j (a ++ (k, o) ∷ []) ≡ (if k == j then some o else none)
unfolding get
get_last k j o [] h = refl
get_last k j o ((i, p) ∷ a) h = ground (arith, get_last k j o a)

put_last :
    (k : Text) (o p : Option (List Text)) (a : FacetMap)
    → get k a ≡ none
    → put k p (a ++ (k, o) ∷ []) ≡ a ++ (k, p) ∷ []
unfolding get put
put_last k o p [] h = ground (arith, text_beq_iff k k)
put_last k o p ((i, q) ∷ a) h = ground (arith, put_last k o p a)

push_value_last :
    (k v : Text) (ws : List Text) (a : FacetMap)
    → get k a ≡ none
    → push_value k v (a ++ (k, some ws) ∷ []) ≡ a ++ (k, some (ws ++ v ∷ [])) ∷ []
unfolding push_value
push_value_last k v ws a h = ground (
  arith,
  get_last k k (some ws) a,
  text_beq_iff k k,
  put_last k (some ws) (some (ws ++ v ∷ [])) a,
)

push_list_more :
    (k : Text) (ws vs : List Text) (a : FacetMap)
    → get k a ≡ none
    → push_list k vs (a ++ (k, some ws) ∷ []) ≡ a ++ (k, some (ws ++ vs)) ∷ []
unfolding push_list
push_list_more k ws [] a h = simp append-nil
push_list_more k ws (v ∷ vs) a h =
    ap (push_list k vs) (push_value_last k v ws a h)
    ∙ push_list_more k (ws ++ v ∷ []) vs a h
    ∙ ap (λ (us : List Text). a ++ (k, some us) ∷ []) (append_assoc ws (v ∷ []) vs)

put_fresh :
    (k : Text) (p : Option (List Text)) (a : FacetMap)
    → get k a ≡ none
    → put k p a ≡ a ++ (k, p) ∷ []
unfolding get put
put_fresh k p [] h = refl
put_fresh k p ((i, q) ∷ a) h = ground (arith, put_fresh k p a)

push_value_fresh :
    (k v : Text) (a : FacetMap) → get k a ≡ none → push_value k v a ≡ a ++ (k, some (v ∷ [])) ∷ []
unfolding push_value
push_value_fresh k v a h = ground (arith, put_fresh k (some (v ∷ [])) a)

push_list_fresh :
    (k v : Text) (vs : List Text) (a : FacetMap)
    → get k a ≡ none
    → push_list k (v ∷ vs) a ≡ a ++ (k, some (v ∷ vs)) ∷ []
unfolding push_list
push_list_fresh k v vs a h =
    ap (push_list k vs) (push_value_fresh k v a h) ∙ push_list_more k (v ∷ []) vs a h

-- The names of `m` are new to `a`.
abbrev IsNewTo : FacetMap → FacetMap → Type 0
IsNewTo a [] = Unit
IsNewTo a ((k, o) ∷ m) = (get k a ≡ none) × IsNewTo a m

IsNewTo-append :
    (k : Text) (o : Option (List Text)) (a m : FacetMap)
    → get k m ≡ none
    → IsNewTo a m
    → IsNewTo (a ++ (k, o) ∷ []) m
unfolding get
IsNewTo-append k o a [] h n = tt
IsNewTo-append k o a ((j, p) ∷ m) h (n, ns) = (
  ground (arith, get_last k j o a, text_beq_iff k j, text_beq_iff j k),
  IsNewTo-append k o a m (ground arith) ns,
)

gather_lem : (m a : FacetMap) → IsCodable m → IsNewTo a m → gather m a ≡ a ++ m
unfolding gather
gather_lem [] a c n = sym (append-nil a)
gather_lem ((k, none) ∷ m) a c n = absurd c.0
gather_lem ((k, some []) ∷ m) a c n = absurd c.0
gather_lem ((k, some (v ∷ vs)) ∷ m) a (_, fresh, c) (n, ns) =
    ap (gather m) (push_list_fresh k v vs a n)
    ∙ gather_lem m (a ++ (k, some (v ∷ vs)) ∷ []) c (IsNewTo-append k _ a m fresh ns)
    ∙ append_assoc a ((k, some (v ∷ vs)) ∷ []) m

IsNewTo-nil : (m : FacetMap) → IsNewTo [] m
unfolding get
IsNewTo-nil [] = tt
IsNewTo-nil ((k, o) ∷ m) = (refl, IsNewTo-nil m)

pub gather-nil : (m : FacetMap) → IsCodable m → gather m [] ≡ m
gather-nil m c = gather_lem m [] c (IsNewTo-nil m)

-- No pair of a facet bears one of the three plain names.
abbrev pub Absent : Text → Params → Type 0
Absent k = All (λ e. (e.0 == k) ≡ false)

Absent-value_params :
    (f : Facet) (name : Text) (vs : List Text)
    → Absent (lit "levels") (value_params (prefix f ++ name) vs)
      × Absent (lit "search") (value_params (prefix f ++ name) vs)
      × Absent (lit "logql") (value_params (prefix f ++ name) vs)
Absent-value_params f name [] = (tt, tt, tt)
Absent-value_params label name (v ∷ vs) =
    let (a, b, c) = Absent-value_params label name vs in ((refl, a), (refl, b), (refl, c))
Absent-value_params x_label name (v ∷ vs) =
    let (a, b, c) = Absent-value_params x_label name vs in ((refl, a), (refl, b), (refl, c))
Absent-value_params field name (v ∷ vs) =
    let (a, b, c) = Absent-value_params field name vs in ((refl, a), (refl, b), (refl, c))
Absent-value_params x_field name (v ∷ vs) =
    let (a, b, c) = Absent-value_params x_field name vs in ((refl, a), (refl, b), (refl, c))

abbrev pub IsPlain : Params → Type 0
IsPlain ps = Absent (lit "levels") ps × Absent (lit "search") ps × Absent (lit "logql") ps

pub IsPlain-append : (ps qs : Params) → IsPlain ps → IsPlain qs → IsPlain (ps ++ qs)
IsPlain-append ps qs (a, b, c) (a', b', c') =
    (All-append _ ps qs a a', All-append _ ps qs b b', All-append _ ps qs c c')

pub facet_params-IsPlain : (f : Facet) (m : FacetMap) → IsPlain (facet_params (prefix f) m)
facet_params-IsPlain f [] = (tt, tt, tt)
facet_params-IsPlain f ((k, none) ∷ m) = facet_params-IsPlain f m
facet_params-IsPlain f ((k, some vs) ∷ m) =
    IsPlain-append (value_params (prefix f ++ k) vs) (facet_params (prefix f) m)
      (Absent-value_params f k vs) (facet_params-IsPlain f m)

pub set_param-Absent :
    (k v : Text) (ps : Params) → Absent k ps → set_param k v ps ≡ ps ++ (k, v) ∷ []
unfolding set_param
set_param-Absent k v [] h = refl
set_param-Absent k v ((j, w) ∷ ps) (h, hs) = ground (arith, set_param-Absent k v ps hs)
