-- ===== src/Ai/RawResponse/Laws.antt =====
-- The braces of the JSON that is cut out of the answer
-- (frontend/src/pages/ai/AnalysisReport.tsx).
use mrboard.Shared.{
  ◌≡◌, ◌≢◌, ◌<◌, refl, ap, ℕ, zero, suc, ◌+◌, ◌++◌, Option, none, some, [], ◌∷◌, if◌then◌else◌,
  arith, Text, nat_beq, take, Bool-cases, inl, inr,
}
use mrboard.Ai.RawResponse.{cut_object, next_depth, cons_code}

abbrev count : ℕ → Text → ℕ
count c [] = 0
count c (d ∷ s) = (if nat_beq d c then 1 else 0) + count c s

-- What the loop finds at a depth: a beginning of the text that closes all open braces, or that no
-- beginning does.
abbrev pub Closed : ℕ → Text → Option Text → Type 0
Closed depth s none = (n : ℕ) → count b'}' (take n s) < count b'{' (take n s) + depth
Closed depth s (some t) = ((rest : Text) × (s ≡ t ++ rest)) × (count b'}' t ≡ count b'{' t + depth)

cons_code-Closed :
    (depth c : ℕ) (s : Text) (o : Option Text)
    → 0 < depth
    → Closed (next_depth c depth) s o
    → next_depth c depth ≢ 0
    → Closed depth (c ∷ s) (cons_code c o)
cons_code-Closed depth c s none p h k = λ n. closed n
  where
    closed : (n : ℕ) → count b'}' (take n (c ∷ s)) < count b'{' (take n (c ∷ s)) + depth
    closed zero = omega (arith, p)
    closed (suc n) = ground (arith, p, h n, k)
cons_code-Closed depth c s (some t) p ((rest, e), h) k =
    ((rest, ap (λ l. c ∷ l) e), ground (arith, p, h, k))

no_text-Closed : (depth : ℕ) → 0 < depth → Closed depth [] none
no_text-Closed depth p zero = omega (arith, p)
no_text-Closed depth p (suc n) = omega (arith, p)

cut_object-Closed : (depth : ℕ) (s : Text) → 0 < depth → Closed depth s (cut_object depth s)
unfolding cut_object
cut_object-Closed depth [] p = no_text-Closed depth p
cut_object-Closed depth (c ∷ s) p = elim (Bool-cases (nat_beq (next_depth c depth) 0)) [
  | inl e ↦ rw e ((s, refl), ground (arith, p, e))
  | inr e ↦ rw e (
      cons_code-Closed depth c s (cut_object (next_depth c depth) s) p
        (cut_object-Closed (next_depth c depth) s (ground (arith, e))) (ground (arith, e)))
]

-- From an opening brace on, the loop cuts out a beginning of the text with as many closing braces as
-- opening ones; where it finds nothing, every beginning after the brace leaves it open. Braces count
-- wherever they stand, in the texts of the JSON too.
pub cut_object_lem :
    (s : Text)
    → Closed 1 s (cut_object 1 s) × (cut_object 0 (b'{' ∷ s) ≡ cons_code b'{' (cut_object 1 s))
unfolding cut_object
cut_object_lem s = (cut_object-Closed 1 s (omega arith), refl)
