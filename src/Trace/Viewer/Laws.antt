-- ===== src/Trace/Viewer/Laws.antt =====
-- The guards of the search of traces (frontend/src/pages/log/TraceViewer.tsx).
use mrboard.Shared.{
  ◌≡◌, ◌↔◌, refl, ℕ, zero, suc, true, none, some, [], ◌∷◌, arith, length, All, Text, lit,
  Bool-cases, inl, inr,
}
use mrboard.Trace.Viewer.{Viewer, is_hex, matches_hex, handle_span_id_search}

abbrev pub IsHex : Text → Type 0
IsHex s = All (λ c. is_hex c ≡ true) s

matches_hex_sound : (n : ℕ) (s : Text) → matches_hex n s ≡ true → (length s ≡ n) × IsHex s
unfolding matches_hex
matches_hex_sound zero [] h = (refl, tt)
matches_hex_sound zero (c ∷ s) h = absurd (ground (arith, h))
matches_hex_sound (suc n) [] h = absurd (ground (arith, h))
matches_hex_sound (suc n) (c ∷ s) h =
    let (l, a) = matches_hex_sound n s (ground (arith, h)) in
    (omega (arith, l), (ground (arith, h), a))

matches_hex_complete : (n : ℕ) (s : Text) → length s ≡ n → IsHex s → matches_hex n s ≡ true
unfolding matches_hex
matches_hex_complete zero [] l a = refl
matches_hex_complete zero (c ∷ s) l a = absurd (omega (arith, l))
matches_hex_complete (suc n) [] l a = absurd (omega (arith, l))
matches_hex_complete (suc n) (c ∷ s) l (h, a) =
    let ih = matches_hex_complete n s (omega (arith, l)) a in ground (arith, h, ih)

-- A search by span is sent exactly if the id has 32 code units and each is a hexadecimal digit; what is
-- sent then is the id as it was typed, and where nothing is sent, nothing begins to load.
pub handle_span_id_search_lem :
    (s : Viewer)
    → (((handle_span_id_search s).1
          ≡ some ((lit "clusterId", s.cluster_id) ∷ (lit "spanID", s.span_id) ∷ []))
        ↔ ((length s.span_id ≡ 32) × IsHex s.span_id))
      × ((handle_span_id_search s).1 ≡ none → (handle_span_id_search s).0.loading ≡ s.loading)
unfolding handle_span_id_search
handle_span_id_search_lem s = elim (Bool-cases (matches_hex 32 s.span_id)) [
  | inl e ↦
      rw e ((((λ _. matches_hex_sound 32 s.span_id e), (λ _. refl))), (λ h. ground (arith, h)))
  | inr e ↦ rw e (
    ((λ h. ground (arith, h)), (λ h. ground (arith, e, matches_hex_complete 32 s.span_id h.0 h.1))),
    (λ _. refl),
  )
]
