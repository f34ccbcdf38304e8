-- ===== src/Log/Drilldown/Laws.antt =====
-- What the queries and the live tail guarantee (frontend/src/pages/log/LogDrilldown.tsx).
use mrboard.Shared.{
  ◌≡◌, ◌∙◌, refl, sym, ap, ℕ, zero, suc, ◌≤◌, ◌++◌, Bool, true, false, none, some, List, [], ◌∷◌,
  arith, if◌then◌else◌, Text, text_eq, is_truthy, take, length, length-take-le, append_assoc,
  Bool-cases, inl, inr,
}
use mrboard.Log.Entry.{LogEntry}
use mrboard.Log.Filters.{FilterState}
use mrboard.Log.Filters.Reducers.{toggle_label_value, toggle_field_value, set_logql}
use mrboard.Log.Drilldown.{build_base_params}
use mrboard.Log.Drilldown.State.{summary, fetch_expanded_logs, Socket, Drilldown}
use mrboard.Log.Drilldown.Tail.{tail_effect, on_message, on_close, handle_expand_service}

take-cons_take {ℓ} :
    {A : Type ℓ} (n : ℕ) (x : A) (xs : List A) → take n (x ∷ take n xs) ≡ take n (x ∷ xs)
take-cons_take zero x xs = refl
take-cons_take (suc zero) x xs = refl
take-cons_take (suc (suc n)) x [] = refl
take-cons_take (suc (suc n)) x (y ∷ ys) = ap (λ l. x ∷ l) (take-cons_take (suc n) y ys)

take-take {ℓ} : {A : Type ℓ} (n : ℕ) (xs : List A) → take n (take n xs) ≡ take n xs
take-take zero xs = refl
take-take (suc n) [] = refl
take-take (suc n) (x ∷ xs) = ap (λ l. x ∷ l) (take-take n xs)

take-append_take {ℓ} :
    {A : Type ℓ} (n : ℕ) (ys xs : List A) → take n (ys ++ take n xs) ≡ take n (ys ++ xs)
take-append_take n [] xs = take-take n xs
take-append_take zero (y ∷ ys) xs = refl
take-append_take (suc n) (y ∷ ys) xs =
    sym (take-cons_take (suc n) y (ys ++ take (suc n) xs))
    ∙ (ap (λ l. take (suc n) (y ∷ l)) (take-append_take (suc n) ys xs)
        ∙ take-cons_take (suc n) y (ys ++ xs))

-- The entries that arrive one after the other, the newest first.
abbrev newest_first : List LogEntry → List LogEntry
newest_first [] = []
newest_first (e ∷ es) = newest_first es ++ e ∷ []

abbrev receive : Socket → List LogEntry → Drilldown → Drilldown
receive ws [] p = p
receive ws (e ∷ es) p = receive ws es (on_message ws (some e) p)

take_all {ℓ} : {A : Type ℓ} (n : ℕ) (xs : List A) → length xs ≤ n → take n xs ≡ xs
take_all zero [] h = refl
take_all (suc n) [] h = refl
take_all zero (x ∷ xs) h = elim (no_room (length xs) h) [ ]
  where
    no_room : (m : ℕ) → suc m ≤ 0 → ⊥
    no_room m h = omega arith
take_all (suc n) (x ∷ xs) h = ap (λ l. x ∷ l) (take_all n xs (omega arith))

-- The list after each entry was put in front and the list cut to n.
abbrev push_all : ℕ → List LogEntry → List LogEntry → List LogEntry
push_all n [] xs = xs
push_all n (e ∷ es) xs = push_all n es (take n (e ∷ xs))

push_all_lem :
    (n : ℕ) (es xs : List LogEntry)
    → length xs ≤ n
    → push_all n es xs ≡ take n (newest_first es ++ xs)
push_all_lem n [] xs h = sym (take_all n xs h)
push_all_lem n (e ∷ es) xs h =
    push_all_lem n es (take n (e ∷ xs)) (length-take-le n (e ∷ xs))
    ∙ (take-append_take n (newest_first es) (e ∷ xs)
        ∙ ap (take n) (sym (append_assoc (newest_first es) (e ∷ []) xs)))

receive-push_all :
    (es : List LogEntry) (ws : Socket) (p : Drilldown)
    → ((receive ws es p).preview_logs
        ≡ (if ws.into_expanded then p.preview_logs else push_all 10 es p.preview_logs))
      × ((receive ws es p).expanded_logs
          ≡ (if ws.into_expanded then push_all 500 es p.expanded_logs else p.expanded_logs))
unfolding on_message
receive-push_all [] ws p = (ground arith, ground arith)
receive-push_all (e ∷ es) ws p = elim (Bool-cases ws.into_expanded) [
  | inl into ↦
      let rest =
        receive-push_all es ws (record p { expanded_logs = take 500 (e ∷ p.expanded_logs) }) in
      (ground (arith, rest.0), ground (arith, rest.1))
  | inr out ↦
      let rest =
        receive-push_all es ws (record p { preview_logs = take 10 (e ∷ p.preview_logs) }) in
      (ground (arith, rest.0), ground (arith, rest.1))
]

-- From lists that hold at most ten and 500 entries, whatever entries the socket delivers: one that was
-- opened in the summary view puts them before the preview, the newest first and cut to ten, and
-- leaves the expanded logs; one of the expanded view puts them there, cut to 500, and leaves the
-- preview.
receive_lem :
    (es : List LogEntry) (ws : Socket) (p : Drilldown)
    → length p.preview_logs ≤ 10
    → length p.expanded_logs ≤ 500
    → ((receive ws es p).preview_logs ≡ (
        if ws.into_expanded then p.preview_logs else take 10 (newest_first es ++ p.preview_logs)))
      × ((receive ws es p).expanded_logs ≡ (
          if ws.into_expanded
          then take 500 (newest_first es ++ p.expanded_logs)
          else p.expanded_logs))
receive_lem es ws p h k =
    let (preview, logs) = receive-push_all es ws p in
    (
      ground (arith, preview, push_all_lem 10 es p.preview_logs h),
      ground (arith, logs, push_all_lem 500 es p.expanded_logs k),
    )

-- With the live tail on in the summary view, the choice of a service opens a new socket; the close event
-- of the old one then switches the tail off and closes the new socket.
handle_expand_service-on_close :
    (print : ℕ → Text) (now : ℕ) (service : Text) (p : Drilldown)
    → p.live_tail ≡ true
    → p.view_mode ≡ summary
    → is_truthy p.cluster_id ≡ true
    → is_truthy service ≡ true
    → let shown = (handle_expand_service print now service p).0 in
      (shown.socket ≡ some (record { into_expanded = true }))
      × (shown.live_tail ≡ true)
      × ((on_close shown).live_tail ≡ false)
      × ((on_close shown).socket ≡ none)
unfolding handle_expand_service on_close tail_effect fetch_expanded_logs
handle_expand_service-on_close print now service p h v c s =
    (ground arith, ground arith, ground arith, ground arith)

-- The excluded labels, the fields and the excluded fields have no influence on the parameters that all
-- requests of the explorer are built from, and the LogQL text has none either.
build_base_params_ignores :
    (print : ℕ → Text) (now : ℕ) (cluster_id time_range name value logql : Text) (exclude : Bool)
    (fs : FilterState)
    → let params = λ (f : FilterState). build_base_params print now cluster_id f time_range in
      (params (toggle_label_value name value true fs) ≡ params fs)
      × (params (toggle_field_value name value exclude fs) ≡ params fs)
      × (params (set_logql logql fs) ≡ params fs)
unfolding build_base_params toggle_label_value toggle_field_value set_logql
build_base_params_ignores print now cluster_id time_range name value logql true fs =
    (refl, refl, refl)
build_base_params_ignores print now cluster_id time_range name value logql false fs =
    (refl, refl, refl)
