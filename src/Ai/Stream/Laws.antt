-- ===== src/Ai/Stream/Laws.antt =====
-- How a stream is cut into chunks does not matter (frontend/src/pages/ai/AIAnalysis.tsx).
use mrboard.Shared.{
  ◌≡◌, refl, sym, ap, ap₂, ◌≢◌, All, All-append, subst, ◌∙◌, ◌++◌, append_assoc, append-nil, ℕ,
  Bool-cases, inl, inr, Option, List, [], ◌∷◌, nat_beq, arith, Text, split_from, split, init,
  concat,
}
use mrboard.Ai.Stream.{
  Reading, Data, start_reading, last_line, handle_line, handle_lines, read_data, feed, read_stream,
}

-- The lines of a text, for a head and a rest.
pub IsCons : List Text → Type 0
IsCons lines = (x : Text) × (rest : List Text) × (lines ≡ x ∷ rest)

pub split_from-IsCons : (c : ℕ) (cur s : Text) → IsCons (split_from c cur s)
unfolding split_from IsCons
split_from-IsCons c cur [] = (cur, [], refl)
split_from-IsCons c cur (d ∷ s) = elim (Bool-cases (nat_beq c d)) [
  | inl e ↦ rw e (cur, split_from c [] s, refl)
  | inr e ↦ rw e (split_from-IsCons c (cur ++ d ∷ []) s)
]

pub init-append : (xs ys : List Text) → IsCons ys → init (xs ++ ys) ≡ xs ++ init ys
unfolding IsCons
init-append [] ys h = refl
init-append (x ∷ []) ys (y, rest, e) = rw e refl
init-append (x ∷ z ∷ xs) ys h = ap (λ l. x ∷ l) (init-append (z ∷ xs) ys h)

pub last_line-append : (xs ys : List Text) → IsCons ys → last_line (xs ++ ys) ≡ last_line ys
unfolding IsCons
last_line-append [] ys h = refl
last_line-append (x ∷ []) ys (y, rest, e) = rw e refl
last_line-append (x ∷ z ∷ xs) ys h = last_line-append (z ∷ xs) ys h

-- A text that goes on is split as far as it stood, and again from its last line on.
split_from_more :
    (c : ℕ) (cur s t : Text)
    → split_from c cur (s ++ t)
      ≡ init (split_from c cur s) ++ split_from c (last_line (split_from c cur s)) t
unfolding split_from IsCons
split_from_more c cur [] t = refl
split_from_more c cur (d ∷ s) t = elim (Bool-cases (nat_beq c d)) [
  | inl e ↦
      let (x, rest, h) = split_from-IsCons c [] s in
      rw e (ap (λ l. cur ∷ l) (split_from_more c [] s t) ∙ rw h refl)
  | inr e ↦ rw e (split_from_more c (cur ++ d ∷ []) s t)
]

split_from_line :
    (c : ℕ) (cur s t : Text)
    → All (λ d. d ≢ c) s
    → split_from c cur (s ++ t) ≡ split_from c (cur ++ s) t
unfolding split_from
split_from_line c cur [] t h = ap (λ l. split_from c l t) (sym (append-nil cur))
split_from_line c cur (d ∷ s) t (h, hs) =
    ground (arith, split_from_line c (cur ++ d ∷ []) s t hs, append_assoc cur (d ∷ []) s)

All-last_line :
    (c : ℕ) (cur s : Text)
    → All (λ d. d ≢ c) cur
    → All (λ d. d ≢ c) (last_line (split_from c cur s))
unfolding split_from IsCons
All-last_line c cur [] h = h
All-last_line c cur (d ∷ s) h = elim (Bool-cases (nat_beq c d)) [
  | inl e ↦
      let (x, rest, k) = split_from-IsCons c [] s in
      rw e (
        subst (λ l. All (λ b. b ≢ c) (last_line (cur ∷ l))) (sym k)
          (subst (λ l. All (λ b. b ≢ c) (last_line l)) k (All-last_line c [] s tt)))
  | inr e ↦ rw e (
      All-last_line c (cur ++ d ∷ []) s
        (All-append (λ b. b ≢ c) cur (d ∷ []) h (λ k. ground (arith, e, k), tt)))
]

split-append :
    (c : ℕ) (s t : Text)
    → split c (s ++ t) ≡ init (split c s) ++ split c (last_line (split c s) ++ t)
unfolding split
split-append c s t =
    split_from_more c [] s t
    ∙ ap (λ l. init (split_from c [] s) ++ l)
        (sym (split_from_line c [] (last_line (split_from c [] s)) t (All-last_line c [] s tt)))

module _ {J : Type 0} (parse : Text → Option (Data J)) where
  handle_lines-append :
      (xs ys : List Text) (r : Reading J)
      → handle_lines parse (xs ++ ys) r ≡ handle_lines parse ys (handle_lines parse xs r)
  unfolding handle_lines
  handle_lines-append [] ys r = refl
  handle_lines-append (x ∷ xs) ys r = handle_lines-append xs ys (handle_line parse x r)

  buffer-read_data :
      (b : Text) (o : Option Text) (r : Reading J)
      → read_data parse o (record r { buffer = b }) ≡ record (read_data parse o r) { buffer = b }
  buffer-read_data b o r = ground arith

  -- Lines do not look at the buffer.
  buffer-handle_line :
      (b : Text) (line : Text) (r : Reading J)
      → handle_line parse line (record r { buffer = b })
        ≡ record (handle_line parse line r) { buffer = b }
  unfolding handle_line
  buffer-handle_line b line r = ground arith

  buffer-handle_lines :
      (b : Text) (lines : List Text) (r : Reading J)
      → handle_lines parse lines (record r { buffer = b })
        ≡ record (handle_lines parse lines r) { buffer = b }
  unfolding handle_lines
  buffer-handle_lines b [] r = refl
  buffer-handle_lines b (l ∷ lines) r =
      ap (handle_lines parse lines) (buffer-handle_line b l r)
      ∙ buffer-handle_lines b lines (handle_line parse l r)

  -- A chunk is what the lines of a text do and its last line.
  run : List Text → Reading J → Reading J
  run lines r = handle_lines parse (init lines) (record r { buffer = last_line lines })

  run-append :
      (xs lines : List Text) (r : Reading J)
      → IsCons lines
      → run (xs ++ lines) r ≡ run lines (handle_lines parse xs r)
  unfolding run
  run-append xs lines r h =
      ap₂ (λ ls b. handle_lines parse ls (record r { buffer = b })) (init-append xs lines h)
        (last_line-append xs lines h)
      ∙ (handle_lines-append xs (init lines) (record r { buffer = last_line lines })
          ∙ ap (handle_lines parse (init lines)) (buffer-handle_lines (last_line lines) xs r))

  feed-feed : (a b : Text) (r : Reading J) → feed parse b (feed parse a r) ≡ feed parse (a ++ b) r
  unfolding feed run split
  feed-feed a b r =
      let lines = split 10 (r.buffer ++ a) in
      let rest = split 10 (last_line lines ++ b) in
      let joined : split 10 (r.buffer ++ (a ++ b)) ≡ init lines ++ rest =
        ap (split 10) (sym (append_assoc r.buffer a b)) ∙ split-append 10 (r.buffer ++ a) b in
      ap (feed parse b) (buffer-handle_lines (last_line lines) (init lines) r)
      ∙ (sym (run-append (init lines) rest r (split_from-IsCons 10 [] (last_line lines ++ b)))
          ∙ ap (λ l. run l r) (sym joined))

  read_stream-feed :
      (chunks : List Text) (a : Text) (r : Reading J)
      → read_stream parse chunks (feed parse a r) ≡ feed parse (a ++ concat chunks) r
  unfolding read_stream
  read_stream-feed [] a r = ap (λ s. feed parse s r) (sym (append-nil a))
  read_stream-feed (c ∷ chunks) a r =
      ap (read_stream parse chunks) (feed-feed a c r)
      ∙ (read_stream-feed chunks (a ++ c) r
          ∙ ap (λ s. feed parse s r) (append_assoc a c (concat chunks)))

  -- However the network cuts the body into chunks, the loop reads what it reads where the body
  -- arrives at once: the same steps, the same report, the same unread rest.
  pub read_stream_lem :
      (chunks : List Text)
      → read_stream parse chunks start_reading ≡ feed parse (concat chunks) start_reading
  unfolding read_stream feed split split_from handle_lines start_reading
  read_stream_lem [] = refl
  read_stream_lem (c ∷ chunks) = read_stream-feed chunks c start_reading
