-- ===== src/Metrics/Explorer/Cards/Laws.antt =====
-- When a card waits (frontend/src/pages/monitor/PrometheusMetrics.tsx).
use mrboard.Shared.{
  ◌≡◌, refl, ℕ, zero, suc, ◌-◌, Bool, true, false, not, ◌||◌, ◌&&◌, Option, none, some, List, [],
  ◌∷◌, if◌then◌else◌, ◌==◌, nat_eq, arith, Text, text_eq, text_beq_iff, is_some, is_truthy, ◌≢◌,
  lit, length, get_elem?, Option-cases, Bool-cases, inl, inr,
}
use mathlib.Core.Option
use mrboard.Metrics.AutoQuery.{detect_metric_info}
use mrboard.Shared.Assoc.{get, put, get-put}
use mrboard.Shared.Members.{includes}
use mrboard.Session.Api.{Outcome, resolved, thrown}
use mrboard.Metrics.Chart.{MetricSeries}
use mrboard.Metrics.Explorer.{MetricCard, Cards, QueryAnswer, accepted}
use mrboard.Metrics.Explorer.Cards.{
  metric_arrived, add_cards, load_cards, fail_card, fill_card, accept_series, new_card, set_loading,
  last_sample, last_text, last_value_of,
}

abbrev loads : Option MetricCard → Bool
loads none = false
loads (some c) = c.loading

abbrev pub is_loading : Text → Cards → Bool
is_loading name cards = loads (get name cards)

-- What a card `c` becomes, told by its fields: it keeps what it had and shows the message,
abbrev IsFailed : Text → MetricCard → MetricCard → Type 0
IsFailed message c d =
    (d.loading ≡ false)
    × (d.error ≡ some message)
    × (d.series ≡ c.series)
    × (d.last_value ≡ c.last_value)
    × (d.unit ≡ c.unit)

-- the text of the last of some samples, or "-",
abbrev shown_value : (Text → Text) → Option (ℕ × Text) → Text
shown_value format none = lit "-"
shown_value format (some (t, v)) = format v

abbrev first_samples : List MetricSeries → List (ℕ × Text)
first_samples [] = []
first_samples (s ∷ series) = s.samples

-- or it shows the series, and the last value of the first.
abbrev IsFilled : (Text → Text) → Text → List MetricSeries → MetricCard → Type 0
IsFilled format name series d =
    let samples = first_samples series in
    (d.loading ≡ false)
    × (d.error ≡ none)
    × (d.series ≡ series)
    × (d.last_value ≡ shown_value format (get_elem? samples (length samples - 1)))
    × (d.unit ≡ (detect_metric_info name).unit)

abbrev IsParsed :
    (Text → Text) → Text → Outcome (List MetricSeries) → MetricCard → MetricCard → Type 0
IsParsed format name (thrown message) c d = IsFailed message c d
IsParsed format name (resolved series) c d = IsFilled format name series d

-- A successful answer counts if its code is 0 and it has a text.
abbrev IsAccepted :
    (Text → Outcome (List MetricSeries))
    → (Text → Text)
    → Text
    → Text
    → Bool
    → MetricCard
    → MetricCard
    → Type 0
IsAccepted parse format name raw true c d = IsParsed format name (parse raw) c d
IsAccepted parse format name raw false c d = d ≡ c

abbrev pub Becomes :
    (Text → Outcome (List MetricSeries))
    → (Text → Text)
    → Text
    → Outcome QueryAnswer
    → MetricCard
    → MetricCard
    → Type 0
Becomes parse format name (thrown message) c d = IsFailed message c d
Becomes parse format name (resolved a) c d =
    IsAccepted parse format name a.raw (a.code == 0 && is_truthy a.raw) c d

last_sample-get_elem? :
    (xs : List (ℕ × Text)) (n : ℕ)
    → length xs ≡ suc n
    → last_sample xs ≡ Option.map (λ (p : ℕ × Text). p.1) (get_elem? xs n)
last_sample-get_elem? [] n h = absurd (omega (arith, h))
last_sample-get_elem? ((t, v) ∷ []) zero h = refl
last_sample-get_elem? ((t, v) ∷ []) (suc n) h = absurd (omega (arith, h))
last_sample-get_elem? (p ∷ q ∷ xs) zero h = absurd (omega (arith, h))
last_sample-get_elem? (p ∷ q ∷ xs) (suc n) h = last_sample-get_elem? (q ∷ xs) n (omega (arith, h))

last_text-get_elem? :
    (format : Text → Text) (xs : List (ℕ × Text))
    → last_text format (last_sample xs) ≡ shown_value format (get_elem? xs (length xs - 1))
last_text-get_elem? format [] = refl
last_text-get_elem? format (p ∷ xs) =
    let n : length (p ∷ xs) - 1 ≡ length xs = omega arith in
    rw (n, last_sample-get_elem? (p ∷ xs) (length xs) (omega arith))
      (elim (Option-cases (get_elem? (p ∷ xs) (length xs))) [
        | inl e ↦ rw e refl
        | inr ((t, v), e) ↦ rw e refl
      ])

last_value_of_lem :
    (format : Text → Text) (series : List MetricSeries)
    → last_value_of format series
      ≡ shown_value format (get_elem? (first_samples series) (length (first_samples series) - 1))
last_value_of_lem format [] = refl
last_value_of_lem format (s ∷ series) = last_text-get_elem? format s.samples

-- One card becomes what it may, and the other is as it was.
abbrev Placed : (MetricCard → Type 0) → Text → Text → Cards → Cards → Type 0
Placed P name other cards after =
    ((d : MetricCard) × (get name after ≡ some d) × P d)
    × (name ≢ other → get other after ≡ get other cards)

put-Placed :
    (P : MetricCard → Type 0) (name other : Text) (d : MetricCard) (cards : Cards)
    → P d
    → Placed P name other cards (put name d cards)
put-Placed P name other d cards h = (
  (d, ground (arith, get-put name name d cards, text_beq_iff name name), h),
  λ k. ground (arith, k, get-put name other d cards, text_beq_iff name other),
)

fail_card-Placed :
    (name other message : Text) (c : MetricCard) (o : Option MetricCard) (cards : Cards)
    → o ≡ some c
    → Placed (IsFailed message c) name other cards (fail_card name message o cards)
fail_card-Placed name other message c none cards e = absurd (cc)
fail_card-Placed name other message c (some b) cards e =
    put-Placed (IsFailed message c) name other (record b { loading = false; error = some message })
      cards (ground (arith, e))

fill_card-IsFilled :
    (format : Text → Text) (name : Text) (series : List MetricSeries) (o : Option MetricCard)
    → is_some o ≡ true
    → IsFilled format name series (fill_card format name series o)
fill_card-IsFilled format name series none h = absurd (cc)
fill_card-IsFilled format name series (some c) h =
    (refl, refl, refl, last_value_of_lem format series, refl)

accept_series-Placed :
    (format : Text → Text) (name other : Text) (o : Outcome (List MetricSeries)) (c : MetricCard)
    (cards : Cards)
    → get name cards ≡ some c
    → Placed (IsParsed format name o c) name other cards (accept_series format name o cards)
accept_series-Placed format name other (thrown message) c cards e =
    fail_card-Placed name other message c (get name cards) cards e
accept_series-Placed format name other (resolved series) c cards e =
    put-Placed (IsFilled format name series) name other
      (fill_card format name series (get name cards)) cards
      (fill_card-IsFilled format name series (get name cards) (ground (arith, e)))

accepted_lem :
    (a : QueryAnswer) → accepted a ≡ (if a.code == 0 && is_truthy a.raw then some a.raw else none)
accepted_lem a = ground arith

-- What becomes of a card when its request is answered, the card being there. A request that fails, or
-- an accepted answer that cannot be parsed, ends the wait with the message and keeps the series, the
-- value and the unit; an accepted answer that can be parsed ends it with its series, without an
-- error, with the last value of the first series, or "-", and with the unit of the name; any other
-- answer leaves the card exactly as it was, so that it waits on. No other card changes.
pub metric_arrived_lem :
    (parse : Text → Outcome (List MetricSeries)) (format : Text → Text) (name other : Text)
    (outcome : Outcome QueryAnswer) (c : MetricCard) (cards : Cards)
    → get name cards ≡ some c
    → let after = metric_arrived parse format name outcome cards in
      ((d : MetricCard) × (get name after ≡ some d) × Becomes parse format name outcome c d)
      × (name ≢ other → get other after ≡ get other cards)
unfolding metric_arrived
metric_arrived_lem parse format name other (thrown message) c cards e =
    fail_card-Placed name other message c (get name cards) cards e
metric_arrived_lem parse format name other (resolved a) c cards e =
    elim (Bool-cases (a.code == 0 && is_truthy a.raw)) [
      | inl k ↦
          rw (k, accepted_lem a, k) (accept_series-Placed format name other (parse a.raw) c cards e)
      | inr k ↦ rw (k, accepted_lem a, k) ((c, e, refl), λ _. refl)
    ]

set_loading-lem :
    (n m : Text) (o : Option MetricCard) (cards : Cards)
    → get n cards ≡ o
    → (is_loading m (set_loading n o cards)
        ≡ (if n == m then is_some (get n cards) else is_loading m cards))
      × (is_some (get m (set_loading n o cards)) ≡ is_some (get m cards))
set_loading-lem n m none cards e = ground (arith, e, text_beq_iff n m)
set_loading-lem n m (some c) cards e =
    ground (arith, e, text_beq_iff n m, get-put n m (record c { loading = true }) cards)

load_cards_lem :
    (names : List Text) (m : Text) (cards : Cards)
    → is_loading m (load_cards names cards)
      ≡ ((includes names m && is_some (get m cards)) || is_loading m cards)
unfolding load_cards includes
load_cards_lem [] m cards = refl
load_cards_lem (n ∷ names) m cards = ground (
  arith,
  set_loading-lem n m (get n cards) cards refl,
  load_cards_lem names m (set_loading n (get n cards) cards),
  text_beq_iff n m,
)

-- What `add_cards` does for a name.
AddedCard : List Text → Text → Cards → Cards → Type 0
AddedCard names m cards after =
    (is_some (get m after) ≡ (includes names m || is_some (get m cards)))
    × (is_loading m after
        ≡ ((includes names m && not (is_some (get m cards))) || is_loading m cards))

add_cards_lem :
    (names : List Text) (m : Text) (cards : Cards) → AddedCard names m cards (add_cards names cards)
unfolding add_cards includes AddedCard
add_cards_lem [] m cards = (refl, refl)
add_cards_lem (n ∷ names) m cards = ground (
  arith,
  add_cards_lem names m (if is_some (get n cards) then cards else put n (new_card n) cards),
  get-put n m (new_card n) cards,
  text_beq_iff n m,
)

-- The effect that fetches the visible metrics leaves a card for each of them that waits for its
-- answer, and no other card begins to wait or ceases to.
load_cards-add_cards :
    (names : List Text) (m : Text) (cards : Cards)
    → is_loading m (load_cards names (add_cards names cards))
      ≡ (includes names m || is_loading m cards)
unfolding AddedCard
load_cards-add_cards names m cards =
    ground (arith, load_cards_lem names m (add_cards names cards), add_cards_lem names m cards)
