-- ===== src/Deploy/Rollout/Laws.antt =====
-- The wait for a restart ends (frontend/src/pages/deploy/DeployList.tsx).
use mrboard.Shared.{
  ◌≡◌, ◌<◌, ◌⊎◌, refl, ℕ, ◌+◌, ◌++◌, true, false, none, List, [], ◌∷◌, suc, arith, Text,
}
use mrboard.Session.Api.{Outcome, resolved, thrown}
use mrboard.Deploy.Item.{DeployListItem}
use mrboard.Deploy.Rollout.{Rollout, tick, poll_answered, time_out}

-- What may happen while a restart is awaited.
pub data Event : Type 0 where
  ticks : Event
  answers : Outcome (List DeployListItem) → Event
  times_out : Event

abbrev on_event : Text → Event → Rollout → Rollout
on_event name ticks s = tick s
on_event name (answers outcome) s = poll_answered name outcome s
on_event name times_out s = time_out s

abbrev pub after : Text → List Event → Rollout → Rollout
after name [] s = s
after name (e ∷ es) s = after name es (on_event name e s)

abbrev tick_count : List Event → ℕ
tick_count [] = 0
tick_count (ticks ∷ es) = suc (tick_count es)
tick_count (_ ∷ es) = tick_count es

-- The poll is over: no timeout is to come that would not remove the marks, or they are gone.
IsMarked : Rollout → Type 0
IsMarked s = s.polling ≡ false → (s.operating_deploy ≡ none) ⊎ (0 < s.timeouts)

event-IsMarked : (name : Text) (e : Event) (s : Rollout) → IsMarked s → IsMarked (on_event name e s)
unfolding IsMarked tick poll_answered time_out
event-IsMarked name ticks s h = ground (arith, h)
event-IsMarked name (answers (resolved ds)) s h = ground (arith, h)
event-IsMarked name (answers (thrown message)) s h = ground (arith, h)
event-IsMarked name times_out s h = ground (arith, h)

-- The interval counts its ticks, as long as it is not cleared; then it stays cleared.
event-retries :
    (name : Text) (e : Event) (s : Rollout)
    → (on_event name e s).polling ≡ true
    → (s.polling ≡ true) × ((on_event name e s).retries ≡ tick_count (e ∷ []) + s.retries)
unfolding tick poll_answered time_out
event-retries name ticks s h = ground (arith, h)
event-retries name (answers (resolved ds)) s h = ground (arith, h)
event-retries name (answers (thrown message)) s h = ground (arith, h)
event-retries name times_out s h = ground (arith, h)

tick_count_cons :
    (e : Event) (es : List Event) → tick_count (e ∷ es) ≡ tick_count (e ∷ []) + tick_count es
tick_count_cons ticks es = omega arith
tick_count_cons (answers outcome) es = omega arith
tick_count_cons times_out es = omega arith

after-retries :
    (name : Text) (es : List Event) (s : Rollout)
    → (after name es s).polling ≡ true
    → (s.polling ≡ true) × ((after name es s).retries ≡ tick_count es + s.retries)
after-retries name [] s h = (h, omega arith)
after-retries name (e ∷ es) s h =
    let (p, n) = after-retries name es (on_event name e s) h in
    let (q, m) = event-retries name e s p in (q, omega (arith, n, m, tick_count_cons e es))

after-IsMarked :
    (name : Text) (es : List Event) (s : Rollout) → IsMarked s → IsMarked (after name es s)
after-IsMarked name [] s h = h
after-IsMarked name (e ∷ es) s h =
    after-IsMarked name es (on_event name e s) (event-IsMarked name e s h)

after-append :
    (name : Text) (es ds : List Event) (s : Rollout)
    → after name (es ++ ds) s ≡ after name ds (after name es s)
after-append name [] ds s = refl
after-append name (e ∷ es) ds s = after-append name es ds (on_event name e s)

answer-polling :
    (name : Text) (outcome : Outcome (List DeployListItem)) (s : Rollout)
    → (s.polling ≡ true → 30 < s.retries)
    → (poll_answered name outcome s).polling ≡ false
unfolding poll_answered
answer-polling name (resolved ds) s h = ground (arith, h)
answer-polling name (thrown message) s h = ground (arith, h)

time_out-unmarks :
    (s : Rollout)
    → (s.operating_deploy ≡ none) ⊎ (0 < s.timeouts)
    → (time_out s).operating_deploy ≡ none
unfolding time_out
time_out-unmarks s h = ground (arith, h)

-- While a restart is awaited, let the interval tick more than 30 times, with answers, failures and
-- timeouts between the ticks in any order. Then the next answer or failure leaves the interval
-- cleared, and the deployment is no longer marked as operated on once a timeout, if there is one,
-- has passed.
pub poll_answered-ends :
    (name : Text) (es : List Event) (outcome : Outcome (List DeployListItem)) (s : Rollout)
    → s.polling ≡ true
    → 30 < tick_count es
    → let t = after name (es ++ answers outcome ∷ []) s in
      (t.polling ≡ false) × ((time_out t).operating_deploy ≡ none)
unfolding IsMarked
poll_answered-ends name es outcome s p n =
    let before = after name es s in
    let t = after name (es ++ answers outcome ∷ []) s in
    let last = after-append name es (answers outcome ∷ []) s in
    let stopped : t.polling ≡ false = rw last (
      answer-polling name outcome before
        (λ q. let (_, m) = after-retries name es s q in omega (arith, m, n))) in
    let marked = after-IsMarked name (es ++ answers outcome ∷ []) s (λ q. ground (arith, p, q)) in
    (stopped, time_out-unmarks t (marked stopped))
