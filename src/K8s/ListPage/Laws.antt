-- ===== src/K8s/ListPage/Laws.antt =====
-- What holds of a list of resources whatever happens on its page, in any order
-- (frontend/src/pages/k8s/HttpRouteList.tsx and the other lists of this form).
use mrboard.Shared.{
  ◌++◌, suc, zero, true, none, ◌≡◌, ◌≤◌, refl, ap, ℕ, zero, suc, ◌+◌, ◌-◌, ◌*◌, true, false, none,
  List, [], ◌∷◌, arith, Text, keep, length, drop, take,
}
use mrboard.Session.Api.{resolved, thrown}
use mrboard.Deploy.Page.{page_of}
use mrboard.K8s.ListPage.{
  Kind, ListPage, Event, refresh, arrived, search, choose_ns, go_to, pick, cancel, confirm,
  answered, time_passed, is_shown, filter_effect, fetch_data, data_arrived, set_search_name,
  set_ns_filter, paged, handle_delete, delete_answered, time_out, on_event, open_page,
}

module _ {A : Type 0} (kind : Kind A) (lower : Text → Text) where
  abbrev pub after : List (Event A) → ListPage A → ListPage A
  after [] s = s
  after (e ∷ es) s = after es (on_event kind lower e s)

  -- The filtered items are those of the current items that pass the current filters.
  abbrev IsSynced : ListPage A → Type 0
  IsSynced s = s.filtered ≡ keep (is_shown kind lower s.search_name s.ns_filter) s.items

  event-IsSynced : (e : Event A) (s : ListPage A) → IsSynced s → IsSynced (on_event kind lower e s)
  unfolding on_event fetch_data data_arrived set_search_name set_ns_filter handle_delete
      delete_answered time_out filter_effect
  event-IsSynced refresh s h = h
  event-IsSynced (arrived true (resolved ds)) s h = refl
  event-IsSynced (arrived false (resolved ds)) s h = refl
  event-IsSynced (arrived true (thrown message)) s h = h
  event-IsSynced (arrived false (thrown message)) s h = h
  event-IsSynced (search text) s h = ground (arith, h)
  event-IsSynced (choose_ns ns) s h = ground (arith, h)
  event-IsSynced (go_to n) s h = h
  event-IsSynced (pick item) s h = h
  event-IsSynced cancel s h = h
  event-IsSynced confirm s h = ground (arith, h)
  event-IsSynced (answered outcome) s h = h
  event-IsSynced time_passed s h = ground (arith, h)

  after-IsSynced : (es : List (Event A)) (s : ListPage A) → IsSynced s → IsSynced (after es s)
  after-IsSynced [] s h = h
  after-IsSynced (e ∷ es) s h = after-IsSynced es (on_event kind lower e s) (event-IsSynced e s h)

  -- Whatever happens on the page after it opens, in any order, its list shows exactly the loaded
  -- items that pass the search and the namespace, which are then chosen.
  pub after-filtered :
      (es : List (Event A)) (cluster_id : Text)
      → let s = after es (open_page kind lower cluster_id) in
        s.filtered ≡ keep (is_shown kind lower s.search_name s.ns_filter) s.items
  unfolding open_page keep
  after-filtered es cluster_id = after-IsSynced es (open_page kind lower cluster_id) refl

  -- What waits is counted.
  record IsCounted (s : ListPage A) : Type 0 where
    loads : s.loud_fetches ≡ 0 → s.loading ≡ false
    marks : s.deletions + s.timeouts ≡ 0 → s.operating_deploy ≡ none

  event-IsCounted :
      (e : Event A) (s : ListPage A) → IsCounted s → IsCounted (on_event kind lower e s)
  unfolding on_event fetch_data data_arrived set_search_name set_ns_filter handle_delete
      delete_answered time_out filter_effect
  event-IsCounted refresh s h = ground (arith, h)
  event-IsCounted (arrived true (resolved ds)) s h = ground (arith, h)
  event-IsCounted (arrived false (resolved ds)) s h = ground (arith, h)
  event-IsCounted (arrived true (thrown message)) s h = ground (arith, h)
  event-IsCounted (arrived false (thrown message)) s h = ground (arith, h)
  event-IsCounted (search text) s h = ground (arith, h)
  event-IsCounted (choose_ns ns) s h = ground (arith, h)
  event-IsCounted (go_to n) s h = ground (arith, h)
  event-IsCounted (pick item) s h = ground (arith, h)
  event-IsCounted cancel s h = ground (arith, h)
  event-IsCounted confirm s h = ground (arith, h)
  event-IsCounted (answered outcome) s h = ground (arith, h)
  event-IsCounted time_passed s h = ground (arith, h)

  after-IsCounted : (es : List (Event A)) (s : ListPage A) → IsCounted s → IsCounted (after es s)
  after-IsCounted [] s h = h
  after-IsCounted (e ∷ es) s h =
      after-IsCounted es (on_event kind lower e s) (event-IsCounted e s h)

  open_page-IsCounted : (cluster_id : Text) → IsCounted (open_page kind lower cluster_id)
  unfolding open_page
  open_page-IsCounted cluster_id = ground arith

  -- Whatever happens on the page after it opens, in any order: once each request of the list that
  -- shows a spinner is answered, none is shown, and once each deletion is answered, by a success or
  -- a failure, and its timeout has passed, no row is marked as operated on.
  pub after-quiet :
      (es : List (Event A)) (cluster_id : Text)
      → let s = after es (open_page kind lower cluster_id) in
        (s.loud_fetches ≡ 0 → s.loading ≡ false)
        × (s.deletions + s.timeouts ≡ 0 → s.operating_deploy ≡ none)
  after-quiet es cluster_id =
      let c =
        after-IsCounted es (open_page kind lower cluster_id) (open_page-IsCounted cluster_id) in
      (c.loads, c.marks)

  drop_all : (n : ℕ) (xs : List A) → length xs ≤ n → drop n xs ≡ []
  drop_all zero [] h = refl
  drop_all zero (x ∷ xs) h = absurd (omega (arith, h))
  drop_all (suc n) [] h = refl
  drop_all (suc n) (x ∷ xs) h = drop_all n xs (omega (arith, h))

  drop-append : (n : ℕ) (xs ys : List A) → length xs ≡ n → drop n (xs ++ ys) ≡ ys
  drop-append zero [] ys h = refl
  drop-append zero (x ∷ xs) ys h = absurd (omega (arith, h))
  drop-append (suc n) [] ys h = absurd (omega (arith, h))
  drop-append (suc n) (x ∷ xs) ys h = drop-append n xs ys (omega (arith, h))

  keep_all : (xs : List A) → keep (λ (x : A). true) xs ≡ xs
  unfolding keep
  keep_all [] = refl
  keep_all (x ∷ xs) = ap (λ l. x ∷ l) (keep_all xs)

  -- The last item of a list of 20 k + 1 is shown on page k + 1, alone, and is deleted there.
  abbrev pub deletion_of_last : ℕ → List A → A → List (Event A)
  deletion_of_last k ds x =
      arrived false (resolved (ds ++ x ∷ []))
      ∷ go_to (suc k)
      ∷ pick x
      ∷ confirm
      ∷ answered (resolved tt)
      ∷ []

  -- Where 20 k items fill k pages and one item stands alone on the next page, its deletion leaves the
  -- page where it is: before the list is fetched again the item is still shown, alone; after it is, the
  -- page still has the number k + 1 and shows no row, though all 20 k items are in the list.
  pub paged-deletion_of_last :
      (k : ℕ) (ds : List A) (x : A) (cluster_id : Text)
      → length ds ≡ k * 20
      → let s = after (deletion_of_last k ds x) (open_page kind lower cluster_id) in
        let t = data_arrived kind lower true (resolved ds) s in
        (paged kind lower s ≡ x ∷ [])
        × (paged kind lower t ≡ [])
        × (t.page ≡ suc k)
        × (t.filtered ≡ ds)
  unfolding on_event fetch_data data_arrived handle_delete delete_answered filter_effect open_page
      paged page_of
  paged-deletion_of_last k ds x cluster_id h =
      let n : (suc k - 1) * 20 ≡ k * 20 = omega arith in
      rw (n, keep_all (ds ++ x ∷ []), keep_all ds)
        (
          ap (take 20) (drop-append (k * 20) ds (x ∷ []) h),
          ap (take 20) (drop_all (k * 20) ds (omega (arith, h))),
          refl,
          refl,
        )
