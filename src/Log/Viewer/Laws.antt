-- ===== src/Log/Viewer/Laws.antt =====
-- The toggles of the log viewer and what its polling asks (frontend/src/pages/log/LogViewer.tsx).
use mrboard.Shared.{
  ◌≡◌, refl, ℕ, Bool, true, false, not, List, [], ◌∷◌, if◌then◌else◌, ◌==◌, arith, Text, text_eq,
  text_beq_iff, is_truthy,
}
use mrboard.Shared.Members.{includes, includes-toggle}
use mrboard.Session.Api.{Outcome, resolved}
use mrboard.Log.Entry.{LogEntry, HistogramBucket}
use mrboard.Log.Viewer.{
  Viewer, LevelCount, open_viewer, toggle_level, toggle_row, toggle_service, toggle_auto_refresh,
  all_levels, select_namespace, poll, polls, fetch_all, logs_arrived, handle_query, services_effect,
  summary_effect, histogram_arrived, levels_arrived, bucket_arrived,
}
use mrboard.Log.Viewer.Query.{build_params, level_params}

-- The abstract view of a Set: which values are in it. A toggle flips one.
abbrev flip : Text → (Text → Bool) → Text → Bool
flip a has b = if a == b then not (has b) else has b

abbrev flip_all : List Text → (Text → Bool) → Text → Bool
flip_all [] has = has
flip_all (a ∷ clicks) has = flip_all clicks (flip a has)

abbrev pub toggle_levels : List Text → Viewer → Viewer
toggle_levels [] s = s
toggle_levels (a ∷ clicks) s = toggle_levels clicks (toggle_level a s)

-- The parity of the clicks on a level.
abbrev is_odd : Text → List Text → Bool
is_odd b [] = false
is_odd b (a ∷ clicks) = if a == b then not (is_odd b clicks) else is_odd b clicks

-- Any clicks on the levels leave a level on exactly if it was on and was clicked an even number of
-- times, or was off and was clicked an odd number of times: the order of the clicks is forgotten.
pub toggle_levels_lem :
    (clicks : List Text) (s : Viewer) (b : Text)
    → includes (toggle_levels clicks s).active_levels b
      ≡ (if is_odd b clicks then not (includes s.active_levels b) else includes s.active_levels b)
unfolding toggle_level
toggle_levels_lem [] s b = refl
toggle_levels_lem (a ∷ clicks) s b = ground (
  arith,
  toggle_levels_lem clicks (toggle_level a s) b,
  includes-toggle s.active_levels a b,
  text_beq_iff a b,
)

-- With no level chosen the requests are those of all four levels.
build_params-no_levels :
    (print : ℕ → Text) (now : ℕ) (s : Viewer)
    → build_params print now (record s { active_levels = [] })
      ≡ build_params print now (record s { active_levels = all_levels })
unfolding build_params level_params
build_params-no_levels print now s = refl

-- What happens to the page.
pub data Step (s : Viewer) : Viewer → Type 0 where
  choose : (ns : Text) → Step s (select_namespace ns s)
  ask : Step s (handle_query s).0
  refresh : Step s (toggle_auto_refresh s)
  interval : Step s (poll s).0
  level : (l : Text) → Step s (toggle_level l s)
  row : (idx : ℕ) → Step s (toggle_row idx s)
  service : (svc : Text) → Step s (toggle_service svc s)
  search : (text : Text) → Step s (record s { search_text = text })
  range : (r : Text) → Step s (record s { time_range = r })
  services : Step s (services_effect s)
  summary : Step s (summary_effect s).0
  bars : (outcome : Outcome (List HistogramBucket)) → Step s (histogram_arrived outcome s)
  counts : (outcome : Outcome (List LevelCount)) → Step s (levels_arrived outcome s)
  rows : (outcome : Outcome (List LogEntry × ℕ)) → Step s (logs_arrived outcome s)
  bucket : (outcome : Outcome (List LogEntry × ℕ)) → Step s (bucket_arrived outcome s)

pub data Reach (cluster_id : Text) : Viewer → Type 0 where
  opened : Reach cluster_id (open_viewer cluster_id)
  later : {s t : Viewer} → Reach cluster_id s → Step s t → Reach cluster_id t

abbrev IsHonest : Viewer → Type 0
IsHonest s = s.auto_refresh ≡ true → (is_truthy s.namespace ≡ true) × (s.has_queried ≡ true)

Step-IsHonest : (s : Viewer) {t : Viewer} → IsHonest s → Step s t → IsHonest t
unfolding select_namespace handle_query toggle_auto_refresh poll toggle_level toggle_row
    toggle_service services_effect summary_effect histogram_arrived levels_arrived logs_arrived
    bucket_arrived fetch_all
Step-IsHonest s h (choose ns) = λ e. ground (arith, e)
Step-IsHonest s h ask = λ e. ground (arith, h, e)
Step-IsHonest s h refresh = λ e. ground (arith, h, e)
Step-IsHonest s h interval = λ e. ground (arith, h, e)
Step-IsHonest s h (level l) = h
Step-IsHonest s h (row idx) = h
Step-IsHonest s h (service svc) = h
Step-IsHonest s h (search text) = h
Step-IsHonest s h (range r) = h
Step-IsHonest s h services = λ e. ground (arith, h, e)
Step-IsHonest s h summary = λ e. ground (arith, h, e)
Step-IsHonest s h (bars outcome) = λ e. ground (arith, h, e)
Step-IsHonest s h (counts outcome) = λ e. ground (arith, h, e)
Step-IsHonest s h (rows outcome) = λ e. ground (arith, h, e)
Step-IsHonest s h (bucket outcome) = λ e. ground (arith, h, e)

Reach-IsHonest : {cluster_id : Text} {s : Viewer} → Reach cluster_id s → IsHonest s
unfolding open_viewer
Reach-IsHonest opened = λ e. ground (arith, e)
Reach-IsHonest (later {s} r step) = Step-IsHonest s (Reach-IsHonest r) step

-- After any sequence of events the page polls exactly if 自动刷新 is on: the other conditions of the
-- effect, that a namespace is chosen and that hasQueried is set, then hold too. The choice of any
-- namespace, or of none, ends the polling, and the button pressed after it does not start it again.
pub Reach-polls :
    {cluster_id : Text} {s : Viewer}
    → Reach cluster_id s
    → (ns : Text)
    → (polls s ≡ s.auto_refresh)
      × (s.auto_refresh ≡ true → (is_truthy s.namespace ≡ true) × (s.has_queried ≡ true))
      × (polls (select_namespace ns s) ≡ false)
      × (polls (toggle_auto_refresh (select_namespace ns s)) ≡ false)
unfolding polls select_namespace toggle_auto_refresh
Reach-polls {s = s} r ns =
    (ground (arith, Reach-IsHonest r), Reach-IsHonest r, ground arith, ground arith)

-- The answer to a click on the histogram that comes after the choice of another namespace sets
-- hasQueried, so that the button then starts to poll a namespace that no query was made for.
polls-bucket_arrived :
    (ns : Text) (answer : List LogEntry × ℕ) (s : Viewer)
    → is_truthy ns ≡ true
    → polls (toggle_auto_refresh (bucket_arrived (resolved answer) (select_namespace ns s))) ≡ true
unfolding polls select_namespace toggle_auto_refresh bucket_arrived
polls-bucket_arrived ns answer s h = ground (arith, h)
