-- ===== src/Log/Drilldown/Tail.antt =====
-- The live tail and the two views (frontend/src/pages/log/LogDrilldown.tsx). The effect that opens
-- the socket runs when the tail is switched or the view changes: it closes the open socket and, with
-- the tail on, opens another. The close event of a closed socket comes later, as an event of its own.
use mrboard.Shared.{
  ℕ, Bool, true, false, not, ◌&&◌, Option, none, some, List, [], ◌∷◌, if◌then◌else◌, ◌==◌, Text,
  text_eq, is_truthy, take,
}
use mrboard.Log.Entry.{LogEntry}
use mrboard.Log.Drilldown.State.{
  ViewMode, summary, expanded, Socket, Drilldown, Request, fetch_expanded_logs,
}

-- `viewMode === 'expanded' && expandedService`.
abbrev shows_service : ViewMode → Option Text → Bool
shows_service expanded (some s) = is_truthy s
shows_service _ _ = false

-- The effect.
unfoldable pub tail_effect : Drilldown → Drilldown
tail_effect p = record p {
  socket =
      if p.live_tail && is_truthy p.cluster_id
      then some (record { into_expanded = shows_service p.view_mode p.expanded_service })
      else none;
}

unfoldable toggle_live_tail : Drilldown → Drilldown
unfolding tail_effect
toggle_live_tail p = tail_effect (record p { live_tail = not p.live_tail })

-- A message of the open socket; one that is no JSON changes nothing.
unfoldable pub on_message : Socket → Option LogEntry → Drilldown → Drilldown
on_message ws none p = p
on_message ws (some entry) p =
    if ws.into_expanded
    then record p { expanded_logs = take 500 (entry ∷ p.expanded_logs) }
    else record p { preview_logs = take 10 (entry ∷ p.preview_logs) }

-- The close event of a socket, whose handler was made with the tail on: it switches the tail off,
-- and if it was on, the effect runs.
unfoldable pub on_close : Drilldown → Drilldown
unfolding tail_effect
on_close p = if p.live_tail then tail_effect (record p { live_tail = false }) else p

abbrev same_view : ViewMode → Option Text → Text → Bool
same_view expanded (some s) service = s == service
same_view _ _ service = false

module _ (print : ℕ → Text) (now : ℕ) where
  unfoldable pub handle_expand_service : Text → Drilldown → Drilldown × List Request
  unfolding tail_effect fetch_expanded_logs
  handle_expand_service service p =
      let q = record p { expanded_service = some service; view_mode = expanded } in
      fetch_expanded_logs print now service
        (if same_view p.view_mode p.expanded_service service then q else tail_effect q)

abbrev is_summary : ViewMode → Option Text → Bool
is_summary summary none = true
is_summary _ _ = false

unfoldable handle_back_to_summary : Drilldown → Drilldown
unfolding tail_effect
handle_back_to_summary p =
    let q = record p { view_mode = summary; expanded_service = none; expanded_logs = [] } in
    if is_summary p.view_mode p.expanded_service then q else tail_effect q
