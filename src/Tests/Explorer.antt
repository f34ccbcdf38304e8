-- ===== src/Tests/Explorer.antt =====
-- The log explorer and the hooks at concrete states (frontend/src/pages/log/LogDrilldown.tsx,
-- frontend/src/hooks).
use mrboard.Shared.{◌≡◌, refl, text_eq, lit}
use mrboard.Shared.Assoc.{get}
use mrboard.Log.Filters.{empty_filter_state}
use mrboard.Log.Drilldown.{build_logql_display}

display_test : build_logql_display empty_filter_state ≡ lit "{}"
unfolding build_logql_display get
display_test = refl
