-- ===== src/Hooks/UseTraceMetrics/Laws.antt =====
-- How many samples a range of the trace metrics has (frontend/src/hooks/useTraceMetrics.ts).
use mrboard.Shared.{◌≡◌, ◌≤◌, ◌*◌, ◌/◌, arith, Text, text_eq}
use mrboard.Hooks.UseTraceMetrics.{duration_of, get_step_for_duration}

-- Whatever the name of the range, its step divides it, into at least 20 and at most 144 samples.
get_step_for_duration-duration_of :
    (range : Text)
    → let step = get_step_for_duration (duration_of range) in
      (duration_of range / step * step ≡ duration_of range)
      × (20 ≤ duration_of range / step)
      × (duration_of range / step ≤ 144)
unfolding duration_of get_step_for_duration
get_step_for_duration-duration_of range = (ground arith, ground arith, ground arith)
