-- ===== src/Mesh/Reconnection/Tests.antt =====
-- The theorems on reconnection at concrete inputs.
use edgecoder.Prelude.{◌≡◌, none, some, List, [], ◌∷◌, min, max, ltb}
use edgecoder.Mesh.Reconnection.{Draw, init, should_retry, get_attempt_count}
use edgecoder.Mesh.Reconnection.Attempts.{Call, schedules, succeeds, run, attempts_counted}

abbrev draw : Draw
draw = record { num = 3; den = 4 }

abbrev calls : List Call
calls =
    schedules 5 draw
    ∷ succeeds 5
    ∷ schedules 5 draw
    ∷ schedules 6 draw
    ∷ schedules 5 draw
    ∷ schedules 5 draw
    ∷ []

attempts_counted_example :
    (get_attempt_count 5 (run calls (init none none (some 2))) ≡ min (max 1 2) 3)
    × (should_retry 5 (run calls (init none none (some 2))) ≡ ltb 3 (max 1 2))
attempts_counted_example = attempts_counted none none (some 2) 5 calls
