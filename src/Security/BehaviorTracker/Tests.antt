-- ===== src/Security/BehaviorTracker/Tests.antt =====
-- The theorems on the behaviour tracker at concrete inputs.
use edgecoder.Prelude.{ℕ, ◌+◌, ◌≡◌, refl, true, some, List, [], ◌∷◌, Ident, arith, length}
use edgecoder.Security.Behavior.{AgentBehaviorStats, whole}
use edgecoder.Security.AnomalyDetector.{AnomalyEvent}
use edgecoder.Security.AutoBlacklister.{AutoBlacklister}
use edgecoder.Security.BehaviorTracker.{
  signature_failure, replay_attempt, rate_limit_hit, new_tracker, prune_window, protocol_time,
  record_task_result, record_protocol_violation, record_heartbeat,
}
use edgecoder.Security.BehaviorTracker.Stats.{
  get_stats, count_kind, identical_outputs, longest_run, least, variance_of, by_time, insert_time,
  greatest_gap,
}
use edgecoder.Security.BehaviorTracker.Calls.{
  Call, results, heartbeats, violates, run, violations_of,
}
use edgecoder.Security.BehaviorTracker.Counts.{violations_counted}

abbrev pub hash : ℕ → Ident
hash output = output + 1

abbrev pub size : ℕ → ℕ
size output = output

-- Of seven violations in a window of 100 ms one is too old at 200.
abbrev pub calls : List (Call ℕ)
calls =
    violates 3 signature_failure 20
    ∷ heartbeats 3 90
    ∷ violates 3 signature_failure 110
    ∷ violates 3 replay_attempt 120
    ∷ violates 4 replay_attempt 120
    ∷ violates 3 replay_attempt 130
    ∷ results 3 true 7 900 140
    ∷ violates 3 signature_failure 150
    ∷ violates 3 signature_failure 160
    ∷ heartbeats 3 190
    ∷ []

abbrev pub figures : AgentBehaviorStats
figures = record {
  total_tasks = 1;
  success_count = 1;
  success_rate = record { num = 1; den = 1 };
  empty_output_count = 0;
  identical_output_count = 0;
  recent_output_hashes = 8 ∷ [];
  avg_output_length = record { num = 7; den = 1 };
  avg_duration_ms = record { num = 900; den = 1 };
  min_duration_ms = 900;
  duration_variance = whole 0;
  suspiciously_fast_count = 0;
  signature_failure_count = 3;
  replay_attempt_count = 2;
  rate_limit_hit_count = 0;
  registration_count = 0;
  task_claim_count = 0;
  task_claim_rate = record { num = 0; den = 100 };
  requeue_count = 0;
  concurrent_claim_count = 0;
  heartbeat_gap_max_ms = 0;
  window_start_ms = 100;
  window_end_ms = 200;
}

pub asked : (get_stats 3 200 (run hash size calls (new_tracker (some 100)))).1 ≡ some figures
unfolding get_stats run record_task_result record_protocol_violation record_heartbeat
    identical_outputs longest_run least variance_of by_time insert_time greatest_gap
asked = refl

violations_counted_example :
    (figures.signature_failure_count
      ≡ count_kind signature_failure (prune_window protocol_time 100 200 (violations_of 3 calls)))
    × (figures.replay_attempt_count
        ≡ count_kind replay_attempt (prune_window protocol_time 100 200 (violations_of 3 calls)))
    × (figures.rate_limit_hit_count
        ≡ count_kind rate_limit_hit (prune_window protocol_time 100 200 (violations_of 3 calls)))
violations_counted_example =
    violations_counted hash size (some 100) calls 3 200 figures (omega arith) asked

abbrev pub sha : List AnomalyEvent → Ident
sha events = 7 + length events

abbrev pub no_strikes : AutoBlacklister
no_strikes = record { strike_window_ms = 3600000; strike_threshold = 3; strikes = [] }
