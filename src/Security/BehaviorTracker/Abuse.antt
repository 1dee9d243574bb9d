-- ===== src/Security/BehaviorTracker/Abuse.antt =====
-- src/security: what the tracker, the detector and the automatic blacklist do together, as the
-- coordinator calls them one after the other.
use edgecoder.Prelude.{ℕ, ◌+◌, ◌≤◌, ◌≡◌, true, Option, some, List, Ident, arith, is_some, or_else}
use edgecoder.Security.Behavior.{AgentBehaviorStats}
use edgecoder.Security.BehaviorTracker.{
  signature_failure, replay_attempt, default_window_ms, new_tracker, prune_window, protocol_time,
}
use edgecoder.Security.BehaviorTracker.Stats.{get_stats, count_kind}
use edgecoder.Security.BehaviorTracker.Calls.{Call, run, violations_of, AllNotAfter}
use edgecoder.Security.BehaviorTracker.Counts.{violations_counted}
use edgecoder.Security.AnomalyDetector.{AnomalyEvent, AnomalyConfig, evaluate}
use edgecoder.Security.AutoBlacklister.{AutoBlacklister, process_anomalies}
use edgecoder.Security.AutoBlacklister.Actions.{protocol_abuser_blacklisted}

-- Whose signature failures and replays within the window, in any history of a new tracker, number at
-- least the threshold of the detector is blacklisted as soon as the figures of the tracker are
-- evaluated and the events are processed, whatever strikes it had.
pub abuse_caught :
    {Output : Type 0} (hash_output : Output → Ident) (output_length : Output → ℕ)
    (sha256_json : List AnomalyEvent → Ident) (window : Option ℕ) (cs : List (Call Output))
    (agent : Ident) (now : ℕ) (stats : AgentBehaviorStats) (config : AnomalyConfig)
    (b : AutoBlacklister)
    → AllNotAfter now cs
    → (get_stats agent now (run hash_output output_length cs (new_tracker window))).1 ≡ some stats
    → config.protocol_abuse_threshold
      ≤ count_kind signature_failure (
          prune_window protocol_time
            (or_else window default_window_ms)
            now
            (violations_of agent cs))
        + count_kind replay_attempt (
            prune_window protocol_time
              (or_else window default_window_ms)
              now
              (violations_of agent cs))
    → is_some (process_anomalies sha256_json agent (evaluate stats config) now b).1 ≡ true
abuse_caught hash_output output_length sha256_json window cs agent now stats config b order h many =
    let (s, r, l) =
      violations_counted hash_output output_length window cs agent now stats order h in
    protocol_abuser_blacklisted sha256_json agent stats config now b (omega (arith, s, r, many))
