-- ===== src/Security/AutoBlacklister/Tests.antt =====
-- The theorems on the anomaly detector and the automatic blacklist at concrete inputs.
use edgecoder.Prelude.{
  ◌+◌, ◌≡◌, inr, refl, true, some, List, [], ◌∷◌, arith, Ident, is_some, length,
}
use edgecoder.Security.Behavior.{
  AgentBehaviorStats, whole, warn, high, critical, forged_results, dos_behavior, credential_abuse,
}
use edgecoder.Security.AnomalyDetector.{
  AnomalyEvent, bhv005, bhv008, bhv009, registrations, variance, violations,
}
use edgecoder.Security.AutoBlacklister.{
  AutoBlacklister, BlacklistAction, process_anomalies, add_strikes, build_blacklist_action,
  by_severity, insert_event,
}
use edgecoder.Security.AutoBlacklister.Strikes.{blacklists_iff}

-- Six bad signatures and replays, and else nothing odd.
abbrev abuser : AgentBehaviorStats
abuser = record {
  total_tasks = 4;
  success_count = 4;
  success_rate = whole 1;
  empty_output_count = 0;
  identical_output_count = 0;
  recent_output_hashes = [];
  avg_output_length = whole 90;
  avg_duration_ms = whole 4000;
  min_duration_ms = 3000;
  duration_variance = whole 90000;
  suspiciously_fast_count = 0;
  signature_failure_count = 4;
  replay_attempt_count = 2;
  rate_limit_hit_count = 0;
  registration_count = 1;
  task_claim_count = 4;
  task_claim_rate = whole 1;
  requeue_count = 0;
  concurrent_claim_count = 1;
  heartbeat_gap_max_ms = 2000;
  window_start_ms = 0;
  window_end_ms = 3600000;
}

abbrev storm : AnomalyEvent
storm = record {
  rule_id = bhv008;
  severity = high;
  blacklist_reason = dos_behavior;
  figures = registrations 12;
}

abbrev precise : AnomalyEvent
precise = record {
  rule_id = bhv009;
  severity = warn;
  blacklist_reason = forged_results;
  figures = variance (whole 4) 20;
}

abbrev violation : AnomalyEvent
violation = record {
  rule_id = bhv005;
  severity = critical;
  blacklist_reason = credential_abuse;
  figures = violations 4 2;
}

-- A stand-in for the hash of the evidence.
abbrev sha : List AnomalyEvent → Ident
sha events = 7 + length events

abbrev fresh : AutoBlacklister
fresh = record { strike_window_ms = 3600000; strike_threshold = 3; strikes = [] }

blacklists_iff_example :
    is_some (process_anomalies sha 3 (precise ∷ storm ∷ storm ∷ []) 50 fresh).1 ≡ true
blacklists_iff_example =
    (blacklists_iff sha 3 (precise ∷ storm ∷ storm ∷ []) 50 fresh).1
      (inr (omega arith, omega arith))

abbrev action : BlacklistAction
action = record {
  agent_id = 3;
  reason_code = dos_behavior;
  reason_rules = bhv009 ∷ bhv008 ∷ bhv009 ∷ [];
  reason_figures = registrations 12;
  evidence_hash = 10;
  anomaly_events = precise ∷ storm ∷ precise ∷ [];
}

third_strike : (process_anomalies sha 3 (precise ∷ storm ∷ precise ∷ []) 50 fresh).1 ≡ some action
unfolding process_anomalies add_strikes build_blacklist_action by_severity insert_event
third_strike = refl
