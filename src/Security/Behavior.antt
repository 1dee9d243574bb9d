-- ===== src/Security/Behavior.antt =====
-- The figures of src/security/behavior-tracker.ts that the rules read, and the reason codes and
-- levels that they report. The code keeps averages and rates as doubles; here they are exact
-- fractions. A standard deviation is known by its square, which is a fraction.
use edgecoder.Prelude.{ℕ, ◌*◌, Bool, ltb, List, Ident}

-- `num / den` with a positive `den`.
pub record Ratio : Type 0 where
  pub num : ℕ
  pub den : ℕ

-- `a < b`
abbrev pub less : Ratio → Ratio → Bool
less a b = ltb (a.num * b.den) (b.num * a.den)

abbrev pub whole : ℕ → Ratio
whole n = record { num = n; den = 1 }

pub record AgentBehaviorStats : Type 0 where
  pub total_tasks : ℕ
  pub success_count : ℕ
  pub success_rate : Ratio
  pub empty_output_count : ℕ
  pub identical_output_count : ℕ
  pub recent_output_hashes : List Ident
  pub avg_output_length : Ratio
  pub avg_duration_ms : Ratio
  pub min_duration_ms : ℕ
  pub duration_variance : Ratio
  pub suspiciously_fast_count : ℕ
  pub signature_failure_count : ℕ
  pub replay_attempt_count : ℕ
  pub rate_limit_hit_count : ℕ
  pub registration_count : ℕ
  pub task_claim_count : ℕ
  pub task_claim_rate : Ratio
  pub requeue_count : ℕ
  pub concurrent_claim_count : ℕ
  pub heartbeat_gap_max_ms : ℕ
  pub window_start_ms : ℕ
  pub window_end_ms : ℕ

-- src/audit/security-events.ts: `SecurityLevel`.
pub data SecurityLevel : Type 0 where
  info warn high critical : SecurityLevel

-- src/common/types.ts: `BlacklistReasonCode`.
pub data BlacklistReasonCode : Type 0 where
  abuse_spam abuse_malware policy_violation credential_abuse dos_behavior : BlacklistReasonCode
  forged_results manual_review tampered_binary : BlacklistReasonCode
