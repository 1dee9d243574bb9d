-- ===== src/Security/AnomalyDetector.antt =====
-- src/security/anomaly-detector.ts: the ten rules and `AnomalyDetector.evaluate`. An event carries the
-- figures that its description prints; the text round them is left out, and so is the rule's name,
-- which its identifier fixes.
pub mod Verdicts
use edgecoder.Prelude.{
  ℕ, ◌+◌, ◌*◌, Bool, true, false, ◌&&◌, ◌||◌, not, Option, none, some, List, [], ◌∷◌, ltb, leb,
  ◌==◌, if◌then◌else◌,
}
use edgecoder.Security.Behavior.{
  Ratio, less, whole, AgentBehaviorStats, SecurityLevel, warn, high, critical, BlacklistReasonCode,
  policy_violation, credential_abuse, dos_behavior, forged_results,
}

pub data RuleId : Type 0 where
  bhv001 bhv002 bhv003 bhv004 bhv005 bhv006 bhv007 bhv008 bhv009 bhv010 : RuleId

-- `stats`: the figures of each rule, in the order in which the rule lists them.
pub data Figures : Type 0 where
  fast : ℕ → Ratio → Figures
  empty_outputs : ℕ → ℕ → Figures
  identical : ℕ → Figures
  successes : Ratio → ℕ → Figures
  violations : ℕ → ℕ → Figures
  gap : ℕ → ℕ → Figures
  claims : ℕ → ℕ → Figures
  registrations : ℕ → Figures
  variance : Ratio → ℕ → Figures
  output_length : Ratio → ℕ → Ratio → Figures

pub record AnomalyEvent : Type 0 where
  pub rule_id : RuleId
  pub severity : SecurityLevel
  pub blacklist_reason : BlacklistReasonCode
  pub figures : Figures

pub record AnomalyConfig : Type 0 where
  pub suspiciously_fast_min_count : ℕ
  pub suspiciously_fast_avg_threshold_ms : ℕ
  pub mass_empty_min_count : ℕ
  pub mass_empty_ratio_threshold : Ratio
  pub duplicate_forgery_consecutive_min : ℕ
  pub success_collapse_min_tasks : ℕ
  pub success_collapse_rate_threshold : Ratio
  pub protocol_abuse_threshold : ℕ
  pub heartbeat_gap_threshold_ms : ℕ
  pub task_hoarding_concurrent_multiplier : ℕ
  pub task_hoarding_requeue_threshold : ℕ
  pub task_hoarding_max_concurrent : ℕ
  pub registration_storm_threshold : ℕ
  pub registration_storm_window_ms : ℕ
  pub robot_precision_std_dev_threshold : ℕ
  pub robot_precision_min_tasks : ℕ
  pub tiny_output_avg_length_threshold : ℕ
  pub tiny_output_min_tasks : ℕ
  pub tiny_output_min_success_rate : Ratio

abbrev pub default_anomaly_config : AnomalyConfig
default_anomaly_config = record {
  suspiciously_fast_min_count = 3;
  suspiciously_fast_avg_threshold_ms = 1000;
  mass_empty_min_count = 5;
  mass_empty_ratio_threshold = record { num = 6; den = 10 };
  duplicate_forgery_consecutive_min = 3;
  success_collapse_min_tasks = 10;
  success_collapse_rate_threshold = record { num = 15; den = 100 };
  protocol_abuse_threshold = 5;
  heartbeat_gap_threshold_ms = 5 * 60 * 1000;
  task_hoarding_concurrent_multiplier = 2;
  task_hoarding_requeue_threshold = 8;
  task_hoarding_max_concurrent = 1;
  registration_storm_threshold = 10;
  registration_storm_window_ms = 10 * 60 * 1000;
  robot_precision_std_dev_threshold = 50;
  robot_precision_min_tasks = 10;
  tiny_output_avg_length_threshold = 10;
  tiny_output_min_tasks = 5;
  tiny_output_min_success_rate = record { num = 8; den = 10 };
}

-- The event if the condition holds, else `null`.
abbrev report : Bool → RuleId → SecurityLevel → BlacklistReasonCode → Figures → Option AnomalyEvent
report c id level why figures =
    if c
    then some (record { rule_id = id; severity = level; blacklist_reason = why; figures = figures })
    else none

abbrev pub AnomalyRule : Type 0
AnomalyRule = AgentBehaviorStats → AnomalyConfig → Option AnomalyEvent

abbrev pub suspiciously_fast : AnomalyRule
suspiciously_fast stats config =
    report
      (leb config.suspiciously_fast_min_count stats.suspiciously_fast_count
        && less stats.avg_duration_ms (whole config.suspiciously_fast_avg_threshold_ms))
      bhv001 critical forged_results (fast stats.suspiciously_fast_count stats.avg_duration_ms)

abbrev pub mass_empty_outputs : AnomalyRule
mass_empty_outputs stats config =
    if stats.total_tasks == 0
    then none
    else report
        (leb config.mass_empty_min_count stats.empty_output_count
          && less config.mass_empty_ratio_threshold
              (record { num = stats.empty_output_count; den = stats.total_tasks }))
        bhv002 high forged_results (empty_outputs stats.empty_output_count stats.total_tasks)

abbrev pub duplicate_forgery : AnomalyRule
duplicate_forgery stats config =
    report (leb config.duplicate_forgery_consecutive_min stats.identical_output_count) bhv003
      critical forged_results (identical stats.identical_output_count)

abbrev pub success_collapse : AnomalyRule
success_collapse stats config =
    report
      (leb config.success_collapse_min_tasks stats.total_tasks
        && less stats.success_rate config.success_collapse_rate_threshold)
      bhv004 high policy_violation (successes stats.success_rate stats.total_tasks)

abbrev pub protocol_abuse : AnomalyRule
protocol_abuse stats config =
    let total = stats.signature_failure_count + stats.replay_attempt_count in
    report (leb config.protocol_abuse_threshold total) bhv005 critical credential_abuse
      (violations stats.signature_failure_count stats.replay_attempt_count)

abbrev pub heartbeat_manipulation : AnomalyRule
heartbeat_manipulation stats config =
    report
      (ltb config.heartbeat_gap_threshold_ms stats.heartbeat_gap_max_ms
        && ltb 0 stats.task_claim_count)
      bhv006 high dos_behavior (gap stats.heartbeat_gap_max_ms stats.task_claim_count)

abbrev pub task_hoarding : AnomalyRule
task_hoarding stats config =
    let concurrent_threshold =
      config.task_hoarding_concurrent_multiplier * config.task_hoarding_max_concurrent in
    report
      (ltb concurrent_threshold stats.concurrent_claim_count
        || leb config.task_hoarding_requeue_threshold stats.requeue_count)
      bhv007 high dos_behavior (claims stats.concurrent_claim_count stats.requeue_count)

abbrev pub registration_storm : AnomalyRule
registration_storm stats config =
    report (leb config.registration_storm_threshold stats.registration_count) bhv008 high
      dos_behavior (registrations stats.registration_count)

-- `durationStdDev < t` is tested by the squares, which order alike.
abbrev pub robot_precision : AnomalyRule
robot_precision stats config =
    report
      (less stats.duration_variance (
          whole
            (config.robot_precision_std_dev_threshold * config.robot_precision_std_dev_threshold))
        && leb config.robot_precision_min_tasks stats.total_tasks)
      bhv009 warn forged_results (variance stats.duration_variance stats.total_tasks)

abbrev pub tiny_outputs : AnomalyRule
tiny_outputs stats config =
    report
      (less stats.avg_output_length (whole config.tiny_output_avg_length_threshold)
        && (leb config.tiny_output_min_tasks stats.total_tasks
            && less config.tiny_output_min_success_rate stats.success_rate))
      bhv010 warn forged_results
      (output_length stats.avg_output_length stats.total_tasks stats.success_rate)

abbrev pub all_rules : List AnomalyRule
all_rules =
    suspiciously_fast ∷ mass_empty_outputs ∷ duplicate_forgery ∷ success_collapse ∷ protocol_abuse
    ∷ heartbeat_manipulation ∷ task_hoarding ∷ registration_storm ∷ robot_precision ∷ tiny_outputs
    ∷ []

pub evaluate_rules : List AnomalyRule → AgentBehaviorStats → AnomalyConfig → List AnomalyEvent
evaluate_rules [] stats config = []
evaluate_rules (rule ∷ rules) stats config =
    let rest = evaluate_rules rules stats config in
    elim (rule stats config) [ none ↦ rest | some event ↦ event ∷ rest ]

pub evaluate : AgentBehaviorStats → AnomalyConfig → List AnomalyEvent
evaluate stats config = evaluate_rules all_rules stats config
