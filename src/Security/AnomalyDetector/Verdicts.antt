-- ===== src/Security/AnomalyDetector/Verdicts.antt =====
-- src/security/anomaly-detector.ts: which events an evaluation reports.
use edgecoder.Prelude.{
  ◌+◌, ◌≡◌, ◌↔◌, ◌⊎◌, refl, sym, ap, ◌∙◌, inl, inr, Bool, true, false, Option, none, some, List, [],
  ◌∷◌, In, here, there, In-cons, arith, ◌||◌, any, leb, Option-cases,
}
use edgecoder.Security.Behavior.{AgentBehaviorStats, critical, less, whole}
use edgecoder.Security.AnomalyDetector.{
  AnomalyEvent, AnomalyConfig, AnomalyRule, evaluate_rules, evaluate, all_rules, suspiciously_fast,
  duplicate_forgery, protocol_abuse, mass_empty_outputs, success_collapse, heartbeat_manipulation,
  task_hoarding, registration_storm, robot_precision, tiny_outputs,
}

abbrev pub is_critical : AnomalyEvent → Bool
is_critical event = elim event.severity [ critical ↦ true | _ ↦ false ]

-- The rules after the fifth, and after the third.
abbrev from_heartbeat : List AnomalyRule
from_heartbeat =
    heartbeat_manipulation ∷ task_hoarding ∷ registration_storm ∷ robot_precision ∷ tiny_outputs
    ∷ []

abbrev from_success : List AnomalyRule
from_success = success_collapse ∷ protocol_abuse ∷ from_heartbeat

-- What a rule adds to the search for a critical event.
abbrev loud : Option AnomalyEvent → Bool
loud none = false
loud (some event) = is_critical event

module _ (stats : AgentBehaviorStats) (config : AnomalyConfig) where
  reported_by_rule :
      (event : AnomalyEvent) (rules : List AnomalyRule)
      → In event (evaluate_rules rules stats config)
      → (rule : AnomalyRule) × In rule rules × (rule stats config ≡ some event)
  unfolding evaluate_rules
  reported_by_rule event [] m = elim m [ ]
  reported_by_rule event (rule ∷ rules) m = elim (Option-cases (rule stats config)) [
    | inl e ↦ let (r, i, q) = reported_by_rule event rules (rw e at m) in (r, there i, q)
    | inr (x, e) ↦ elim (In-cons (rw e at m)) [
      | inl same ↦ (rule, here, e ∙ ap some (sym same))
      | inr n ↦ let (r, i, q) = reported_by_rule event rules n in (r, there i, q)
    ]
  ]

  rule_reports :
      (event : AnomalyEvent) (rule : AnomalyRule) (rules : List AnomalyRule)
      → In rule rules
      → rule stats config ≡ some event
      → In event (evaluate_rules rules stats config)
  unfolding evaluate_rules
  rule_reports event rule [] i e = elim i [ ]
  rule_reports event rule (other ∷ rules) i e = elim (Option-cases (other stats config)) [
    | inl n ↦ elim (In-cons i) [ inl same ↦ cc | inr j ↦ rw n (rule_reports event rule rules j e) ]
    | inr (x, n) ↦ elim (In-cons i) [
      | inl same ↦ let q : x ≡ event = ground arith in rw (n, q) here
      | inr j ↦ rw n (there (rule_reports event rule rules j e))
    ]
  ]

  any_critical-cons :
      (rule : AnomalyRule) (rules : List AnomalyRule)
      → any is_critical (evaluate_rules (rule ∷ rules) stats config)
        ≡ (loud (rule stats config) || any is_critical (evaluate_rules rules stats config))
  unfolding evaluate_rules
  any_critical-cons rule rules = elim (Option-cases (rule stats config)) [
    | inl e ↦ rw e refl
    | inr (x, e) ↦ rw e refl
  ]

  quiet-skipped :
      (rule : AnomalyRule) (rules : List AnomalyRule)
      → loud (rule stats config) ≡ false
      → any is_critical (evaluate_rules (rule ∷ rules) stats config)
        ≡ any is_critical (evaluate_rules rules stats config)
  quiet-skipped rule rules q = rw (any_critical-cons rule rules, q) refl

  calm-all : any is_critical (evaluate_rules from_heartbeat stats config) ≡ false
  unfolding evaluate_rules
  calm-all =
      quiet-skipped heartbeat_manipulation
        (task_hoarding ∷ registration_storm ∷ robot_precision ∷ tiny_outputs ∷ []) ground arith
      ∙ quiet-skipped task_hoarding (registration_storm ∷ robot_precision ∷ tiny_outputs ∷ [])
          ground arith
      ∙ quiet-skipped registration_storm (robot_precision ∷ tiny_outputs ∷ []) ground arith
      ∙ quiet-skipped robot_precision (tiny_outputs ∷ []) ground arith
      ∙ quiet-skipped tiny_outputs [] ground arith

  any_critical-all : any is_critical (evaluate_rules all_rules stats config) ≡ (
      loud (suspiciously_fast stats config)
      || (loud (duplicate_forgery stats config) || loud (protocol_abuse stats config)))
  any_critical-all =
      any_critical-cons suspiciously_fast (mass_empty_outputs ∷ duplicate_forgery ∷ from_success)
      ∙ ap (λ b. loud (suspiciously_fast stats config) || b)
          (quiet-skipped mass_empty_outputs (duplicate_forgery ∷ from_success) ground arith
            ∙ any_critical-cons duplicate_forgery from_success
            ∙ ap (λ b. loud (duplicate_forgery stats config) || b)
                (quiet-skipped success_collapse (protocol_abuse ∷ from_heartbeat) ground arith
                  ∙ any_critical-cons protocol_abuse from_heartbeat
                  ∙ ap (λ b. loud (protocol_abuse stats config) || b) calm-all
                  ∙ ground arith))

-- An evaluation reports an event exactly when one of the ten rules yields it.
pub evaluate_iff :
    (event : AnomalyEvent) (stats : AgentBehaviorStats) (config : AnomalyConfig)
    → In event (evaluate stats config)
      ↔ ((rule : AnomalyRule) × In rule all_rules × (rule stats config ≡ some event))
unfolding evaluate
evaluate_iff event stats config = (
  reported_by_rule stats config event all_rules,
  λ found. rule_reports stats config event found.0 all_rules found.1 found.2,
)

-- An evaluation reports a critical event exactly when results come too fast, are repeated, or the
-- protocol is abused.
pub critical_iff :
    (stats : AgentBehaviorStats) (config : AnomalyConfig)
    → (any is_critical (evaluate stats config) ≡ true) ↔ (
        ((leb config.suspiciously_fast_min_count stats.suspiciously_fast_count ≡ true)
          × (less stats.avg_duration_ms (whole config.suspiciously_fast_avg_threshold_ms) ≡ true))
        ⊎ ((leb config.duplicate_forgery_consecutive_min stats.identical_output_count ≡ true)
            ⊎ (leb config.protocol_abuse_threshold
                  (stats.signature_failure_count + stats.replay_attempt_count)
                ≡ true)))
unfolding evaluate
critical_iff stats config = let e = any_critical-all stats config in ground arith
