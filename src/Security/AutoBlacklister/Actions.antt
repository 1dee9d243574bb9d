-- ===== src/Security/AutoBlacklister/Actions.antt =====
-- src/security/auto-blacklister.ts: what an action says, and who is blacklisted at once.
use edgecoder.Prelude.{
  ℕ, ◌+◌, ◌≤◌, ◌≡◌, inl, inr, true, some, List, [], ◌∷◌, le→leb, ◌++◌, map, Ident, arith,
  Option-cases, is_some, find, In,
}
use edgecoder.Security.AnomalyDetector.{AnomalyEvent, evaluate, AnomalyConfig}
use edgecoder.Security.AnomalyDetector.Verdicts.{is_critical, critical_iff}
use edgecoder.Security.Behavior.{AgentBehaviorStats}
use edgecoder.Security.AutoBlacklister.{
  AutoBlacklister, BlacklistAction, recent_strikes, strike_at, event_of, first, by_severity,
  build_blacklist_action, add_strikes, process_anomalies,
}
use edgecoder.Security.AutoBlacklister.Primary.{build-primary, Leads}
use edgecoder.Security.AutoBlacklister.Strikes.{blacklists_iff}

action-built :
    (sha256_json : List AnomalyEvent → Ident) (agent_id : Ident) (anomalies : List AnomalyEvent)
    (now : ℕ) (b : AutoBlacklister) (action : BlacklistAction)
    → (process_anomalies sha256_json agent_id anomalies now b).1 ≡ some action
    → (events : List AnomalyEvent) × (build_blacklist_action sha256_json agent_id events
        ≡ some action)
unfolding process_anomalies add_strikes
action-built sha256_json agent_id [] now b action e = ground arith
action-built sha256_json agent_id (x ∷ xs) now b action e =
    let strikes = recent_strikes agent_id now b ++ map (strike_at now) (x ∷ xs) in
    elim (Option-cases (find is_critical (x ∷ xs))) [
      | inl n ↦ (map event_of strikes, ground arith)
      | inr (a, n) ↦ (x ∷ xs, ground arith)
    ]

-- An action is about the agent whose anomalies were processed.
pub action-agent_id :
    (sha256_json : List AnomalyEvent → Ident) (agent_id : Ident) (anomalies : List AnomalyEvent)
    (now : ℕ) (b : AutoBlacklister) (action : BlacklistAction)
    → (process_anomalies sha256_json agent_id anomalies now b).1 ≡ some action
    → action.agent_id ≡ agent_id
unfolding build_blacklist_action
action-agent_id sha256_json agent_id anomalies now b action e =
    let (events, built) = action-built sha256_json agent_id anomalies now b action e in
    elim (Option-cases (first (by_severity events))) [
      | inl n ↦ ground arith
      | inr (p, n) ↦ ground arith
    ]

-- The reason code of the action that a call returns is that of an event of its
-- evidence that no event of the evidence exceeds in severity.
pub action_most_severe :
    (sha256_json : List AnomalyEvent → Ident) (agent_id : Ident) (anomalies : List AnomalyEvent)
    (now : ℕ) (b : AutoBlacklister) (action : BlacklistAction)
    → (process_anomalies sha256_json agent_id anomalies now b).1 ≡ some action
    → (p : AnomalyEvent) × In p action.anomaly_events
      × Leads p action.anomaly_events
      × (action.reason_code ≡ p.blacklist_reason)
action_most_severe sha256_json agent_id anomalies now b action e =
    let (events, built) = action-built sha256_json agent_id anomalies now b action e in
    let (p, m, h, code, same) = build-primary sha256_json agent_id events action built in
    (p, rw same m, rw same h, code)

-- Who breaks the protocol as often as the threshold of the detector says is blacklisted at once, whatever
-- strikes it had before.
pub protocol_abuser_blacklisted :
    (sha256_json : List AnomalyEvent → Ident) (agent_id : Ident) (stats : AgentBehaviorStats)
    (config : AnomalyConfig) (now : ℕ) (b : AutoBlacklister)
    → config.protocol_abuse_threshold ≤ stats.signature_failure_count + stats.replay_attempt_count
    → is_some (process_anomalies sha256_json agent_id (evaluate stats config) now b).1 ≡ true
protocol_abuser_blacklisted sha256_json agent_id stats config now b h =
    let c = (critical_iff stats config).1 (
      inr (
        inr (
          le→leb config.protocol_abuse_threshold
            (stats.signature_failure_count + stats.replay_attempt_count) h))) in
    (blacklists_iff sha256_json agent_id (evaluate stats config) now b).1 (inl c)
