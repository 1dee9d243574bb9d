-- ===== src/Coordinator/Enforcement.antt =====
-- src/swarm/coordinator.ts: `evaluateAndEnforce`, which joins the tracker, the detector and the automatic
-- blacklister to the register of the coordinator. The log lines are left out.
use edgecoder.Prelude.{
  ℕ, ◌+◌, ◌≤◌, ◌≡◌, inl, inr, refl, true, false, Option, none, some, List, [], ◌∷◌, arith,
  if◌then◌else◌, ◌==◌, Ident, is_some, or_else, length, lookup, lookup-insert_self, All,
  Option-cases,
}
use edgecoder.Security.Behavior.{AgentBehaviorStats}
use edgecoder.Security.BehaviorTracker.{
  AgentBehaviorTracker, signature_failure, replay_attempt, default_window_ms, new_tracker,
  prune_window, protocol_time,
}
use edgecoder.Security.BehaviorTracker.Stats.{get_stats, count_kind}
use edgecoder.Security.BehaviorTracker.Calls.{Call, violations_of, AllNotAfter}
use edgecoder.Security.BehaviorTracker.Calls as Tracker
use edgecoder.Security.BehaviorTracker.Abuse.{abuse_caught}
use edgecoder.Security.AnomalyDetector.{AnomalyEvent, AnomalyConfig, evaluate}
use edgecoder.Security.AutoBlacklister.{AutoBlacklister, process_anomalies}
use edgecoder.Security.AutoBlacklister.Actions.{action-agent_id}
use edgecoder.Coordinator.Register.{
  Register, Identity, active_blacklist_record, on_blacklist, action_record, append_blacklist_record,
}
use edgecoder.Coordinator.Register.Expiry.{RegisterCall, run_any, Leaves, refused_until_expiry}

pub record Monitor : Type 0 where
  pub tracker : AgentBehaviorTracker
  pub config : AnomalyConfig
  pub blacklister : AutoBlacklister
  pub register : Register

-- The processing of the events, and the callback if they lead to an action.
unfoldable pub enforce :
    Identity
    → (List AnomalyEvent → Ident)
    → Ident
    → List AnomalyEvent
    → Ident
    → ℕ
    → Monitor
    → Monitor
enforce me sha256_json agent_id anomalies event_id now m =
    let (blacklister, action) =
      process_anomalies sha256_json agent_id anomalies now m.blacklister in
    let m' = record m { blacklister = blacklister } in
    elim action [
      | none ↦ m'
      | some a ↦ record m' { register = on_blacklist me a event_id now m.register }
    ]

unfoldable pub evaluate_and_enforce :
    Identity → (List AnomalyEvent → Ident) → Ident → Ident → ℕ → Monitor → Monitor
evaluate_and_enforce me sha256_json agent_id event_id now m =
    let (tracker, stats) = get_stats agent_id now m.tracker in
    let m' = record m { tracker = tracker } in
    elim stats [
      | none ↦ m'
      | some s ↦
          let anomalies = evaluate s m.config in
          if length anomalies == 0
          then m'
          else enforce me sha256_json agent_id anomalies event_id now m'
    ]

enforce-refuses :
    (me : Identity) (sha256_json : List AnomalyEvent → Ident) (agent event_id : Ident)
    (anomalies : List AnomalyEvent) (now later : ℕ) (m : Monitor) (cs : List RegisterCall)
    → is_some (process_anomalies sha256_json agent anomalies now m.blacklister).1 ≡ true
    → All (Leaves agent later) cs
    → is_some
        (active_blacklist_record agent later
          (run_any me cs (enforce me sha256_json agent anomalies event_id now m).register)).1
      ≡ true
unfolding enforce append_blacklist_record action_record
enforce-refuses me sha256_json agent event_id anomalies now later m cs acts leaves =
    elim (Option-cases (process_anomalies sha256_json agent anomalies now m.blacklister).1) [
      | inl e ↦ let no = rw e at acts in cc
      | inr (a, e) ↦
          let r = action_record me a event_id now m.register in
          let s = append_blacklist_record r m.register in
          let same = action-agent_id sha256_json agent anomalies now m.blacklister a e in
          let found : lookup agent s.blacklist_by_agent ≡ some r =
            rw (← same) (lookup-insert_self a.agent_id r m.register.blacklist_by_agent) in
          rw (e, enforce) (rw (refused_until_expiry me agent later r cs s found leaves) refl)
    ]

acts-nonempty :
    (sha256_json : List AnomalyEvent → Ident) (agent : Ident) (anomalies : List AnomalyEvent)
    (now : ℕ) (b : AutoBlacklister)
    → is_some (process_anomalies sha256_json agent anomalies now b).1 ≡ true
    → (length anomalies == 0) ≡ false
unfolding process_anomalies
acts-nonempty sha256_json agent [] now b acts = cc
acts-nonempty sha256_json agent (x ∷ xs) now b acts = ground arith

-- Whose signature failures and replays within the window, in any history of a new tracker whose calls
-- are no later than the evaluation, number at least the threshold of the detector, and of whom the
-- tracker has figures, is refused as soon as the coordinator has evaluated it, at any later time,
-- whatever the coordinator records of other agents meanwhile, of its own or from its peers, and
-- whatever it looks up, the agent itself no later than that time.
pub abuser_refused :
    {Output : Type 0} (hash_output : Output → Ident) (output_length : Output → ℕ)
    (sha256_json : List AnomalyEvent → Ident) (me : Identity) (window : Option ℕ)
    (cs : List (Call Output)) (agent event_id : Ident) (now later : ℕ) (stats : AgentBehaviorStats)
    (m : Monitor) (after : List RegisterCall)
    → m.tracker ≡ Tracker.run hash_output output_length cs (new_tracker window)
    → AllNotAfter now cs
    → (get_stats agent now m.tracker).1 ≡ some stats
    → m.config.protocol_abuse_threshold
      ≤ count_kind signature_failure (
          prune_window protocol_time
            (or_else window default_window_ms)
            now
            (violations_of agent cs))
        + count_kind replay_attempt (
            prune_window protocol_time
              (or_else window default_window_ms)
              now
              (violations_of agent cs))
    → All (Leaves agent later) after
    → is_some
        (active_blacklist_record agent later
          (run_any me after (evaluate_and_enforce me sha256_json agent event_id now m).register)).1
      ≡ true
unfolding evaluate_and_enforce
abuser_refused hash_output output_length sha256_json me window cs agent event_id now later stats m
      after tracked order h many leaves =
    let acts =
      abuse_caught hash_output output_length sha256_json window cs agent now stats m.config
        m.blacklister order (rw (← tracked) h) many in
    let some_events =
      acts-nonempty sha256_json agent (evaluate stats m.config) now m.blacklister acts in
    rw (h, some_events, evaluate_and_enforce)
      (enforce-refuses me sha256_json agent event_id (evaluate stats m.config) now later
        (record m { tracker = (get_stats agent now m.tracker).0 }) after acts leaves)
