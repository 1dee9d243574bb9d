-- ===== src/Security/BehaviorTracker/Calls.antt =====
-- src/security/behavior-tracker.ts: histories of calls.
use edgecoder.Prelude.{ℕ, ◌≤◌, Bool, List, [], ◌∷◌, ◌++◌, ◌==◌, if◌then◌else◌, Ident}
use edgecoder.Security.BehaviorTracker.{
  Violation, ProtocolEvent, AgentBehaviorTracker, record_task_result, record_heartbeat,
  record_registration, record_protocol_violation, record_task_claim, record_requeue,
  set_concurrent_claim_count,
}
use edgecoder.Security.BehaviorTracker.Stats.{get_stats}

-- The calls of a tracker, of outputs of some type.
pub data Call (Output : Type 0) : Type 0 where
  results : Ident → Bool → Output → ℕ → ℕ → Call Output
  heartbeats registers claims : Ident → ℕ → Call Output
  violates : Ident → Violation → ℕ → Call Output
  requeues : Ident → Call Output
  counts : Ident → ℕ → Call Output
  asks : Ident → ℕ → Call Output

module _ {Output : Type 0} (hash_output : Output → Ident) (output_length : Output → ℕ) where
  abbrev pub step : Call Output → AgentBehaviorTracker → AgentBehaviorTracker
  step (results a good output duration now) t =
      record_task_result hash_output output_length a good output duration now t
  step (heartbeats a now) t = record_heartbeat a now t
  step (registers a now) t = record_registration a now t
  step (claims a now) t = record_task_claim a now t
  step (violates a reason now) t = record_protocol_violation a reason now t
  step (requeues a) t = record_requeue a t
  step (counts a n) t = set_concurrent_claim_count a n t
  step (asks a now) t = (get_stats a now t).0

  unfoldable pub run : List (Call Output) → AgentBehaviorTracker → AgentBehaviorTracker
  run [] t = t
  run (c ∷ cs) t = run cs (step c t)

module _ {Output : Type 0} where
  -- The protocol violations of an agent in a history, and that no call of it is later than a time.
  abbrev pub violation_of : Ident → Call Output → List ProtocolEvent
  violation_of agent (violates a reason now) =
      if a == agent then record { timestamp_ms = now; kind = reason } ∷ [] else []
  violation_of agent _ = []

  abbrev pub violations_of : Ident → List (Call Output) → List ProtocolEvent
  violations_of agent [] = []
  violations_of agent (c ∷ cs) = violation_of agent c ++ violations_of agent cs

  abbrev pub NotAfter : ℕ → Call Output → Type 0
  NotAfter end (results a good output duration now) = now ≤ end
  NotAfter end (heartbeats a now) = now ≤ end
  NotAfter end (registers a now) = now ≤ end
  NotAfter end (claims a now) = now ≤ end
  NotAfter end (violates a reason now) = now ≤ end
  NotAfter end (requeues a) = Unit
  NotAfter end (counts a n) = Unit
  NotAfter end (asks a now) = now ≤ end

  abbrev pub AllNotAfter : ℕ → List (Call Output) → Type 0
  AllNotAfter end [] = Unit
  AllNotAfter end (c ∷ cs) = NotAfter end c × AllNotAfter end cs
