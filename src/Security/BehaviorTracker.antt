-- ===== src/Security/BehaviorTracker.antt =====
-- src/security/behavior-tracker.ts: the class `AgentBehaviorTracker`. The clock is an argument, and
-- the hash of an output is computed by a parameter. Its figures are those of Behavior.
pub mod Stats
pub mod Calls
pub mod Window
pub mod Counts
pub mod Abuse
pub mod Tests
use edgecoder.Prelude.{
  ℕ, zero, suc, ◌+◌, ◌-◌, ◌*◌, ◌≡◌, Bool, true, false, not, Option, none, some, List, [], ◌∷◌, ◌++◌,
  map, ltb, leb, ◌==◌, if◌then◌else◌, Ident, or_else, length, filter, drop, sum_by, min, max, Dict,
  lookup, insert,
}
use edgecoder.Security.Behavior.{Ratio, whole, AgentBehaviorStats}

-- A result as it is reported: the output by its hash and its length.
pub record TaskEvent : Type 0 where
  pub timestamp_ms : ℕ
  pub is_ok : Bool
  pub output_hash : Ident
  pub output_length : ℕ
  pub duration_ms : ℕ

pub data Violation : Type 0 where
  signature_failure replay_attempt rate_limit_hit : Violation

pub record ProtocolEvent : Type 0 where
  pub timestamp_ms : ℕ
  pub kind : Violation

-- Registrations, claims and heartbeats are known by their times.
pub record Entry : Type 0 where
  pub tasks : List TaskEvent
  pub protocol_events : List ProtocolEvent
  pub registrations : List ℕ
  pub task_claims : List ℕ
  pub heartbeats : List ℕ
  pub requeue_count : ℕ
  pub concurrent_claim_count : ℕ

pub record AgentBehaviorTracker : Type 0 where
  pub window_ms : ℕ
  pub agents : Dict Entry

abbrev pub output_hash_ring_size : ℕ
output_hash_ring_size = 20

abbrev pub default_window_ms : ℕ
default_window_ms = 60 * 60 * 1000

abbrev pub new_tracker : Option ℕ → AgentBehaviorTracker
new_tracker window = record { window_ms = or_else window default_window_ms; agents = [] }

abbrev empty_entry : Entry
empty_entry = record {
  tasks = [];
  protocol_events = [];
  registrations = [];
  task_claims = [];
  heartbeats = [];
  requeue_count = 0;
  concurrent_claim_count = 0;
}

abbrev pub entry_of : Ident → AgentBehaviorTracker → Entry
entry_of agent_id t = or_else (lookup agent_id t.agents) empty_entry

-- `timestampMs >= now - windowMs`
abbrev in_window : ℕ → ℕ → ℕ → Bool
in_window window now time = leb now (time + window)

abbrev pub task_time : TaskEvent → ℕ
task_time e = e.timestamp_ms

abbrev pub protocol_time : ProtocolEvent → ℕ
protocol_time e = e.timestamp_ms

abbrev pub same_time : ℕ → ℕ
same_time time = time

abbrev pub prune_window : {A : Type 0} → (A → ℕ) → ℕ → ℕ → List A → List A
prune_window time window now events = filter (λ e. in_window window now (time e)) events

abbrev pub update : Ident → Entry → AgentBehaviorTracker → AgentBehaviorTracker
update agent_id entry t = record t { agents = insert agent_id entry t.agents }

module _ {Output : Type 0} (hash_output : Output → Ident) (output_length : Output → ℕ) where
  unfoldable pub record_task_result :
      Ident → Bool → Output → ℕ → ℕ → AgentBehaviorTracker → AgentBehaviorTracker
  record_task_result agent_id good output duration now t =
      let entry = entry_of agent_id t in
      let event : TaskEvent = record {
        timestamp_ms = now;
        is_ok = good;
        output_hash = hash_output output;
        output_length = output_length output;
        duration_ms = duration;
      } in
      update agent_id
        (record entry { tasks = prune_window task_time t.window_ms now entry.tasks ++ event ∷ [] })
        t

pub record_heartbeat : Ident → ℕ → AgentBehaviorTracker → AgentBehaviorTracker
record_heartbeat agent_id now t =
    let entry = entry_of agent_id t in
    update agent_id
      (record entry {
        heartbeats = prune_window same_time t.window_ms now entry.heartbeats ++ now ∷ [];
      })
      t

pub record_registration : Ident → ℕ → AgentBehaviorTracker → AgentBehaviorTracker
record_registration agent_id now t =
    let entry = entry_of agent_id t in
    update agent_id
      (record entry {
        registrations = prune_window same_time t.window_ms now entry.registrations ++ now ∷ [];
      })
      t

pub record_protocol_violation : Ident → Violation → ℕ → AgentBehaviorTracker → AgentBehaviorTracker
record_protocol_violation agent_id reason now t =
    let entry = entry_of agent_id t in
    let event : ProtocolEvent = record { timestamp_ms = now; kind = reason } in
    update agent_id
      (record entry {
        protocol_events =
            prune_window protocol_time t.window_ms now entry.protocol_events ++ event ∷ [];
      })
      t

pub record_task_claim : Ident → ℕ → AgentBehaviorTracker → AgentBehaviorTracker
record_task_claim agent_id now t =
    let entry = entry_of agent_id t in
    update agent_id
      (record entry {
        task_claims = prune_window same_time t.window_ms now entry.task_claims ++ now ∷ [];
      })
      t

unfoldable pub record_requeue : Ident → AgentBehaviorTracker → AgentBehaviorTracker
record_requeue agent_id t =
    let entry = entry_of agent_id t in
    update agent_id (record entry { requeue_count = entry.requeue_count + 1 }) t

unfoldable pub set_concurrent_claim_count : Ident → ℕ → AgentBehaviorTracker → AgentBehaviorTracker
set_concurrent_claim_count agent_id count t =
    update agent_id (record (entry_of agent_id t) { concurrent_claim_count = count }) t
