-- ===== src/Coordinator/Pull.antt =====
-- src/swarm/coordinator.ts: `POST /pull`, up to the form of the reply: an agent that registered a
-- key for envelopes gets its subtask encrypted, which is left out, and so are the database and the
-- log. The reply of `verifyAgentRequest` (Coordinator/Requests) is an argument, and a request reads
-- the clock once.
pub mod Guards
pub mod Kept
mod Tests
use edgecoder.Prelude.{
  ℕ, Bool, true, false, not, ◌&&◌, ◌||◌, Option, none, some, List, ltb, ◌==◌, if◌then◌else◌, Ident,
  has, truthy, or_else, Dict, lookup, insert,
}
use edgecoder.Types.{Subtask}
use edgecoder.Ledger.Crypto.{Crypto}
use edgecoder.Ledger.Chain.{Payload, QueueEventType, Event, OrderingChain, append}
use edgecoder.Security.BehaviorTracker.{AgentBehaviorTracker, record_task_claim}
use edgecoder.Security.Blacklist.{BlacklistRecord}
use edgecoder.Swarm.PowerPolicy.{
  AgentPowerTelemetry, Os, PolicyReason, PowerPolicyDecision, evaluate_agent_power_policy,
}
use edgecoder.Swarm.Queue.{SwarmQueue, claim, requeue}
use edgecoder.Coordinator.Register.{Register, active_blacklist_record}

pub data SandboxMode : Type 0 where
  no_sandbox docker vm : SandboxMode

-- What the handler reads of an agent's entry.
pub record AgentCapability : Type 0 where
  pub os : Os
  pub power_telemetry : Option AgentPowerTelemetry
  pub active_model : Option Ident
  pub sandbox_mode : SandboxMode

pub record Coordinator : Type 0 where
  pub agent_capabilities : Dict AgentCapability
  pub register : Register
  pub queue : SwarmQueue
  pub last_task_assigned_by_agent : Dict ℕ
  pub behavior_tracker : AgentBehaviorTracker
  pub ordering : OrderingChain
  pub battery_pull_min_interval_ms : ℕ
  pub battery_task_stop_level_pct : ℕ

-- What `verifyAgentRequest` answers; `unsigned` is a falsy answer.
pub data Verified : Type 0 where
  rejected : Verified
  unsigned : Verified
  signed_by : Ident → Verified

pub data PullReply : Type 0 where
  signature_invalid agent_id_mismatch agent_not_registered : PullReply
  blocked : Ident → PullReply
  power_deferred : Option ℕ → PolicyReason → PullReply
  sandbox_required : PullReply
  no_task : PullReply
  task : Subtask → PullReply

unfoldable pub power_decision : Ident → ℕ → AgentCapability → Coordinator → PowerPolicyDecision
power_decision agent_id now capability m = evaluate_agent_power_policy (record {
  os = capability.os;
  telemetry = capability.power_telemetry;
  now_ms = now;
  last_task_assigned_at_ms = lookup agent_id m.last_task_assigned_by_agent;
  battery_pull_min_interval_ms = m.battery_pull_min_interval_ms;
  battery_task_stop_level_pct = m.battery_task_stop_level_pct;
  task_timeout_ms = none;
})

abbrev pub is_none_mode : SandboxMode → Bool
is_none_mode no_sandbox = true
is_none_mode docker = false
is_none_mode vm = false

-- `taskRequiresSandbox && agentSandbox === "none"`
abbrev pub lacks_sandbox : Subtask → AgentCapability → Bool
lacks_sandbox s capability =
    (truthy s.project_meta.tenant_id || not (is_none_mode capability.sandbox_mode))
    && is_none_mode capability.sandbox_mode

-- `allowSmallTasksOnly && task.timeoutMs > 10_000`
abbrev pub too_large : Subtask → PowerPolicyDecision → Bool
too_large s decision = or_else decision.allow_small_tasks_only false && ltb 10000 s.timeout_ms

abbrev pub claim_event : Subtask → Ident → Event
claim_event s agent_id = record {
  event_type = QueueEventType.task_claim;
  task_id = s.task_id;
  subtask_id = some s.id;
  actor_id = agent_id;
  coordinator_id = none;
  checkpoint_height = none;
  checkpoint_hash = none;
  payload_json = none;
}

module _ (crypto : Crypto) (digest : Payload → Ident) where
  abbrev pub assign : Ident → ℕ → Ident → Subtask → Coordinator → Coordinator
  assign agent_id now fresh s m = record m {
    last_task_assigned_by_agent = insert agent_id now m.last_task_assigned_by_agent;
    behavior_tracker = record_task_claim agent_id now m.behavior_tracker;
    ordering = (append crypto digest (claim_event s agent_id) fresh now m.ordering).0;
  }

  -- From the claim on.
  unfoldable pub hand_out :
      Ident
      → ℕ
      → Ident
      → AgentCapability
      → PowerPolicyDecision
      → Coordinator
      → Coordinator × PullReply
  hand_out agent_id now fresh capability decision m =
      let (queue, claimed) = claim agent_id capability.active_model now now m.queue in
      let m' = record m { queue = queue } in
      elim claimed [
        | none ↦ (m', no_task)
        | some s ↦
            let back = record m' { queue = (requeue s.id queue).0 } in
            if lacks_sandbox s capability
            then (back, sandbox_required)
            else if too_large s decision
            then (back, power_deferred none decision.reason)
            else (assign agent_id now fresh s m', task s)
      ]

  -- The tests of the power policy.
  unfoldable pub pull_powered :
      Ident → ℕ → Ident → AgentCapability → Coordinator → Coordinator × PullReply
  pull_powered agent_id now fresh capability m =
      let decision = power_decision agent_id now capability m in
      if not decision.allow_coordinator_tasks
      then (m, power_deferred none decision.reason)
      else if truthy decision.defer_ms
      then (m, power_deferred decision.defer_ms decision.reason)
      else hand_out agent_id now fresh capability decision m

  -- The test of the blacklist.
  unfoldable pub pull_allowed :
      Ident → ℕ → Ident → AgentCapability → Coordinator → Coordinator × PullReply
  pull_allowed agent_id now fresh capability m =
      let (register, found) = active_blacklist_record agent_id now m.register in
      let m' = record m { register = register } in
      elim found [
        | some r ↦ (m', blocked r.reason)
        | none ↦ pull_powered agent_id now fresh capability m'
      ]

  unfoldable pub pull : Verified → Ident → ℕ → Ident → Coordinator → Coordinator × PullReply
  pull rejected agent_id now fresh m = (m, signature_invalid)
  pull unsigned agent_id now fresh m = elim (lookup agent_id m.agent_capabilities) [
    | none ↦ (m, agent_not_registered)
    | some capability ↦ pull_allowed agent_id now fresh capability m
  ]
  pull (signed_by signer) agent_id now fresh m =
      if not (signer == agent_id)
      then (m, agent_id_mismatch)
      else (elim (lookup agent_id m.agent_capabilities) [
        | none ↦ (m, agent_not_registered)
        | some capability ↦ pull_allowed agent_id now fresh capability m
      ])
