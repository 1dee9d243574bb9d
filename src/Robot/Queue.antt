-- ===== src/Robot/Queue.antt =====
-- src/swarm/robot-queue.ts: the class `RobotQueue`, and `computeIntentFee` of
-- src/swarm/coordinator-utils.ts. The clock and `randomUUID` are arguments. A call that throws is an
-- `err`, and the queue stays as it was.
pub mod Calls
pub mod Successes
pub mod Lifecycle
pub mod History
pub mod Money
pub mod Sweep
pub mod Settling
mod Tests
use Prim.Native.String.{String}
use mathlib.Core.Option
use edgecoder.Prelude.{
  ℕ, ◌+◌, ◌-◌, ◌*◌, ◌/◌, Bool, true, false, not, ◌&&◌, Option, none, some, List, [], ◌∷◌, ◌++◌, map,
  ltb, ◌==◌, same, if◌then◌else◌, Ident, truthy, or_else, length, filter, all, contains, Dict,
  lookup, insert, values, Result, ok, ◌>>=◌, ◌>>◌, throw_if, or_throw,
}
use edgecoder.Robot.Types.{
  RobotTaskKind, RobotTaskStatus, RobotTask, RobotAgent, RobotEarningsEntry, RobotSweepPayout,
  RobotQueueConfig, pending_funding, funded, claimed, proof_submitted, settled, disputed, expired,
  accrued, swept,
}

pub record RobotQueue : Type 0 where
  pub config : RobotQueueConfig
  pub agents : Dict RobotAgent
  pub tasks : Dict RobotTask
  pub earnings : List RobotEarningsEntry

pub data Error : Type 0 where
  payout_address_required task_not_found task_not_pending_funding task_not_claimable : Error
  agent_not_registered capability_mismatch task_not_claimed not_claimed_by_agent : Error
  task_not_proof_submitted : Error

abbrev pub is : RobotTaskStatus → RobotTaskStatus → Bool
is pending_funding pending_funding = true
is funded funded = true
is claimed claimed = true
is proof_submitted proof_submitted = true
is settled settled = true
is disputed disputed = true
is expired expired = true
is _ _ = false

pub init : RobotQueueConfig → RobotQueue
init config = record { config = config; agents = []; tasks = []; earnings = [] }

-- The fee is rounded down; the net amount stops at 0, as `-` on the natural numbers does.
pub fee_sats : ℕ → ℕ → ℕ
fee_sats amount_sats fee_bps = amount_sats * fee_bps / 10000

pub net_sats : ℕ → ℕ → ℕ
unfolding fee_sats
net_sats amount_sats fee_bps = amount_sats - fee_sats amount_sats fee_bps

pub register_agent :
    Ident → Ident → List Ident → Ident → ℕ → RobotQueue → Result Error (RobotQueue × RobotAgent)
register_agent agent_id payout_address capabilities robot_kind now q = do
  throw_if (payout_address == 0) payout_address_required
  let existing = lookup agent_id q.agents
  let agent : RobotAgent = record {
    agent_id = agent_id;
    payout_address = payout_address;
    capabilities = capabilities;
    robot_kind = robot_kind;
    last_seen_ms = now;
    success_count = or_else (Option.map (λ (a : RobotAgent). a.success_count) existing) 0;
    failure_count = or_else (Option.map (λ (a : RobotAgent). a.failure_count) existing) 0;
  }
  ok (record q { agents = insert agent_id agent q.agents }, agent)

pub heartbeat : Ident → ℕ → RobotQueue → RobotQueue
heartbeat agent_id now q = elim (lookup agent_id q.agents) [
  | none ↦ q
  | some agent ↦ record q {
    agents = insert agent_id (record agent { last_seen_ms = now }) q.agents;
  }
]

-- The argument of `createTask`.
pub record TaskInput : Type 0 where
  pub client_account_id : Ident
  pub title : String
  pub description : String
  pub task_kind : RobotTaskKind
  pub resource_requirements : List Ident
  pub amount_sats : ℕ
  pub invoice_ref : Ident
  pub timeout_ms : Option ℕ
  pub proof_schema : Option String

pub new_task : TaskInput → Ident → ℕ → RobotQueueConfig → RobotTask
unfolding fee_sats net_sats
new_task input fresh now config = record {
  task_id = fresh;
  client_account_id = input.client_account_id;
  title = input.title;
  description = input.description;
  task_kind = input.task_kind;
  resource_requirements = input.resource_requirements;
  escrow_sats = input.amount_sats;
  reward_sats = net_sats input.amount_sats config.coordinator_fee_bps;
  coordinator_fee_sats = fee_sats input.amount_sats config.coordinator_fee_bps;
  coordinator_fee_bps = config.coordinator_fee_bps;
  status = pending_funding;
  timeout_ms = or_else input.timeout_ms config.default_timeout_ms;
  proof_schema = input.proof_schema;
  invoice_ref = input.invoice_ref;
  claimed_by = none;
  claimed_at_ms = none;
  proof_payload = none;
  proof_submitted_at_ms = none;
  dispute_reason = none;
  created_at_ms = now;
  settled_at_ms = none;
}

pub create_task : TaskInput → Ident → ℕ → RobotQueue → RobotQueue × RobotTask
create_task input fresh now q =
    let task = new_task input fresh now q.config in
    (record q { tasks = insert fresh task q.tasks }, task)

-- The task object is shared with the map, so a change of it is a change of the map's entry.
abbrev save : Ident → RobotTask → RobotQueue → RobotQueue × RobotTask
save task_id task q = (record q { tasks = insert task_id task q.tasks }, task)

pub mark_funded : Ident → RobotQueue → Result Error (RobotQueue × RobotTask)
mark_funded task_id q = do
  task ← or_throw (lookup task_id q.tasks) task_not_found
  throw_if (not (is task.status pending_funding)) task_not_pending_funding
  ok (save task_id (record task { status = funded }) q)

abbrev can_do : RobotAgent → RobotTask → Bool
can_do agent task = all (λ r. contains r agent.capabilities) task.resource_requirements

pub claim_task : Ident → Ident → ℕ → RobotQueue → Result Error (RobotQueue × RobotTask)
claim_task task_id agent_id now q = do
  task ← or_throw (lookup task_id q.tasks) task_not_found
  throw_if (not (is task.status funded)) task_not_claimable
  agent ← or_throw (lookup agent_id q.agents) agent_not_registered
  throw_if (not (can_do agent task)) capability_mismatch
  ok (
      save task_id
        (record task { status = claimed; claimed_by = some agent_id; claimed_at_ms = some now }) q)

pub list_available_tasks : Ident → RobotQueue → List RobotTask
list_available_tasks agent_id q = elim (lookup agent_id q.agents) [
  | none ↦ []
  | some agent ↦ filter (λ t. is t.status funded && can_do agent t) (values q.tasks)
]

abbrev claimed_by_agent : Ident → RobotTask → Bool
claimed_by_agent agent_id task = elim task.claimed_by [ none ↦ false | some a ↦ a == agent_id ]

pub submit_proof : Ident → Ident → String → ℕ → RobotQueue → Result Error (RobotQueue × RobotTask)
submit_proof task_id agent_id payload now q = do
  task ← or_throw (lookup task_id q.tasks) task_not_found
  throw_if (not (is task.status claimed)) task_not_claimed
  throw_if (not (claimed_by_agent agent_id task)) not_claimed_by_agent
  ok (
      save task_id
        (record task {
          status = proof_submitted;
          proof_payload = some payload;
          proof_submitted_at_ms = some now;
        })
        q)

-- `undefined` is the key of no agent.
abbrev pub succeeded : Option Ident → Dict RobotAgent → Dict RobotAgent
succeeded none agents = agents
succeeded (some agent_id) agents = elim (lookup agent_id agents) [
  | none ↦ agents
  | some a ↦ insert agent_id (record a { success_count = a.success_count + 1 }) agents
]

-- `now` and `entered` are the two readings of the clock, `fresh` the identifier of the entry.
pub settle_task : Ident → Ident → ℕ → ℕ → RobotQueue → Result Error (RobotQueue × RobotTask)
settle_task task_id fresh now entered q = do
  task ← or_throw (lookup task_id q.tasks) task_not_found
  throw_if (not (is task.status proof_submitted)) task_not_proof_submitted
  let task' : RobotTask = record task { status = settled; settled_at_ms = some now }
  ok (
    record q {
      tasks = insert task_id task' q.tasks;
      earnings =
          q.earnings
          ++ record {
            entry_id = fresh;
            agent_id = task.claimed_by;
            task_id = task.task_id;
            earned_sats = task.reward_sats;
            status = accrued;
            sweep_tx_id = none;
            created_at_ms = entered;
          }
            ∷ [];
      agents = succeeded task.claimed_by q.agents;
    },
    task',
  )

pub dispute_task : Ident → String → RobotQueue → Result Error (RobotQueue × RobotTask)
dispute_task task_id reason q = do
  task ← or_throw (lookup task_id q.tasks) task_not_found
  throw_if (not (is task.status proof_submitted)) task_not_proof_submitted
  ok (save task_id (record task { status = disputed; dispute_reason = some reason }) q)

-- The three tests of the loop of `expireStale`.
abbrev pub is_overdue : ℕ → RobotTask → Bool
is_overdue now task =
    is task.status claimed
    && (truthy task.claimed_at_ms && ltb (or_else task.claimed_at_ms 0 + task.timeout_ms) now)

abbrev pub failed : Option Ident → Dict RobotAgent → Dict RobotAgent
failed none agents = agents
failed (some agent_id) agents = elim (lookup agent_id agents) [
  | none ↦ agents
  | some a ↦ insert agent_id (record a { failure_count = a.failure_count + 1 }) agents
]

pub expire_loop : ℕ → Dict RobotTask → Dict RobotAgent → Dict RobotTask × Dict RobotAgent × ℕ
expire_loop now [] agents = ([], agents, 0)
expire_loop now ((i, t) ∷ ts) agents =
    let late = is_overdue now t in
    let (ts', agents', n) =
      expire_loop now ts (if late then failed t.claimed_by agents else agents) in
    (
      (i, if late then record t { status = expired } else t) ∷ ts',
      agents',
      if late then n + 1 else n,
    )

pub expire_stale : ℕ → RobotQueue → RobotQueue × ℕ
expire_stale now q =
    let (ts, as', n) = expire_loop now q.tasks q.agents in
    (record q { tasks = ts; agents = as' }, n)

pub get_earnings : Ident → RobotQueue → List RobotEarningsEntry
get_earnings agent_id q = filter (λ e. same e.agent_id (some agent_id)) q.earnings

abbrev pub is_accrued : RobotEarningsEntry → Bool
is_accrued e = elim e.status [ accrued ↦ true | swept ↦ false ]

abbrev pub add_total : Option Ident → ℕ → Dict ℕ → Dict ℕ
add_total none sats by_agent = by_agent
add_total (some a) sats by_agent = insert a (or_else (lookup a by_agent) 0 + sats) by_agent

-- The first loop of `pendingSweepPayouts`. A sum under the key `undefined`, which is the key of no
-- agent and is passed over by the second loop, is left out.
pub total_by_agent : List RobotEarningsEntry → Dict ℕ → Dict ℕ
total_by_agent [] by_agent = by_agent
total_by_agent (e ∷ es) by_agent =
    total_by_agent es
      (if is_accrued e then add_total e.agent_id e.earned_sats by_agent else by_agent)

-- Its second loop.
pub payouts : ℕ → Dict RobotAgent → Dict ℕ → List RobotSweepPayout
payouts min_sweep agents [] = []
payouts min_sweep agents ((agent_id, total) ∷ totals) =
    let rest = payouts min_sweep agents totals in
    if ltb total min_sweep then rest else elim (lookup agent_id agents) [
      | none ↦ rest
      | some agent ↦
          record { agent_id = agent_id; address = agent.payout_address; amount_sats = total } ∷ rest
    ]

pub pending_sweep_payouts : RobotQueue → List RobotSweepPayout
unfolding total_by_agent payouts
pending_sweep_payouts q = payouts q.config.min_sweep_sats q.agents (total_by_agent q.earnings [])

abbrev pub sweep_entry : Ident → Ident → RobotEarningsEntry → RobotEarningsEntry
sweep_entry agent_id txid e =
    if same e.agent_id (some agent_id) && is_accrued e
    then record e { status = swept; sweep_tx_id = some txid }
    else e

pub mark_swept : Ident → Ident → RobotQueue → RobotQueue
mark_swept agent_id txid q = record q { earnings = map (sweep_entry agent_id txid) q.earnings }

pub record Status : Type 0 where
  pub agents : ℕ
  pub total_tasks : ℕ
  pub funded : ℕ
  pub claimed : ℕ
  pub settled : ℕ

pub status : RobotQueue → Status
status q = record {
  agents = length q.agents;
  total_tasks = length q.tasks;
  funded = length (filter (λ t. is t.status funded) (values q.tasks));
  claimed = length (filter (λ t. is t.status claimed) (values q.tasks));
  settled = length (filter (λ t. is t.status settled) (values q.tasks));
}
