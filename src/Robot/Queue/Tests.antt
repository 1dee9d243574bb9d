-- ===== src/Robot/Queue/Tests.antt =====
-- A run of the queue of src/swarm/robot-queue.ts, and its theorems at that run.
use edgecoder.Prelude.{
  ◌==◌, if◌then◌else◌, ◌+◌, ◌≤◌, ◌≡◌, refl, none, some, List, [], ◌∷◌, arith, Ident, lookup, here,
  sum_values, ok,
}
use edgecoder.Robot.Types.{
  RobotTask, RobotAgent, RobotTaskKind, RobotQueueConfig, testnet, proof_submitted, settled,
}
use edgecoder.Robot.Queue.{
  RobotQueue, TaskInput, init, register_agent, create_task, new_task, mark_funded, claim_task,
  submit_proof, settle_task, pending_sweep_payouts,
}
use edgecoder.Robot.Queue.Calls.{
  Call, registers, creates, funds, claims, submits, settles, step, run,
}
use edgecoder.Robot.Queue.Lifecycle.{paid, earned}
use edgecoder.Robot.Queue.History.{AllFresh, Becomes, history_follows_lifecycle}
use edgecoder.Robot.Queue.Money.{earned-eq-paid, escrow_shared_out}
use edgecoder.Robot.Queue.Settling.{settle_goes_through}
use edgecoder.Robot.Queue.Sweep.{owed, payouts_exact}

abbrev config : RobotQueueConfig
config = record {
  coordinator_fee_bps = 250;
  default_timeout_ms = 1000;
  auto_settle_delay_ms = 0;
  sweep_interval_ms = 0;
  min_sweep_sats = 500;
  bitcoin_network = testnet;
}

abbrev input : TaskInput
input = record {
  client_account_id = 3;
  title = "fetch";
  description = "";
  task_kind = RobotTaskKind.physical;
  resource_requirements = 4 ∷ [];
  amount_sats = 1000;
  invoice_ref = 6;
  timeout_ms = none;
  proof_schema = none;
}

abbrev calls : List Call
calls =
    registers 2 9 (4 ∷ []) 1 4
    ∷ creates input 1 5
    ∷ funds 1
    ∷ claims 1 2 6
    ∷ submits 1 2 "photo" 7
    ∷ []

calls-AllFresh : AllFresh calls (init config)
unfolding init step register_agent
calls-AllFresh = (tt, (refl, (tt, (tt, (tt, tt)))))

abbrev proved : RobotTask
proved = record (new_task input 1 5 config) {
  status = proof_submitted;
  claimed_by = some 2;
  claimed_at_ms = some 6;
  proof_payload = some "photo";
  proof_submitted_at_ms = some 7;
}

run-proved : lookup 1 (run calls (init config)).tasks ≡ some proved
unfolding run step init register_agent create_task new_task mark_funded claim_task submit_proof
run-proved = refl

history_follows_lifecycle_example :
    (t : RobotTask) × (lookup 1 (run (settles 1 20 8 9 ∷ []) (run calls (init config))).tasks
      ≡ some t)
    × Becomes proved t
history_follows_lifecycle_example =
    history_follows_lifecycle (settles 1 20 8 9 ∷ []) (run calls (init config)) 1 proved (tt, tt)
      run-proved

-- The proof is accepted and the task settled.
abbrev all_calls : List Call
all_calls =
    registers 2 9 (4 ∷ []) 1 4
    ∷ creates input 1 5
    ∷ funds 1
    ∷ claims 1 2 6
    ∷ submits 1 2 "photo" 7
    ∷ settles 1 20 8 9
    ∷ []

all_calls-AllFresh : AllFresh all_calls (init config)
unfolding init step register_agent
all_calls-AllFresh = (tt, (refl, (tt, (tt, (tt, (tt, tt))))))

earned-eq-paid_example :
    earned (run all_calls (init config)) ≡ sum_values paid (run all_calls (init config)).tasks
earned-eq-paid_example = earned-eq-paid config all_calls all_calls-AllFresh

escrow_shared_out_example : proved.reward_sats + proved.coordinator_fee_sats ≡ proved.escrow_sats
escrow_shared_out_example =
    escrow_shared_out config calls 1 proved (omega arith) calls-AllFresh run-proved

settle_goes_through_example :
    (a : Ident) × (proved.claimed_by ≡ some a)
    × (r : RobotQueue × RobotTask) × (settle_task 1 20 8 9 (run calls (init config)) ≡ ok r)
    × (lookup 1 r.0.tasks ≡ some (record proved { status = settled; settled_at_ms = some 8 }))
    × ((b : Ident)
        → owed b r.0
          ≡ owed b (run calls (init config)) + (if a == b then proved.reward_sats else 0))
settle_goes_through_example =
    settle_goes_through config calls 1 20 8 9 proved calls-AllFresh run-proved refl

-- The settled task pays 975, which is enough for a sweep.
abbrev settled_queue : RobotQueue
settled_queue = run (settles 1 20 8 9 ∷ []) (run calls (init config))

payout_found :
    pending_sweep_payouts settled_queue
    ≡ record { agent_id = 2; address = 9; amount_sats = 975 } ∷ []
unfolding run step init register_agent create_task new_task mark_funded claim_task submit_proof
    settle_task pending_sweep_payouts
payout_found = refl

payouts_exact_example :
    (975 ≡ owed 2 settled_queue)
    × (settled_queue.config.min_sweep_sats ≤ 975)
    × ((agent : RobotAgent) × (lookup 2 settled_queue.agents ≡ some agent)
        × (◌≡◌ {A = Ident} 9 agent.payout_address))
payouts_exact_example =
    payouts_exact settled_queue (record { agent_id = 2; address = 9; amount_sats = 975 })
      (rw payout_found here)

abbrev payee : RobotAgent
payee = record {
  agent_id = 2;
  payout_address = 9;
  capabilities = 4 ∷ [];
  robot_kind = 1;
  last_seen_ms = 4;
  success_count = 1;
  failure_count = 0;
}

payee_found : lookup 2 settled_queue.agents ≡ some payee
unfolding run step init register_agent create_task new_task mark_funded claim_task submit_proof
    settle_task
payee_found = refl

owed_least : settled_queue.config.min_sweep_sats ≤ owed 2 settled_queue
unfolding run step init register_agent create_task new_task mark_funded claim_task submit_proof
    settle_task
owed_least = omega arith

owed_pos : 1 ≤ owed 2 settled_queue
unfolding run step init register_agent create_task new_task mark_funded claim_task submit_proof
    settle_task
owed_pos = omega arith
