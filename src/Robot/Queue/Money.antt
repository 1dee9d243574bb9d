-- ===== src/Robot/Queue/Money.antt =====
-- src/swarm/robot-queue.ts: the money, the claimants and the configuration over every history.
use edgecoder.Prelude.{
  ℕ, ◌+◌, ◌≤◌, ◌*◌, ◌≡◌, refl, some, List, [], ◌∷◌, arith, Ident, lookup, Dict, if◌then◌else◌,
  sum_values, sum_values-insert, sum_values-insert_new, Entries, Entries-insert, Entries-lookup,
}
use edgecoder.Robot.Types.{RobotTask, RobotAgent, RobotQueueConfig, expired}
use edgecoder.Robot.Queue.{
  RobotQueue, TaskInput, init, new_task, register_agent, heartbeat, create_task, mark_funded,
  claim_task, submit_proof, dispute_task, expire_stale, mark_swept, fee_sats, net_sats, settle_task,
  expire_loop, is_overdue, failed,
}
use edgecoder.Robot.Queue.Calls.{
  Call, registers, beats, creates, funds, claims, submits, settles, disputes, expires, sweeps, step,
  run,
}
use edgecoder.Robot.Queue.Lifecycle.{
  SameTerms, paid, earned, HasClaimant, Change, kept, moved, created, swept_away, step-Change,
}
use edgecoder.Robot.Queue.History.{AllFresh}

paid-expire_loop :
    (now : ℕ) (ts : Dict RobotTask) (as' : Dict RobotAgent)
    → sum_values paid (expire_loop now ts as').0 ≡ sum_values paid ts
unfolding expire_loop
paid-expire_loop now [] as' = refl
paid-expire_loop now ((i, t) ∷ ts) as' =
    let late = is_overdue now t in
    let ih = paid-expire_loop now ts (if late then failed t.claimed_by as' else as') in
    ground (arith, ih)

new_task-unpaid :
    (input : TaskInput) (i : Ident) (now : ℕ) (config : RobotQueueConfig)
    → paid (new_task input i now config) ≡ 0
unfolding new_task
new_task-unpaid input i now config = refl

-- What is earned is what the settled tasks pay.
abbrev IsBalanced : RobotQueue → Type 0
IsBalanced q = (earned q ≡ sum_values paid q.tasks)

Change-IsBalanced : (q q' : RobotQueue) → Change q q' → IsBalanced q → IsBalanced q'
Change-IsBalanced q q' (kept ts e) b = rw (e, ts) b
Change-IsBalanced q q' (moved i t t' f ts edge terms p c) b =
    rw ts (omega (arith, sum_values-insert paid i t' t q.tasks f))
Change-IsBalanced q q' (created input i now new ts e) b =
    let t = new_task input i now q.config in
    rw ts (
      omega
        (arith, sum_values-insert_new paid i t q.tasks new, new_task-unpaid input i now q.config))
Change-IsBalanced q q' (swept_away now ts e) b = rw (ts, paid-expire_loop, e) b

run-IsBalanced :
    (cs : List Call) (q : RobotQueue) → AllFresh cs q → IsBalanced q → IsBalanced (run cs q)
unfolding run
run-IsBalanced [] q new b = b
run-IsBalanced (c ∷ cs) q new b =
    run-IsBalanced cs (step c q) new.1 (Change-IsBalanced q (step c q) (step-Change c q new.0) b)

-- After any history from the empty queue, in which `randomUUID` repeats no identifier of a task, the
-- earnings entries sum up to the rewards of the settled tasks.
pub earned-eq-paid :
    (config : RobotQueueConfig) (cs : List Call)
    → AllFresh cs (init config)
    → earned (run cs (init config)) ≡ sum_values paid (run cs (init config)).tasks
unfolding init
earned-eq-paid config cs new = run-IsBalanced cs (init config) new refl

-- The reward and the fee share out the escrow.
abbrev IsSplit : RobotTask → Type 0
IsSplit t = (t.reward_sats + t.coordinator_fee_sats ≡ t.escrow_sats)

-- Below a fee of 10000 basis points the fee is at most the amount, so that the net amount and the
-- fee add up to it.
pub fee-net : (amount bps : ℕ) → bps ≤ 10000 → net_sats amount bps + fee_sats amount bps ≡ amount
unfolding net_sats fee_sats
fee-net amount bps h = let p : amount * bps ≤ amount * 10000 = grind arith in omega arith

-- Whatever every task is given at its creation, and keeps under a change of status.
module _ {κ} (P : RobotTask → Type κ)
    (keep : (t t' : RobotTask)
      → SameTerms t t'
      → (HasClaimant t → HasClaimant t')
      → P t
      → P t') where
  Entries-expire_loop :
      (now : ℕ) (ts : Dict RobotTask) (as' : Dict RobotAgent)
      → Entries (λ k t. P t) ts
      → Entries (λ k t. P t) (expire_loop now ts as').0
  unfolding expire_loop
  Entries-expire_loop now [] as' h = tt
  Entries-expire_loop now ((i, t) ∷ ts) as' h =
      let late = is_overdue now t in
      let expired_task : RobotTask = if late then record t { status = expired } else t in
      (
        keep t expired_task (ground arith) (λ c. ground arith) h.0,
        Entries-expire_loop now ts (if late then failed t.claimed_by as' else as') h.1,
      )

  Change-Entries :
      (q q' : RobotQueue)
      → ((input : TaskInput) (i : Ident) (now : ℕ) → P (new_task input i now q.config))
      → Change q q'
      → Entries (λ k t. P t) q.tasks
      → Entries (λ k t. P t) q'.tasks
  Change-Entries q q' make (kept ts e) h = rw ts h
  Change-Entries q q' make (moved i t t' f ts edge terms p c) h = rw ts (
      Entries-insert (λ k t. P t) i t' q.tasks h
        (keep t t' terms c (Entries-lookup (λ k t. P t) i t q.tasks h f)))
  Change-Entries q q' make (created input i now new ts e) h =
      rw ts
        (Entries-insert (λ k t. P t) i (new_task input i now q.config) q.tasks h (make input i now))
  Change-Entries q q' make (swept_away now ts e) h =
      rw ts (Entries-expire_loop now q.tasks q.agents h)

step-config : (c : Call) (q : RobotQueue) → (step c q).config ≡ q.config
unfolding step register_agent heartbeat create_task mark_funded claim_task submit_proof settle_task
    dispute_task expire_stale mark_swept
step-config (registers a p cs k now) q = ground arith
step-config (beats a now) q = ground arith
step-config (creates input fresh now) q = refl
step-config (funds i) q = ground arith
step-config (claims i a now) q = ground arith
step-config (submits i a p now) q = ground arith
step-config (settles i fresh now entered) q = ground arith
step-config (disputes i reason) q = ground arith
step-config (expires now) q = refl
step-config (sweeps a txid) q = refl

new_task-IsSplit :
    (input : TaskInput) (i : Ident) (now : ℕ) (config : RobotQueueConfig)
    → config.coordinator_fee_bps ≤ 10000
    → IsSplit (new_task input i now config)
unfolding new_task
new_task-IsSplit input i now config h = fee-net input.amount_sats config.coordinator_fee_bps h

new_task-HasClaimant :
    (input : TaskInput) (i : Ident) (now : ℕ) (config : RobotQueueConfig)
    → HasClaimant (new_task input i now config)
unfolding new_task
new_task-HasClaimant input i now config = refl

run-IsSplit :
    (cs : List Call) (q : RobotQueue)
    → AllFresh cs q
    → q.config.coordinator_fee_bps ≤ 10000
    → Entries (λ k t. IsSplit t) q.tasks
    → Entries (λ k t. IsSplit t) (run cs q).tasks
unfolding run
run-IsSplit [] q new h all = all
run-IsSplit (c ∷ cs) q new h all = run-IsSplit cs (step c q) new.1 (rw step-config h) (
    Change-Entries IsSplit (λ t t' terms c r. ground arith) q (step c q)
      (λ input i now. new_task-IsSplit input i now q.config h) (step-Change c q new.0) all)

pub run-HasClaimant :
    (cs : List Call) (q : RobotQueue)
    → AllFresh cs q
    → Entries (λ k t. HasClaimant t) q.tasks
    → Entries (λ k t. HasClaimant t) (run cs q).tasks
unfolding run
run-HasClaimant [] q new all = all
run-HasClaimant (c ∷ cs) q new all = run-HasClaimant cs (step c q) new.1 (
    Change-Entries HasClaimant (λ t t' terms c. c) q (step c q)
      (λ input i now. new_task-HasClaimant input i now q.config) (step-Change c q new.0) all)

-- With a coordinator's fee of at most 10000 basis points, and fresh identifiers for tasks, after any
-- history of calls from the empty queue each task's reward and fee add up to what the client paid in.
pub escrow_shared_out :
    (config : RobotQueueConfig) (cs : List Call) (k : Ident) (t : RobotTask)
    → config.coordinator_fee_bps ≤ 10000
    → AllFresh cs (init config)
    → lookup k (run cs (init config)).tasks ≡ some t
    → t.reward_sats + t.coordinator_fee_sats ≡ t.escrow_sats
unfolding init
escrow_shared_out config cs k t h new f =
    Entries-lookup (λ k t. IsSplit t) k t (run cs (init config)).tasks
      (run-IsSplit cs (init config) new h tt) f
