-- ===== src/Robot/Queue/Lifecycle.antt =====
-- src/swarm/robot-queue.ts: the change that each call makes to the tasks and to the earnings.
use Prim.Native.String.{String}
use edgecoder.Prelude.{
  ℕ, ◌+◌, ◌≡◌, refl, true, none, some, List, [], ◌∷◌, ◌++◌, arith, Ident, lookup, insert, Result,
  ok, err, sum_by, sum_by-append, if◌then◌else◌, map, is_some, ◌||◌,
}
use edgecoder.Robot.Types.{
  RobotTaskStatus, RobotTask, RobotEarningsEntry, pending_funding, funded, claimed, proof_submitted,
  settled, disputed, expired,
}
use edgecoder.Robot.Queue.{
  RobotQueue, Error, mark_funded, claim_task, submit_proof, settle_task, dispute_task, is,
  register_agent, heartbeat, create_task, new_task, expire_stale, expire_loop, mark_swept,
  sweep_entry, TaskInput,
}
use edgecoder.Robot.Queue.Calls.{
  Call, registers, beats, creates, funds, claims, submits, settles, disputes, expires, sweeps,
  after, step,
}
use edgecoder.Robot.Queue.Successes.{
  mark_funded_lem, claim_task_lem, submit_proof_lem, settle_task_lem, dispute_task_lem,
}

-- The life of a task.
pub data Edge : RobotTaskStatus → RobotTaskStatus → Type 0 where
  fund : Edge pending_funding funded
  claim : Edge funded claimed
  submit : Edge claimed proof_submitted
  settle : Edge proof_submitted settled
  dispute : Edge proof_submitted disputed
  expire : Edge claimed expired

-- What no call changes of a task.
pub record SameTerms (t t' : RobotTask) : Type 0 where
  pub id : t'.task_id ≡ t.task_id
  pub escrow : t'.escrow_sats ≡ t.escrow_sats
  pub reward : t'.reward_sats ≡ t.reward_sats
  pub fee : t'.coordinator_fee_sats ≡ t.coordinator_fee_sats

-- What a task has paid out, and all that was ever earned.
abbrev pub paid : RobotTask → ℕ
paid t = if is t.status settled then t.reward_sats else 0

abbrev pub earned : RobotQueue → ℕ
earned q = sum_by (λ (e : RobotEarningsEntry). e.earned_sats) q.earnings

-- A task that was claimed at some time names its claimant.
abbrev pub HasClaimant : RobotTask → Type 0
HasClaimant t = ((is t.status pending_funding || is t.status funded || is_some t.claimed_by) ≡ true)

pub data Change (q q' : RobotQueue) : Type 0 where
  kept : q'.tasks ≡ q.tasks → earned q' ≡ earned q → Change q q'
  moved :
      (i : Ident) (t t' : RobotTask)
      → lookup i q.tasks ≡ some t
      → q'.tasks ≡ insert i t' q.tasks
      → Edge t.status t'.status
      → SameTerms t t'
      → earned q' + paid t ≡ earned q + paid t'
      → (HasClaimant t → HasClaimant t')
      → Change q q'
  created :
      (input : TaskInput) (i : Ident) (now : ℕ)
      → lookup i q.tasks ≡ none
      → q'.tasks ≡ insert i (new_task input i now q.config) q.tasks
      → earned q' ≡ earned q
      → Change q q'
  swept_away :
      (now : ℕ)
      → q'.tasks ≡ (expire_loop now q.tasks q.agents).0
      → earned q' ≡ earned q
      → Change q q'

after-Change :
    {A : Type 0} (q : RobotQueue) (r : Result Error (RobotQueue × A))
    → ((q' : RobotQueue) (a : A) → r ≡ ok (q', a) → Change q q')
    → Change q (after q r)
after-Change q (ok (q', a)) f = f q' a refl
after-Change q (err e) f = kept refl refl

-- A change of the task's status, by an edge that is no settlement, moves no money.
move :
    (q : RobotQueue) (i : Ident) (t t' : RobotTask) (q' : RobotQueue)
    → lookup i q.tasks ≡ some t
    → q' ≡ record q { tasks = insert i t' q.tasks }
    → Edge t.status t'.status
    → SameTerms t t'
    → paid t ≡ paid t'
    → (HasClaimant t → HasClaimant t')
    → Change q q'
move q i t t' q' f e edge terms p c = moved i t t' f (ground arith) edge terms (ground arith) c

-- A new entry adds its sum.
earned_more :
    (es : List RobotEarningsEntry) (e : RobotEarningsEntry) {es' : List RobotEarningsEntry}
    → es' ≡ es ++ e ∷ []
    → sum_by (λ (e : RobotEarningsEntry). e.earned_sats) es'
      ≡ sum_by (λ (e : RobotEarningsEntry). e.earned_sats) es + e.earned_sats
earned_more es e h =
    rw h (omega (arith, sum_by-append (λ (e : RobotEarningsEntry). e.earned_sats) es (e ∷ [])))

module _ (q : RobotQueue) (i : Ident) where
  funds-Change : Change q (after q (mark_funded i q))
  funds-Change = after-Change q (mark_funded i q) λ q' t' e.
      let (t, f, s, u, v) = mark_funded_lem i q e in
      move q i t t' q' f v (rw (u, s) fund) (ground arith) (rw (u, s)) (λ h. ground arith)

  claims-Change : (a : Ident) (now : ℕ) → Change q (after q (claim_task i a now q))
  claims-Change a now = after-Change q (claim_task i a now q) λ q' t' e.
      let (t, f, s, u, v) = claim_task_lem i q a now e in
      move q i t t' q' f v (rw (u, s) claim) (ground arith) (rw (u, s)) (λ h. ground arith)

  submits-Change :
      (a : Ident) (p : String) (now : ℕ) → Change q (after q (submit_proof i a p now q))
  submits-Change a p now = after-Change q (submit_proof i a p now q) λ q' t' e.
      let (t, f, s, c, u, v) = submit_proof_lem i q a p now e in
      move q i t t' q' f v (rw (u, s) submit) (ground arith) (rw (u, s)) (λ h. ground arith)

  disputes-Change : (reason : String) → Change q (after q (dispute_task i reason q))
  disputes-Change reason = after-Change q (dispute_task i reason q) λ q' t' e.
      let (t, f, s, u, v) = dispute_task_lem i q reason e in
      move q i t t' q' f v (rw (u, s) dispute) (ground arith) (rw (u, s)) (λ h. ground arith)

  settles-Change :
      (fresh : Ident) (now entered : ℕ) → Change q (after q (settle_task i fresh now entered q))
  settles-Change fresh now entered = after-Change q (settle_task i fresh now entered q) λ q' t' e.
      let (t, f, s, u, ts, es, as', same) = settle_task_lem i q fresh now entered e in
      moved i t t' f ts (rw (u, s) settle) (ground arith)
        (let more = earned_more q.earnings _ es in ground arith) (λ h. ground arith)

registers-Change :
    (q : RobotQueue) (a p : Ident) (cs : List Ident) (k : Ident) (now : ℕ)
    → Change q (after q (register_agent a p cs k now q))
unfolding register_agent
registers-Change q a p cs k now =
    after-Change q (register_agent a p cs k now q) λ q' x e. kept (ground arith) (ground arith)

sweep_entry-earned :
    (a txid : Ident) (es : List RobotEarningsEntry)
    → sum_by (λ (e : RobotEarningsEntry). e.earned_sats) (map (sweep_entry a txid) es)
      ≡ sum_by (λ (e : RobotEarningsEntry). e.earned_sats) es
sweep_entry-earned a txid [] = refl
sweep_entry-earned a txid (e ∷ es) = ground (arith, sweep_entry-earned a txid es)

-- The identifiers that `randomUUID` gives to new tasks are not in use.
abbrev pub Fresh : Call → RobotQueue → Type 0
Fresh (creates input i now) q = lookup i q.tasks ≡ none
Fresh _ q = Unit

pub step-Change : (c : Call) (q : RobotQueue) → Fresh c q → Change q (step c q)
unfolding step heartbeat create_task expire_stale mark_swept
step-Change (registers a p cs k now) q new = registers-Change q a p cs k now
step-Change (beats a now) q new = kept (ground arith) (ground arith)
step-Change (creates input fresh now) q new = created input fresh now new refl refl
step-Change (funds i) q new = funds-Change q i
step-Change (claims i a now) q new = claims-Change q i a now
step-Change (submits i a p now) q new = submits-Change q i a p now
step-Change (settles i fresh now entered) q new = settles-Change q i fresh now entered
step-Change (disputes i reason) q new = disputes-Change q i reason
step-Change (expires now) q new = swept_away now refl refl
step-Change (sweeps a txid) q new = kept refl (sweep_entry-earned a txid q.earnings)
