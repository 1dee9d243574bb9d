-- ===== src/Robot/Queue/Successes.antt =====
-- src/swarm/robot-queue.ts: exactly when each call goes through, and what it then does.
use Prim.Native.String.{String}
use edgecoder.Prelude.{
  ℕ, ◌≡◌, refl, inl, inr, true, none, some, [], ◌∷◌, ◌++◌, arith, Ident, lookup, insert, ok,
  Option-cases,
}
use edgecoder.Robot.Types.{
  RobotTaskStatus, RobotTask, pending_funding, funded, claimed, proof_submitted, settled, disputed,
  accrued,
}
use edgecoder.Robot.Queue.{
  RobotQueue, mark_funded, claim_task, submit_proof, succeeded, settle_task, dispute_task, is,
}

is-eq : (s r : RobotTaskStatus) → is s r ≡ true → s ≡ r
is-eq pending_funding pending_funding h = refl
is-eq _ _ h = ground arith

module _ (i : Ident) (q : RobotQueue) where
  pub mark_funded_lem :
      {q' : RobotQueue} {t' : RobotTask}
      → mark_funded i q ≡ ok (q', t')
      → (t : RobotTask) × (lookup i q.tasks ≡ some t)
        × (t.status ≡ pending_funding)
        × (t' ≡ record t { status = funded })
        × (q' ≡ record q { tasks = insert i t' q.tasks })
  unfolding mark_funded
  mark_funded_lem e = elim (Option-cases (lookup i q.tasks)) [
    | inl n ↦ absurd (ground arith)
    | inr (t, f) ↦
        (t, f, ground (arith, is-eq t.status pending_funding), ground arith, ground arith)
  ]

  pub claim_task_lem :
      (a : Ident) (now : ℕ) {q' : RobotQueue} {t' : RobotTask}
      → claim_task i a now q ≡ ok (q', t')
      → (t : RobotTask) × (lookup i q.tasks ≡ some t)
        × (t.status ≡ funded)
        × (t' ≡ record t { status = claimed; claimed_by = some a; claimed_at_ms = some now })
        × (q' ≡ record q { tasks = insert i t' q.tasks })
  unfolding claim_task
  claim_task_lem a now e = elim (Option-cases (lookup i q.tasks)) [
    | inl n ↦ absurd (ground arith)
    | inr (t, f) ↦ elim (Option-cases (lookup a q.agents)) [
      | inl n ↦ absurd (ground arith)
      | inr (agent, g) ↦ (t, f, ground (arith, is-eq t.status funded), ground arith, ground arith)
    ]
  ]

  pub submit_proof_lem :
      (a : Ident) (payload : String) (now : ℕ) {q' : RobotQueue} {t' : RobotTask}
      → submit_proof i a payload now q ≡ ok (q', t')
      → (t : RobotTask) × (lookup i q.tasks ≡ some t)
        × (t.status ≡ claimed)
        × (t.claimed_by ≡ some a)
        × (t' ≡ record t {
          status = proof_submitted;
          proof_payload = some payload;
          proof_submitted_at_ms = some now;
        })
        × (q' ≡ record q { tasks = insert i t' q.tasks })
  unfolding submit_proof
  submit_proof_lem a payload now e = elim (Option-cases (lookup i q.tasks)) [
    | inl n ↦ absurd (ground arith)
    | inr (t, f) ↦
        (t, f, ground (arith, is-eq t.status claimed), ground arith, ground arith, ground arith)
  ]

  pub settle_task_lem :
      (fresh : Ident) (now entered : ℕ) {q' : RobotQueue} {t' : RobotTask}
      → settle_task i fresh now entered q ≡ ok (q', t')
      → (t : RobotTask) × (lookup i q.tasks ≡ some t)
        × (t.status ≡ proof_submitted)
        × (t' ≡ record t { status = settled; settled_at_ms = some now })
        × (q'.tasks ≡ insert i t' q.tasks)
        × (q'.earnings
            ≡ q.earnings
              ++ record {
                entry_id = fresh;
                agent_id = t.claimed_by;
                task_id = t.task_id;
                earned_sats = t.reward_sats;
                status = accrued;
                sweep_tx_id = none;
                created_at_ms = entered;
              }
                ∷ [])
        × (q'.agents ≡ succeeded t.claimed_by q.agents)
        × (q'.config ≡ q.config)
  unfolding settle_task
  settle_task_lem fresh now entered e = elim (Option-cases (lookup i q.tasks)) [
    | inl n ↦ absurd (ground arith)
    | inr (t, f) ↦ (
      t,
      f,
      ground (arith, is-eq t.status proof_submitted),
      ground arith,
      ground arith,
      ground arith,
      ground arith,
      ground arith,
    )
  ]

  pub dispute_task_lem :
      (reason : String) {q' : RobotQueue} {t' : RobotTask}
      → dispute_task i reason q ≡ ok (q', t')
      → (t : RobotTask) × (lookup i q.tasks ≡ some t)
        × (t.status ≡ proof_submitted)
        × (t' ≡ record t { status = disputed; dispute_reason = some reason })
        × (q' ≡ record q { tasks = insert i t' q.tasks })
  unfolding dispute_task
  dispute_task_lem reason e = elim (Option-cases (lookup i q.tasks)) [
    | inl n ↦ absurd (ground arith)
    | inr (t, f) ↦
        (t, f, ground (arith, is-eq t.status proof_submitted), ground arith, ground arith)
  ]
