-- ===== src/Robot/Queue/Settling.antt =====
-- src/swarm/robot-queue.ts: what settling a task does to the books.
use edgecoder.Prelude.{
  ℕ, ◌+◌, ◌≡◌, refl, inl, inr, sym, ◌∙◌, some, List, [], ◌∷◌, ◌++◌, arith, Ident, lookup, ok, ◌==◌,
  if◌then◌else◌, sum_by, sum_by-append, Entries-lookup, lookup-insert_self, Option-cases,
  Result-cases, some-injective,
}
use edgecoder.Robot.Types.{
  RobotTask, RobotEarningsEntry, RobotQueueConfig, proof_submitted, settled, accrued,
}
use edgecoder.Robot.Queue.{RobotQueue, init, settle_task}
use edgecoder.Robot.Queue.Calls.{Call, run}
use edgecoder.Robot.Queue.Lifecycle.{HasClaimant}
use edgecoder.Robot.Queue.Successes.{settle_task_lem}
use edgecoder.Robot.Queue.History.{AllFresh}
use edgecoder.Robot.Queue.Money.{run-HasClaimant}
use edgecoder.Robot.Queue.Sweep.{owed, owed_entry}

settles_ok :
    (q : RobotQueue) (k fresh : Ident) (now entered : ℕ) (t : RobotTask)
    → lookup k q.tasks ≡ some t
    → t.status ≡ proof_submitted
    → (r : RobotQueue × RobotTask) × (settle_task k fresh now entered q ≡ ok r)
unfolding settle_task
settles_ok q k fresh now entered t f s = elim (Result-cases (settle_task k fresh now entered q)) [
  | inl r ↦ r
  | inr (x, e) ↦ absurd (ground (arith, f, s))
]

owed-settled :
    (a b : Ident) (es : List RobotEarningsEntry) (x : RobotEarningsEntry)
    → x.agent_id ≡ some a
    → x.status ≡ accrued
    → sum_by (owed_entry b) (es ++ x ∷ [])
      ≡ sum_by (owed_entry b) es + (if a == b then x.earned_sats else 0)
owed-settled a b es x c s = ground (arith, sum_by-append (owed_entry b) es (x ∷ []), c, s)

claimant :
    (t : RobotTask)
    → HasClaimant t
    → t.status ≡ proof_submitted
    → (a : Ident) × (t.claimed_by ≡ some a)
claimant t c s = elim (Option-cases t.claimed_by) [ inl n ↦ absurd (ground (arith, c)) | inr h ↦ h ]

-- After any history from the empty queue with fresh identifiers for tasks, a task whose proof is
-- submitted has a claimant, and settling it goes through: the task is found settled, and the claimant
-- is owed its reward more than before, and nobody else anything.
pub settle_goes_through :
    (config : RobotQueueConfig) (cs : List Call) (k fresh : Ident) (now entered : ℕ) (t : RobotTask)
    → AllFresh cs (init config)
    → lookup k (run cs (init config)).tasks ≡ some t
    → t.status ≡ proof_submitted
    → (a : Ident) × (t.claimed_by ≡ some a)
      × (r : RobotQueue × RobotTask) × (settle_task k fresh now entered (run cs (init config))
          ≡ ok r)
      × (lookup k r.0.tasks ≡ some (record t { status = settled; settled_at_ms = some now }))
      × ((b : Ident)
          → owed b r.0 ≡ owed b (run cs (init config)) + (if a == b then t.reward_sats else 0))
unfolding init
settle_goes_through config cs k fresh now entered t new f s =
    let q = run cs (init config) in
    let (a, c) =
      claimant t
        (Entries-lookup (λ k t. HasClaimant t) k t q.tasks (run-HasClaimant cs (init config) new tt)
          f)
        s in
    let (r, e) = settles_ok q k fresh now entered t f s in
    let (u, found, proved, t', ts, es, as', cfg) =
      settle_task_lem k q fresh now entered {q' = r.0} {t' = r.1} e in
    let this : u ≡ t = some-injective u t (sym found ∙ f) in
    (
      a,
      c,
      r,
      e,
      rw (ts, t', this)
          (lookup-insert_self k (record t { status = settled; settled_at_ms = some now }) q.tasks),
      λ b. rw (es, this) (owed-settled a b q.earnings _ c refl),
    )
