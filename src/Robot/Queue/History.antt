-- ===== src/Robot/Queue/History.antt =====
-- src/swarm/robot-queue.ts: what holds of every history of calls.
use mathlib.Core.Option
use edgecoder.Prelude.{
  ℕ, ◌≡◌, refl, inl, inr, none, some, List, [], ◌∷◌, arith, Ident, lookup, insert, Dict, Bool-cases,
  if◌then◌else◌, ◌==◌, lookup-insert, subst,
}
use edgecoder.Robot.Types.{RobotTaskStatus, RobotTask, RobotAgent, claimed, expired}
use edgecoder.Robot.Queue.{RobotQueue, new_task, expire_loop, is_overdue, failed}
use edgecoder.Robot.Queue.Calls.{Call, step, run}
use edgecoder.Robot.Queue.Lifecycle.{
  Edge, expire, SameTerms, Change, kept, moved, created, swept_away, step-Change, Fresh,
}

-- Any number of steps of a task's life.
pub data Reaches (s : RobotTaskStatus) : RobotTaskStatus → Type 0 where
  stays : Reaches s s
  goes : {t u : RobotTaskStatus} → Reaches s t → Edge t u → Reaches s u

-- `t` has become `t'`.
pub record Becomes (t t' : RobotTask) : Type 0 where
  pub reaches : Reaches t.status t'.status
  pub terms : SameTerms t t'

-- Every task of the first is still there in the second.
abbrev Follows : Dict RobotTask → Dict RobotTask → Type 0
Follows ts ts' =
    (k : Ident) (t : RobotTask)
    → lookup k ts ≡ some t
    → (t' : RobotTask) × (lookup k ts' ≡ some t') × Becomes t t'

SameTerms-refl : (t : RobotTask) → SameTerms t t
SameTerms-refl t = record { id = refl; escrow = refl; reward = refl; fee = refl }

Becomes-refl : (t : RobotTask) → Becomes t t
Becomes-refl t = record { reaches = stays; terms = SameTerms-refl t }

Reaches-trans : {s t u : RobotTaskStatus} → Reaches s t → Reaches t u → Reaches s u
Reaches-trans r stays = r
Reaches-trans r (goes r' e) = goes (Reaches-trans r r') e

Becomes-trans : (t u v : RobotTask) → Becomes t u → Becomes u v → Becomes t v
Becomes-trans t u v b c = record {
  reaches = Reaches-trans b.reaches c.reaches;
  terms = let x = b.terms in let y = c.terms in ground arith;
}

abbrev expire_task : ℕ → RobotTask → RobotTask
expire_task now t = if is_overdue now t then record t { status = expired } else t

abbrev pub AllFresh : List Call → RobotQueue → Type 0
AllFresh [] q = Unit
AllFresh (c ∷ cs) q = Fresh c q × AllFresh cs (step c q)

lookup-expire_loop :
    (now : ℕ) (k : Ident) (ts : Dict RobotTask) (as' : Dict RobotAgent)
    → lookup k (expire_loop now ts as').0 ≡ Option.map (expire_task now) (lookup k ts)
unfolding expire_loop
lookup-expire_loop now k [] as' = refl
lookup-expire_loop now k ((i, t) ∷ ts) as' =
    let late = is_overdue now t in
    let ih = lookup-expire_loop now k ts (if late then failed t.claimed_by as' else as') in
    ground (arith, ih)

Follows-insert :
    (i : Ident) (t t' : RobotTask) (ts : Dict RobotTask)
    → lookup i ts ≡ some t
    → Becomes t t'
    → Follows ts (insert i t' ts)
Follows-insert i t t' ts f b k u e = elim (Bool-cases (i == k)) [
  | inl same ↦
      let v : t ≡ u = ground arith in (t', ground (arith, lookup-insert i k t' ts), rw (← v) b)
  | inr other ↦ (u, ground (arith, lookup-insert i k t' ts), Becomes-refl u)
]

Follows-insert_new :
    (i : Ident) (t' : RobotTask) (ts : Dict RobotTask)
    → lookup i ts ≡ none
    → Follows ts (insert i t' ts)
Follows-insert_new i t' ts f k u e = (u, ground (arith, lookup-insert i k t' ts), Becomes-refl u)

expire_task-Becomes : (now : ℕ) (t : RobotTask) → Becomes t (expire_task now t)
expire_task-Becomes now t = elim (Bool-cases (is_overdue now t)) [
  | inl e ↦
      let s : claimed ≡ t.status = ground arith in
      rw e (record {
        reaches = subst (λ x. Reaches x expired) s (goes stays expire);
        terms = record { id = refl; escrow = refl; reward = refl; fee = refl };
      })
  | inr e ↦ rw e (Becomes-refl t)
]

Change-Follows : (q q' : RobotQueue) → Change q q' → Follows q.tasks q'.tasks
Change-Follows q q' (kept ts e) k t f = (t, rw ts f, Becomes-refl t)
Change-Follows q q' (moved i t t' f ts edge terms p c) k u g =
    rw ts
      (Follows-insert i t t' q.tasks f (record { reaches = goes stays edge; terms = terms }) k u g)
Change-Follows q q' (created input i now new ts e) k u g =
    rw ts (Follows-insert_new i (new_task input i now q.config) q.tasks new k u g)
Change-Follows q q' (swept_away now ts e) k t f =
    (expire_task now t, rw (ts, lookup-expire_loop, f) refl, expire_task-Becomes now t)

-- Over any history of calls, in which `randomUUID` repeats no identifier of a task, a task is never
-- lost, its status follows the edges of its life (funded, claimed, proof submitted, then settled or
-- disputed; or expired after the claim), and its escrow, reward and fee stay what they were.
pub history_follows_lifecycle :
    (cs : List Call) (q : RobotQueue) (k : Ident) (t : RobotTask)
    → AllFresh cs q
    → lookup k q.tasks ≡ some t
    → (t' : RobotTask) × (lookup k (run cs q).tasks ≡ some t') × Becomes t t'
unfolding run
history_follows_lifecycle [] q k t new f = (t, f, Becomes-refl t)
history_follows_lifecycle (c ∷ cs) q k t new f =
    let (u, g, b) = Change-Follows q (step c q) (step-Change c q new.0) k t f in
    let (v, h, b') = history_follows_lifecycle cs (step c q) k u new.1 g in
    (v, h, Becomes-trans t u v b b')
