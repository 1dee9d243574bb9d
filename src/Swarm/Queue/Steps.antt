-- ===== src/Swarm/Queue/Steps.antt =====
-- src/swarm/queue.ts: histories of calls of a `SwarmQueue`, and that a subtask that an agent holds
-- is handed to nobody else.
use edgecoder.Prelude.{
  ℕ, zero, suc, ◌≡◌, refl, inl, inr, Bool, false, ◌&&◌, ◌||◌, Option, some, List, [], ◌∷◌, ◌++◌,
  arith, Ident, Option-cases, Bool-cases, any, remove_first, get_elem?, set, map, contains, ◌∙◌,
  or_else, ap, sym, ◌==◌,
}
use edgecoder.Types.{Subtask, SubtaskResult, ExecutionPolicy}
use edgecoder.Swarm.Queue.{
  SwarmQueue, QueueItem, AgentMetadata, init, register_agent, heartbeat, enqueue_subtask,
  mark_remote_claimed, claim, complete, requeue, requeue_stale, release_first, release_stale,
  has_id, is_unclaimed, taken,
}
use edgecoder.Swarm.Queue.Claims.{claim-none, claim_takes}

pub data Call : Type 0 where
  registers : Ident → ExecutionPolicy → Option AgentMetadata → ℕ → Call
  beats : Ident → ℕ → Call
  enqueues : Option Ident → Ident → Subtask → Option ℕ → ℕ → Call
  claims_remotely : Ident → Call
  claims : Ident → Option Ident → ℕ → ℕ → Call
  completes : SubtaskResult → Call
  requeues : Ident → Call
  requeues_stale : ℕ → ℕ → Call

-- The state after a call; its reply is dropped.
unfoldable pub step : Call → SwarmQueue → SwarmQueue
step (registers a p m now) q = register_agent a p m now q
step (beats a now) q = heartbeat a now q
step (enqueues id fresh s delay now) q = (enqueue_subtask id fresh s delay now q).0
step (claims_remotely i) q = (mark_remote_claimed i q).0
step (claims a m now at) q = (claim a m now at q).0
step (completes r) q = complete r q
step (requeues i) q = (requeue i q).0
step (requeues_stale timeout now) q = (requeue_stale timeout now q).0

unfoldable pub run : List Call → SwarmQueue → SwarmQueue
run [] q = q
run (c ∷ cs) q = run cs (step c q)

abbrev pub ids : List QueueItem → List Ident
ids = map (λ t. t.subtask.id)

-- No identifier twice.
abbrev pub AllDistinct : List Ident → Type 0
AllDistinct [] = Unit
AllDistinct (i ∷ is) = (contains i is ≡ false) × AllDistinct is

pub any-has_id : (i : Ident) (ts : List QueueItem) → any (has_id i) ts ≡ contains i (ids ts)
any-has_id i [] = refl
any-has_id i (t ∷ ts) = ground (arith, any-has_id i ts)

pub contains-append :
    (i j : Ident) (is : List Ident) → contains i (is ++ j ∷ []) ≡ (contains i is || (j == i))
contains-append i j [] = ground arith
contains-append i j (k ∷ is) = ground (arith, contains-append i j is)

AllDistinct-append :
    (is : List Ident) (j : Ident)
    → AllDistinct is
    → contains j is ≡ false
    → AllDistinct (is ++ j ∷ [])
AllDistinct-append [] j d h = (refl, tt)
AllDistinct-append (i ∷ is) j d h =
    ground (arith, AllDistinct-append is j d.1, contains-append i j is)

ids-append :
    (ts : List QueueItem) (t : QueueItem) → ids (ts ++ t ∷ []) ≡ ids ts ++ t.subtask.id ∷ []
ids-append [] t = refl
ids-append (u ∷ ts) t = ap (◌∷◌ u.subtask.id) (ids-append ts t)

pub ids-set :
    (ts : List QueueItem) (k : ℕ) (t u : QueueItem)
    → get_elem? ts k ≡ some t
    → u.subtask ≡ t.subtask
    → ids (set ts k u) ≡ ids ts
ids-set [] k t u g e = refl
ids-set (v ∷ ts) zero t u g e = ground arith
ids-set (v ∷ ts) (suc k) t u g e = ap (◌∷◌ v.subtask.id) (ids-set ts k t u g e)

ids-release_first : (i : Ident) (ts : List QueueItem) → ids (release_first i ts) ≡ ids ts
unfolding release_first
ids-release_first i [] = refl
ids-release_first i (t ∷ ts) = ground (arith, ids-release_first i ts)

ids-release_stale :
    (timeout now : ℕ) (ts : List QueueItem) → ids (release_stale timeout now ts).0 ≡ ids ts
unfolding release_stale
ids-release_stale timeout now [] = refl
ids-release_stale timeout now (t ∷ ts) = ground (arith, ids-release_stale timeout now ts)

contains-remove_first :
    (i : Ident) (p : QueueItem → Bool) (ts : List QueueItem)
    → contains i (ids ts) ≡ false
    → contains i (ids (remove_first p ts)) ≡ false
contains-remove_first i p [] h = refl
contains-remove_first i p (t ∷ ts) h = ground (arith, contains-remove_first i p ts)

AllDistinct-remove_first :
    (p : QueueItem → Bool) (ts : List QueueItem)
    → AllDistinct (ids ts)
    → AllDistinct (ids (remove_first p ts))
AllDistinct-remove_first p [] d = tt
AllDistinct-remove_first p (t ∷ ts) d =
    ground (arith, AllDistinct-remove_first p ts d.1, contains-remove_first t.subtask.id p ts d.0)

claim-AllDistinct :
    (agent : Ident) (model : Option Ident) (now at : ℕ) (q : SwarmQueue)
    → AllDistinct (ids q.tasks)
    → AllDistinct (ids (claim agent model now at q).0.tasks)
claim-AllDistinct agent model now at q d = elim (Option-cases (claim agent model now at q).1) [
  | inl e ↦ rw (claim-none agent model now at q (ap (λ o. ((claim agent model now at q).0, o)) e)) d
  | inr (s, e) ↦
      let taking =
        claim_takes agent model now at q agent (ap (λ o. ((claim agent model now at q).0, o)) e) in
      let (i, t, g, f, u, ts) = taking.0 in rw (ts, ids-set q.tasks i t (taken agent at t) g refl) d
]

enqueue-AllDistinct :
    (id : Option Ident) (fresh : Ident) (s : Subtask) (delay : Option ℕ) (now : ℕ) (q : SwarmQueue)
    → AllDistinct (ids q.tasks)
    → AllDistinct (ids (enqueue_subtask id fresh s delay now q).0.tasks)
unfolding enqueue_subtask
enqueue-AllDistinct id fresh s delay now q d =
    elim (Bool-cases (any (has_id (or_else id fresh)) q.tasks)) [
      | inl e ↦ rw e d
      | inr e ↦
          rw (e, ids-append)
            (AllDistinct-append (ids q.tasks) (or_else id fresh) d
              (sym (any-has_id (or_else id fresh) q.tasks) ∙ e))
    ]

requeue-AllDistinct :
    (i : Ident) (q : SwarmQueue)
    → AllDistinct (ids q.tasks)
    → AllDistinct (ids (requeue i q).0.tasks)
unfolding requeue
requeue-AllDistinct i q d = elim (Bool-cases (any (has_id i) q.tasks)) [
  | inl e ↦ rw (e, ids-release_first) d
  | inr e ↦ rw e d
]

-- Whatever is called, the queue never holds two tasks of one identifier.
pub step-AllDistinct :
    (c : Call) (q : SwarmQueue) → AllDistinct (ids q.tasks) → AllDistinct (ids (step c q).tasks)
unfolding step register_agent heartbeat mark_remote_claimed complete requeue requeue_stale
step-AllDistinct (registers a p m now) q d = d
step-AllDistinct (beats a now) q d = ground arith
step-AllDistinct (enqueues id fresh s delay now) q d = enqueue-AllDistinct id fresh s delay now q d
step-AllDistinct (claims_remotely i) q d =
    ground (arith, AllDistinct-remove_first (λ t. has_id i t && is_unclaimed t) q.tasks d)
step-AllDistinct (claims a m now at) q d = claim-AllDistinct a m now at q d
step-AllDistinct (completes r) q d =
    ground (arith, AllDistinct-remove_first (has_id r.subtask_id) q.tasks d)
step-AllDistinct (requeues i) q d = requeue-AllDistinct i q d
step-AllDistinct (requeues_stale timeout now) q d = rw ids-release_stale d

pub run-AllDistinct :
    (cs : List Call) (q : SwarmQueue)
    → AllDistinct (ids q.tasks)
    → AllDistinct (ids (run cs q).tasks)
unfolding run
run-AllDistinct [] q d = d
run-AllDistinct (c ∷ cs) q d = run-AllDistinct cs (step c q) (step-AllDistinct c q d)

-- From the empty queue no history of calls leads to two tasks of one identifier.
pub run-init-AllDistinct :
    (has_store : Bool) (cs : List Call) → AllDistinct (ids (run cs (init has_store)).tasks)
unfolding init
run-init-AllDistinct has_store cs = run-AllDistinct cs (init has_store) tt
