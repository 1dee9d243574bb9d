-- ===== src/Swarm/Queue/Lease.antt =====
-- src/swarm/queue.ts: a subtask that an agent has claimed stays with it until it is completed or
-- put back.
use edgecoder.Prelude.{
  ℕ, zero, suc, ◌≡◌, refl, ◌≢◌, inl, inr, Bool, true, false, ◌&&◌, Option, some, List, [], ◌∷◌,
  ◌++◌, arith, Ident, Option-cases, Bool-cases, any, All, find, remove_first, get_elem?, set,
  contains, or_else, ap, sym, ◌∙◌, some-injective, lookup,
}
use edgecoder.Types.{Subtask, SubtaskResult}
use edgecoder.Swarm.Queue.{
  SwarmQueue, QueueItem, register_agent, heartbeat, enqueue_subtask, mark_remote_claimed, claim,
  complete, requeue, release_first, has_id, is_unclaimed, is_free, taken,
}
use edgecoder.Swarm.Queue.Claims.{claim-none, claim_takes}
use edgecoder.Swarm.Queue.Steps.{
  Call, registers, beats, enqueues, claims_remotely, claims, completes, requeues, requeues_stale,
  step, run, ids, AllDistinct, ids-set, run-AllDistinct,
}

module _ (p : QueueItem → Bool) (t : QueueItem) where
  find-append : (ts us : List QueueItem) → find p ts ≡ some t → find p (ts ++ us) ≡ some t
  find-append [] us e = cc
  find-append (u ∷ ts) us e = ground (arith, find-append ts us)

  find-remove_first :
      (r : QueueItem → Bool) (ts : List QueueItem)
      → find p ts ≡ some t
      → r t ≡ false
      → find p (remove_first r ts) ≡ some t
  find-remove_first r [] e h = cc
  find-remove_first r (u ∷ ts) e h = ground (arith, find-remove_first r ts)

  find-set :
      (ts : List QueueItem) (k : ℕ) (c c' : QueueItem)
      → get_elem? ts k ≡ some c
      → p c' ≡ p c
      → find p ts ≡ some t
      → c ≢ t
      → find p (set ts k c') ≡ some t
  find-set [] k c c' g e f ne = cc
  find-set (u ∷ ts) zero c c' g e f ne = ground arith
  find-set (u ∷ ts) (suc k) c c' g e f ne = ground (arith, find-set ts k c c')

pub contains-get_elem? :
    (ts : List QueueItem) (k : ℕ) (t : QueueItem)
    → get_elem? ts k ≡ some t
    → contains t.subtask.id (ids ts) ≡ true
contains-get_elem? [] k t g = cc
contains-get_elem? (u ∷ ts) zero t g = ground arith
contains-get_elem? (u ∷ ts) (suc k) t g = ground (arith, contains-get_elem? ts k t g)

-- Where identifiers are distinct, the task at a place is the one found by its identifier.
find_of_get_elem? :
    (ts : List QueueItem) (k : ℕ) (t : QueueItem)
    → AllDistinct (ids ts)
    → get_elem? ts k ≡ some t
    → find (has_id t.subtask.id) ts ≡ some t
find_of_get_elem? [] k t d g = cc
find_of_get_elem? (u ∷ ts) zero t d g = ground arith
find_of_get_elem? (u ∷ ts) (suc k) t d g =
    ground (arith, find_of_get_elem? ts k t d.1 g, contains-get_elem? ts k t g)

-- The first task of the identifier is held by the agent.
abbrev Holds : Ident → Ident → SwarmQueue → Type 0
Holds agent i q = (t : QueueItem) × (find (has_id i) q.tasks ≡ some t) × (t.claimed_by ≡ some agent)

-- The call does not take the subtask away from its holder.
abbrev Leaves : Ident → Call → Type 0
Leaves i (completes r) = r.subtask_id ≢ i
Leaves i (requeues j) = j ≢ i
Leaves i (requeues_stale timeout now) = ⊥
Leaves i _ = Unit

find-release_first :
    (i j : Ident) (t : QueueItem) (ts : List QueueItem)
    → j ≢ i
    → find (has_id i) ts ≡ some t
    → find (has_id i) (release_first j ts) ≡ some t
unfolding release_first
find-release_first i j t [] ne e = cc
find-release_first i j t (u ∷ ts) ne e = ground (arith, find-release_first i j t ts)

find-has_id :
    (i : Ident) (t : QueueItem) (ts : List QueueItem)
    → find (has_id i) ts ≡ some t
    → t.subtask.id ≡ i
find-has_id i t [] e = cc
find-has_id i t (u ∷ ts) e = ground (arith, find-has_id i t ts)

module _ (agent i : Ident) (real : agent ≢ 0) where
  free_not_held : (now : ℕ) (c : QueueItem) → is_free now c ≡ true → ¬ (c.claimed_by ≡ some agent)
  free_not_held now c free h = ground arith

  claim-Holds :
      (b : Ident) (model : Option Ident) (now at : ℕ) (q : SwarmQueue)
      → Holds agent i q
      → Holds agent i (claim b model now at q).0
  claim-Holds b model now at q (t, f, h) = elim (Option-cases (claim b model now at q).1) [
    | inl e ↦
        rw (claim-none b model now at q (ap (λ o. ((claim b model now at q).0, o)) e)) (t, f, h)
    | inr (s, e) ↦
        let taking =
          claim_takes b model now at q agent (ap (λ o. ((claim b model now at q).0, o)) e) in
        let (k, c, g, free, u, ts) = taking.0 in
        (
          t,
          rw ts (
              find-set (has_id i) t q.tasks k c (taken b at c) g refl f
                (λ same. free_not_held now c free (ap (λ (x : QueueItem). x.claimed_by) same ∙ h))),
          h,
        )
  ]

  enqueue-Holds :
      (id : Option Ident) (fresh : Ident) (s : Subtask) (delay : Option ℕ) (now : ℕ)
      (q : SwarmQueue)
      → Holds agent i q
      → Holds agent i (enqueue_subtask id fresh s delay now q).0
  unfolding enqueue_subtask
  enqueue-Holds id fresh s delay now q (t, f, h) =
      elim (Bool-cases (any (has_id (or_else id fresh)) q.tasks)) [
        | inl e ↦ rw e (t, f, h)
        | inr e ↦ rw e (t, find-append (has_id i) t q.tasks _ f, h)
      ]

  remote-Holds :
      (j : Ident) (q : SwarmQueue) → Holds agent i q → Holds agent i (mark_remote_claimed j q).0
  unfolding mark_remote_claimed
  remote-Holds j q (t, f, h) = elim (Bool-cases (any (λ u. has_id j u && is_unclaimed u) q.tasks)) [
    | inl e ↦ rw e (
      t,
      find-remove_first (has_id i) t (λ u. has_id j u && is_unclaimed u) q.tasks f (ground arith),
      h,
    )
    | inr e ↦ rw e (t, f, h)
  ]

  complete-Holds :
      (r : SubtaskResult) (q : SwarmQueue)
      → r.subtask_id ≢ i
      → Holds agent i q
      → Holds agent i (complete r q)
  unfolding complete
  complete-Holds r q ne (t, f, h) = elim (Option-cases (find (has_id r.subtask_id) q.tasks)) [
    | inl e ↦ rw (e, complete) (t, f, h)
    | inr (u, e) ↦
        rw (e, complete)
          (
            t,
            find-remove_first (has_id i) t (has_id r.subtask_id) q.tasks f
                (ground (arith, find-has_id i t q.tasks f)),
            h,
          )
  ]

  requeue-Holds :
      (j : Ident) (q : SwarmQueue) → j ≢ i → Holds agent i q → Holds agent i (requeue j q).0
  unfolding requeue
  requeue-Holds j q ne (t, f, h) = elim (Bool-cases (any (has_id j) q.tasks)) [
    | inl e ↦ rw e (t, find-release_first i j t q.tasks ne f, h)
    | inr e ↦ rw e (t, f, h)
  ]

  heartbeat-Holds :
      (a : Ident) (now : ℕ) (q : SwarmQueue) → Holds agent i q → Holds agent i (heartbeat a now q)
  unfolding heartbeat
  heartbeat-Holds a now q h = elim (Option-cases (lookup a q.agents)) [
    | inl e ↦ rw (e, heartbeat) h
    | inr (s, e) ↦ rw (e, heartbeat) h
  ]

  step-Holds : (c : Call) (q : SwarmQueue) → Leaves i c → Holds agent i q → Holds agent i (step c q)
  unfolding step register_agent
  step-Holds (registers a p m now) q l h = h
  step-Holds (beats a now) q l h = heartbeat-Holds a now q h
  step-Holds (enqueues id fresh s delay now) q l h = enqueue-Holds id fresh s delay now q h
  step-Holds (claims_remotely j) q l h = remote-Holds j q h
  step-Holds (claims b m now at) q l h = claim-Holds b m now at q h
  step-Holds (completes r) q l h = complete-Holds r q l h
  step-Holds (requeues j) q l h = requeue-Holds j q l h
  step-Holds (requeues_stale timeout now) q l h = absurd l

  -- A held subtask stays with its holder over any history of calls that leave it alone.
  pub run-Holds :
      (cs : List Call) (q : SwarmQueue)
      → All (Leaves i) cs
      → Holds agent i q
      → Holds agent i (run cs q)
  unfolding run
  run-Holds [] q l h = h
  run-Holds (c ∷ cs) q l h = run-Holds cs (step c q) l.1 (step-Holds c q l.0 h)

  -- No claim hands out a subtask that is held.
  claim_not_held :
      (b : Ident) (model : Option Ident) (now at : ℕ) (q : SwarmQueue) {q' : SwarmQueue}
      {s : Subtask}
      → AllDistinct (ids q.tasks)
      → Holds agent i q
      → claim b model now at q ≡ (q', some s)
      → s.id ≢ i
  claim_not_held b model now at q d (t, f, h) e same =
      let (k, c, g, free, u, ts) = (claim_takes b model now at q agent e).0 in
      let found : find (has_id i) q.tasks ≡ some c =
        rw (← (ap (λ (x : Subtask). x.id) u ∙ same)) (find_of_get_elem? q.tasks k c d g) in
      free_not_held now c free
        (ap (λ (x : QueueItem). x.claimed_by) (some-injective c t (sym found ∙ f)) ∙ h)

get_elem?-set_self :
    (ts : List QueueItem) (k : ℕ) (t u : QueueItem)
    → get_elem? ts k ≡ some t
    → get_elem? (set ts k u) k ≡ some u
get_elem?-set_self [] k t u g = cc
get_elem?-set_self (v ∷ ts) zero t u g = refl
get_elem?-set_self (v ∷ ts) (suc k) t u g = get_elem?-set_self ts k t u g

-- A subtask that an agent with a name has claimed is handed to nobody, whatever is called in
-- between, until it is completed, put back by its identifier, or swept by the timeout of stale
-- claims. The queue's identifiers are distinct to begin with.
pub claim_exclusive :
    (agent b : Ident) (model other : Option Ident) (now at later at' : ℕ) (q : SwarmQueue)
    (cs : List Call) {q' r : SwarmQueue} {s s' : Subtask}
    → agent ≢ 0
    → AllDistinct (ids q.tasks)
    → claim agent model now at q ≡ (q', some s)
    → All (Leaves s.id) cs
    → claim b other later at' (run cs q') ≡ (r, some s')
    → s'.id ≢ s.id
claim_exclusive agent b model other now at later at' q cs {q'} {r} {s} {s'} real d e l e' =
    let (k, t, g, free, u, ts) = (claim_takes agent model now at q agent e).0 in
    let d' : AllDistinct (ids q'.tasks) =
      rw (ts, ids-set q.tasks k t (taken agent at t) g refl) d in
    let held : Holds agent s.id q' = (
      taken agent at t,
      rw (← u, ts)
          (find_of_get_elem? (set q.tasks k (taken agent at t)) k (taken agent at t) (rw ts at d')
            (get_elem?-set_self q.tasks k t (taken agent at t) g)),
      refl,
    ) in
    claim_not_held agent s.id real b other later at' (run cs q') (run-AllDistinct cs q' d')
      (run-Holds agent s.id real cs q' l held) e'
