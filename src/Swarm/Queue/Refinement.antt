-- ===== src/Swarm/Queue/Refinement.antt =====
-- src/swarm/queue.ts: every call of a queue follows the rules of the board.
use mathlib.Core.Option
use edgecoder.Prelude.{
  ℕ, ◌+◌, ◌≡◌, inl, inr, refl, sym, ap, ◌∙◌, Bool, true, false, ◌&&◌, Option, none, some, List, [],
  ◌∷◌, arith, if◌then◌else◌, ◌==◌, ==→eq, Ident, truthy, or_else, any, find, remove_first, contains,
  lookup, Bool-cases, Option-cases,
}
use edgecoder.Types.{SubtaskResult, Subtask}
use edgecoder.Swarm.Queue.{
  SwarmQueue, QueueItem, init, register_agent, heartbeat, enqueue_subtask, mark_remote_claimed,
  claim, complete, requeue, requeue_stale, has_id, is_unclaimed, taken,
}
use edgecoder.Swarm.Queue.Steps.{
  Call, registers, beats, enqueues, claims_remotely, claims, completes, requeues, requeues_stale,
  step, run, ids, AllDistinct, any-has_id, step-AllDistinct,
}
use edgecoder.Swarm.Queue.Claims.{claim-none, claim_takes}
use edgecoder.Swarm.Queue.Results.{
  find-none_of_contains, find-remove_first_self, find_other-remove_first,
}
use edgecoder.Swarm.Queue.Board.{
  absent, waiting, granted, phase_of, Board, board, arrived, taken_away, Allowed, find-set_at,
  find-at, phase-enqueue, phase-release_first, phase-release_stale,
}

-- A subtask that is there has arrived already.
known-arrived :
    (j i : Ident) (ts : List QueueItem)
    → contains j (ids ts) ≡ true
    → phase_of (find (has_id i) ts)
      ≡ (if j == i then arrived (phase_of (find (has_id i) ts)) else phase_of (find (has_id i) ts))
known-arrived j i [] h = cc
known-arrived j i (t ∷ ts) h = ground (arith, known-arrived j i ts)

enqueue-Allowed :
    (id : Option Ident) (fresh : Ident) (s : Subtask) (delay : Option ℕ) (now : ℕ) (q : SwarmQueue)
    → Allowed
        (enqueues id fresh s delay now)
        (board q)
        (board (enqueue_subtask id fresh s delay now q).0)
unfolding enqueue_subtask
enqueue-Allowed id fresh s delay now q i =
    let j = or_else id fresh in
    let item : QueueItem = record {
      subtask = record s { id = j };
      claimed_by = none;
      claimed_at = none;
      claimable_after_ms = if truthy delay then Option.map (λ d. now + d) delay else none;
    } in
    let present = any-has_id j q.tasks in
    elim (Bool-cases (any (has_id j) q.tasks)) [
      | inl e ↦ rw (e, enqueue_subtask) (known-arrived j i q.tasks (sym present ∙ e))
      | inr e ↦ rw (e, enqueue_subtask) (phase-enqueue q.tasks item i refl (sym present ∙ e))
    ]

remote-phase :
    (j i : Ident) (ts : List QueueItem)
    → AllDistinct (ids ts)
    → phase_of (find (has_id i) (remove_first (λ t. has_id j t && is_unclaimed t) ts)) ≡ (
        if j == i
        then taken_away (phase_of (find (has_id i) ts))
        else phase_of (find (has_id i) ts))
remote-phase j i [] d = ground arith
remote-phase j i (t ∷ ts) d =
    ground (arith, remote-phase j i ts d.1, find-none_of_contains t.subtask.id ts)

remote_none-phase :
    (j i : Ident) (ts : List QueueItem)
    → AllDistinct (ids ts)
    → any (λ t. has_id j t && is_unclaimed t) ts ≡ false
    → phase_of (find (has_id i) ts) ≡ (
        if j == i
        then taken_away (phase_of (find (has_id i) ts))
        else phase_of (find (has_id i) ts))
remote_none-phase j i [] d h = ground arith
remote_none-phase j i (t ∷ ts) d h =
    ground (arith, remote_none-phase j i ts d.1, find-none_of_contains t.subtask.id ts)

remote-Allowed :
    (j : Ident) (q : SwarmQueue)
    → AllDistinct (ids q.tasks)
    → Allowed (claims_remotely j) (board q) (board (mark_remote_claimed j q).0)
unfolding mark_remote_claimed
remote-Allowed j q d i = elim (Bool-cases (any (λ t. has_id j t && is_unclaimed t) q.tasks)) [
  | inl e ↦ rw (e, mark_remote_claimed) (remote-phase j i q.tasks d)
  | inr e ↦ rw (e, mark_remote_claimed) (remote_none-phase j i q.tasks d e)
]

removed-phase :
    (j i : Ident) (ts : List QueueItem)
    → AllDistinct (ids ts)
    → phase_of (find (has_id i) (remove_first (has_id j) ts))
      ≡ (if j == i then absent else phase_of (find (has_id i) ts))
removed-phase j i ts d = elim (Bool-cases (j == i)) [
  | inl e ↦ let same = ==→eq j i e in rw (e, same, find-remove_first_self i ts d) refl
  | inr e ↦ rw (e, find_other-remove_first j i ts (ground arith)) refl
]

complete-Allowed :
    (r : SubtaskResult) (q : SwarmQueue)
    → AllDistinct (ids q.tasks)
    → Allowed (completes r) (board q) (board (complete r q))
unfolding complete
complete-Allowed r q d i = elim (Option-cases (find (has_id r.subtask_id) q.tasks)) [
  | inl e ↦
      rw (e, complete)
        (elim (Bool-cases (r.subtask_id == i)) [
          | inl s ↦ let same = ==→eq r.subtask_id i s in rw (s, ← same, e) refl
          | inr s ↦ rw s refl
        ])
  | inr (t, e) ↦ rw (e, complete) (removed-phase r.subtask_id i q.tasks d)
]

pub requeue-Allowed :
    (j : Ident) (q : SwarmQueue) → Allowed (requeues j) (board q) (board (requeue j q).0)
unfolding requeue
requeue-Allowed j q i = elim (Bool-cases (any (has_id j) q.tasks)) [
  | inl e ↦ rw (e, requeue) (phase-release_first q.tasks j i)
  | inr e ↦
      let gone = find-none_of_contains j q.tasks (sym (any-has_id j q.tasks) ∙ e) in
      rw (e, requeue)
        (elim (Bool-cases (j == i)) [
          | inl s ↦ let same = ==→eq j i s in rw (s, ← same, gone) refl
          | inr s ↦ rw s refl
        ])
]

stale-Allowed :
    (timeout now : ℕ) (q : SwarmQueue)
    → Allowed (requeues_stale timeout now) (board q) (board (requeue_stale timeout now q).0)
unfolding requeue_stale
stale-Allowed timeout now q i = phase-release_stale timeout now q.tasks i

-- The subtask handed out waited and is held by the agent; no other phase changes.
pub claim-grants :
    (agent : Ident) (model : Option Ident) (now at : ℕ) (q : SwarmQueue) (s : Subtask)
    → AllDistinct (ids q.tasks)
    → (claim agent model now at q).1 ≡ some s
    → (board q s.id ≡ waiting)
      × ((i : Ident)
          → board (claim agent model now at q).0 i
            ≡ (if s.id == i then granted agent else board q i))
claim-grants agent model now at q s d e =
    let taking =
      claim_takes agent model now at q agent (ap (λ o. ((claim agent model now at q).0, o)) e) in
    let (k, c, g, free, u, ts) = taking.0 in
    let found = find-at q.tasks k c d g in
    rw (← u) (
      rw found (ground arith),
      λ i.
          ap phase_of
            (ap (find (has_id i)) ts ∙ find-set_at q.tasks k c (taken agent at c) i d g refl)
          ∙ ground arith,
    )

claim-Allowed :
    (agent : Ident) (model : Option Ident) (now at : ℕ) (q : SwarmQueue)
    → AllDistinct (ids q.tasks)
    → Allowed (claims agent model now at) (board q) (board (claim agent model now at q).0)
claim-Allowed agent model now at q d = elim (Option-cases (claim agent model now at q).1) [
  | inl e ↦
      let same =
        claim-none agent model now at q (ap (λ o. ((claim agent model now at q).0, o)) e) in
      inl (λ i. rw same refl)
  | inr (s, e) ↦
      let (waited, rest) = claim-grants agent model now at q s d e in inr (s.id, waited, rest)
]

beat-Allowed :
    (a : Ident) (now : ℕ) (q : SwarmQueue)
    → Allowed (beats a now) (board q) (board (heartbeat a now q))
unfolding heartbeat
beat-Allowed a now q i = elim (Option-cases (lookup a q.agents)) [
  | inl e ↦ rw (e, heartbeat) refl
  | inr (s, e) ↦ rw (e, heartbeat) refl
]

pub step-Allowed :
    (c : Call) (q : SwarmQueue) → AllDistinct (ids q.tasks) → Allowed c (board q) (board (step c q))
unfolding step register_agent
step-Allowed (registers a p m now) q d = λ i. refl
step-Allowed (beats a now) q d = beat-Allowed a now q
step-Allowed (enqueues id fresh s delay now) q d = enqueue-Allowed id fresh s delay now q
step-Allowed (claims_remotely j) q d = remote-Allowed j q d
step-Allowed (claims agent model now at) q d = claim-Allowed agent model now at q d
step-Allowed (completes r) q d = complete-Allowed r q d
step-Allowed (requeues j) q d = requeue-Allowed j q
step-Allowed (requeues_stale timeout now) q d = stale-Allowed timeout now q

-- The boards that a history of calls may leave.
abbrev pub AllowedAll : List Call → Board → Board → Type 0
AllowedAll [] b b' = (i : Ident) → b' i ≡ b i
AllowedAll (c ∷ cs) b b' = (mid : Board) × Allowed c b mid × AllowedAll cs mid b'

run-Allowed :
    (cs : List Call) (q : SwarmQueue)
    → AllDistinct (ids q.tasks)
    → AllowedAll cs (board q) (board (run cs q))
unfolding run
run-Allowed [] q d = λ i. refl
run-Allowed (c ∷ cs) q d =
    (board (step c q), step-Allowed c q d, run-Allowed cs (step c q) (step-AllDistinct c q d))

-- A queue implements the board of its subtasks: whatever calls a new queue has had, its board comes
-- about by the rules of the board from one on which every subtask is absent.
pub queue_refines_board :
    (has_store : Bool) (cs : List Call)
    → AllowedAll cs (λ i. absent) (board (run cs (init has_store)))
unfolding init
queue_refines_board has_store cs = run-Allowed cs (init has_store) tt
