-- ===== src/Swarm/Queue/Board.antt =====
-- src/swarm/queue.ts: what a client sees of a queue, a board that says of each subtask whether it is
-- absent, waits, or is held; and that the queue implements the rules of the board.

use edgecoder.Prelude.{
  ℕ, zero, suc, ◌≡◌, ◌⊎◌, inl, refl, false, Option, none, some, List, [], ◌∷◌, ◌++◌, arith,
  if◌then◌else◌, ◌==◌, Ident, or_else, find, get_elem?, set, contains,
}
use edgecoder.Swarm.Queue.{SwarmQueue, QueueItem, release_first, release_stale, has_id}
use edgecoder.Swarm.Queue.Steps.{
  Call, registers, beats, enqueues, claims_remotely, claims, completes, requeues, requeues_stale,
  ids, AllDistinct,
}
use edgecoder.Swarm.Queue.Lease.{contains-get_elem?}

pub data Phase : Type 0 where
  absent : Phase
  waiting : Phase
  held : Ident → Phase

-- A claim by an agent without a name counts as none.
abbrev pub granted : Ident → Phase
granted agent = if agent == 0 then waiting else held agent

abbrev pub phase_of : Option QueueItem → Phase
phase_of none = absent
phase_of (some t) = granted (or_else t.claimed_by 0)

abbrev pub Board : Type 0
Board = Ident → Phase

abbrev pub board : SwarmQueue → Board
board q i = phase_of (find (has_id i) q.tasks)

abbrev pub arrived : Phase → Phase
arrived absent = waiting
arrived waiting = waiting
arrived (held agent) = held agent

abbrev pub taken_away : Phase → Phase
taken_away absent = absent
taken_away waiting = absent
taken_away (held agent) = held agent

abbrev pub put_back : Phase → Phase
put_back absent = absent
put_back waiting = waiting
put_back (held agent) = waiting

-- The boards that a call may leave. A claim grants at most one subtask, which waited; a sweep puts
-- back subtasks of its choice; every other call changes the phase of the one subtask it names.
abbrev pub Allowed : Call → Board → Board → Type 0
Allowed (registers a p m now) b b' = (i : Ident) → b' i ≡ b i
Allowed (beats a now) b b' = (i : Ident) → b' i ≡ b i
Allowed (enqueues id fresh s delay now) b b' =
    (i : Ident) → b' i ≡ (if or_else id fresh == i then arrived (b i) else b i)
Allowed (claims_remotely j) b b' = (i : Ident) → b' i ≡ (if j == i then taken_away (b i) else b i)
Allowed (claims agent model now at) b b' =
    ((i : Ident) → b' i ≡ b i)
    ⊎ ((j : Ident) × (b j ≡ waiting)
        × ((i : Ident) → b' i ≡ (if j == i then granted agent else b i)))
Allowed (completes r) b b' = (i : Ident) → b' i ≡ (if r.subtask_id == i then absent else b i)
Allowed (requeues j) b b' = (i : Ident) → b' i ≡ (if j == i then put_back (b i) else b i)
Allowed (requeues_stale timeout now) b b' = (i : Ident) → (b' i ≡ b i) ⊎ (b' i ≡ put_back (b i))

pub find-set_at :
    (ts : List QueueItem) (k : ℕ) (t u : QueueItem) (i : Ident)
    → AllDistinct (ids ts)
    → get_elem? ts k ≡ some t
    → u.subtask ≡ t.subtask
    → find (has_id i) (set ts k u) ≡ (if t.subtask.id == i then some u else find (has_id i) ts)
find-set_at [] k t u i d g e = cc
find-set_at (v ∷ ts) zero t u i d g e = ground arith
find-set_at (v ∷ ts) (suc k) t u i d g e =
    ground (arith, find-set_at ts k t u i d.1 g e, contains-get_elem? ts k t g)

pub find-at :
    (ts : List QueueItem) (k : ℕ) (t : QueueItem)
    → AllDistinct (ids ts)
    → get_elem? ts k ≡ some t
    → find (has_id t.subtask.id) ts ≡ some t
find-at [] k t d g = cc
find-at (v ∷ ts) zero t d g = ground arith
find-at (v ∷ ts) (suc k) t d g = ground (arith, find-at ts k t d.1 g, contains-get_elem? ts k t g)

pub phase-enqueue :
    (ts : List QueueItem) (t : QueueItem) (i : Ident)
    → t.claimed_by ≡ none
    → contains t.subtask.id (ids ts) ≡ false
    → phase_of (find (has_id i) (ts ++ t ∷ [])) ≡ (
        if t.subtask.id == i
        then arrived (phase_of (find (has_id i) ts))
        else phase_of (find (has_id i) ts))
phase-enqueue [] t i e new = ground arith
phase-enqueue (u ∷ ts) t i e new = ground (arith, phase-enqueue ts t i e)

pub phase-release_first :
    (ts : List QueueItem) (j i : Ident)
    → phase_of (find (has_id i) (release_first j ts))
      ≡ (if j == i then put_back (phase_of (find (has_id i) ts)) else phase_of (find (has_id i) ts))
unfolding release_first
phase-release_first [] j i = ground arith
phase-release_first (t ∷ ts) j i = ground (arith, phase-release_first ts j i)

pub phase-release_stale :
    (timeout now : ℕ) (ts : List QueueItem) (i : Ident)
    → (phase_of (find (has_id i) (release_stale timeout now ts).0) ≡ phase_of (find (has_id i) ts))
      ⊎ (phase_of (find (has_id i) (release_stale timeout now ts).0)
          ≡ put_back (phase_of (find (has_id i) ts)))
unfolding release_stale
phase-release_stale timeout now [] i = inl refl
phase-release_stale timeout now (t ∷ ts) i = ground (arith, phase-release_stale timeout now ts i)
