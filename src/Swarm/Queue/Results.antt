-- ===== src/Swarm/Queue/Results.antt =====
-- src/swarm/queue.ts: what `complete` and `requeueStale` do to the queue.
use edgecoder.Prelude.{
  inl, inr, ℕ, zero, suc, ◌+◌, ◌≡◌, refl, ◌≢◌, Bool, false, none, some, List, [], ◌∷◌, ◌++◌, arith,
  Ident, Option-cases, Bool-cases, ==_refl, any, filter, length, find, remove_first, get_elem?,
  contains, or_else, if◌then◌else◌, ◌==◌, lookup, lookup-insert, insert,
}
use mathlib.Core.Option
use edgecoder.Types.{Subtask, SubtaskResult}
use edgecoder.Swarm.Queue.{
  SwarmQueue, QueueItem, complete, completed, get_subtask, requeue_stale, release_stale, released,
  has_id, is_stale,
}
use edgecoder.Swarm.Queue.Steps.{ids, AllDistinct}

pub find-none_of_contains :
    (i : Ident) (ts : List QueueItem) → contains i (ids ts) ≡ false → find (has_id i) ts ≡ none
find-none_of_contains i [] h = refl
find-none_of_contains i (t ∷ ts) h = ground (arith, find-none_of_contains i ts)

pub find-remove_first_self :
    (i : Ident) (ts : List QueueItem)
    → AllDistinct (ids ts)
    → find (has_id i) (remove_first (has_id i) ts) ≡ none
find-remove_first_self i [] d = refl
find-remove_first_self i (t ∷ ts) d =
    ground (arith, find-remove_first_self i ts d.1, find-none_of_contains t.subtask.id ts d.0)

length-remove_first :
    (p : QueueItem → Bool) (ts : List QueueItem) (t : QueueItem)
    → find p ts ≡ some t
    → length (remove_first p ts) + 1 ≡ length ts
length-remove_first p [] t e = cc
length-remove_first p (u ∷ ts) t e = ground (arith, length-remove_first p ts t)

pub find_other-remove_first :
    (i j : Ident) (ts : List QueueItem)
    → j ≢ i
    → find (has_id j) (remove_first (has_id i) ts) ≡ find (has_id j) ts
find_other-remove_first i j [] ne = refl
find_other-remove_first i j (t ∷ ts) ne = ground (arith, find_other-remove_first i j ts ne)

found_after :
    (i j : Ident) (ts us : List QueueItem)
    → AllDistinct (ids ts)
    → us ≡ remove_first (has_id i) ts
    → Option.map (λ (t : QueueItem). t.subtask) (find (has_id j) us)
      ≡ (if j == i then none else Option.map (λ (t : QueueItem). t.subtask) (find (has_id j) ts))
found_after i j ts us d e = elim (Bool-cases (j == i)) [
  | inl same ↦ let p : j ≡ i = ground arith in rw (p, ==_refl i, e, find-remove_first_self i ts d)
  | inr other ↦ rw (other, e, find_other-remove_first i j ts (ground arith))
]

module _ (r : SubtaskResult) (q : SwarmQueue) (t : QueueItem) where
  -- `complete` on a queue that holds the subtask, as one equation.
  complete_found :
      find (has_id r.subtask_id) q.tasks ≡ some t
      → ((complete r q).tasks ≡ remove_first (has_id r.subtask_id) q.tasks)
        × ((complete r q).results ≡ q.results ++ r ∷ [])
        × ((complete r q).project_completed
            ≡ insert t.subtask.project_meta.project_id
                (or_else (lookup t.subtask.project_meta.project_id q.project_completed) 0 + 1)
                q.project_completed)
  unfolding complete
  complete_found f = (ground arith, ground arith, ground arith)

-- The result of a queued subtask takes that subtask out of the queue, and no other, is kept as the
-- latest result, and raises the completed count of the subtask's project by one. The queue's
-- identifiers are distinct.
pub complete_lem :
    (r : SubtaskResult) (q : SwarmQueue) (s : Subtask) (j : Ident)
    → AllDistinct (ids q.tasks)
    → get_subtask r.subtask_id q ≡ some s
    → (get_subtask j (complete r q) ≡ (if j == r.subtask_id then none else get_subtask j q))
      × (length (complete r q).tasks + 1 ≡ length q.tasks)
      × ((complete r q).results ≡ q.results ++ r ∷ [])
      × (completed (complete r q) s ≡ completed q s + 1)
unfolding get_subtask completed
complete_lem r q s j d e = elim (Option-cases (find (has_id r.subtask_id) q.tasks)) [
  | inl n ↦ absurd (ground arith)
  | inr (t, f) ↦
      let (ts, rs, ps) = complete_found r q t f in
      let i = r.subtask_id in
      let same : t.subtask ≡ s = ground arith in
      (
        found_after i j q.tasks (complete r q).tasks d ts,
        rw ts (length-remove_first (has_id i) q.tasks t f),
        rs,
        rw (ps, ← same)
            (let p = t.subtask.project_meta.project_id in
              let n = or_else (lookup p q.project_completed) 0 + 1 in
              ground (arith, lookup-insert p p n q.project_completed)),
      )
]

abbrev pub swept : ℕ → ℕ → QueueItem → QueueItem
swept timeout now t = if is_stale timeout now t then released t else t

release_stale_lem :
    (timeout now : ℕ) (ts : List QueueItem)
    → (release_stale timeout now ts).1 ≡ length (filter (is_stale timeout now) ts)
unfolding release_stale
release_stale_lem timeout now [] = refl
release_stale_lem timeout now (t ∷ ts) = ground (arith, release_stale_lem timeout now ts)

release_stale_again :
    (timeout now : ℕ) (ts : List QueueItem)
    → any (is_stale timeout now) (release_stale timeout now ts).0 ≡ false
unfolding release_stale
release_stale_again timeout now [] = refl
release_stale_again timeout now (t ∷ ts) = ground (arith, release_stale_again timeout now ts)

get_elem?-release_stale :
    (timeout now i : ℕ) (ts : List QueueItem)
    → get_elem? (release_stale timeout now ts).0 i ≡ Option.map (swept timeout now) (get_elem? ts i)
unfolding release_stale
get_elem?-release_stale timeout now i [] = refl
get_elem?-release_stale timeout now zero (t ∷ ts) = ground arith
get_elem?-release_stale timeout now (suc i) (t ∷ ts) =
    ground (arith, get_elem?-release_stale timeout now i ts)

-- `requeueStale` returns how many claims were older than the timeout; it puts back just those
-- tasks, each at its place, leaves every other task as it was, and no stale claim is left.
pub requeue_stale_lem :
    (timeout now i : ℕ) (q : SwarmQueue)
    → let (q', n) = requeue_stale timeout now q in
      (n ≡ length (filter (is_stale timeout now) q.tasks))
      × (any (is_stale timeout now) q'.tasks ≡ false)
      × (get_elem? q'.tasks i
          ≡ Option.map
              (λ t. if is_stale timeout now t then released t else t)
              (get_elem? q.tasks i))
unfolding requeue_stale
requeue_stale_lem timeout now i q = (
  release_stale_lem timeout now q.tasks,
  release_stale_again timeout now q.tasks,
  get_elem?-release_stale timeout now i q.tasks,
)
