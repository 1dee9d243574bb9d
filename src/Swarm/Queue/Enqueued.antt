-- ===== src/Swarm/Queue/Enqueued.antt =====
-- src/swarm/queue.ts: what `getSubtask` finds after `enqueueSubtask`.
use mathlib.Core.Option
use edgecoder.Prelude.{
  ℕ, ◌+◌, ◌≡◌, inl, inr, refl, Bool, true, Option, none, some, List, [], ◌∷◌, ◌++◌, ◌==◌, arith,
  if◌then◌else◌, Ident, or_else, truthy, find, any, Bool-cases, Option-cases,
}
use edgecoder.Types.{Subtask}
use edgecoder.Swarm.Queue.{SwarmQueue, QueueItem, has_id, enqueue_subtask, get_subtask}

-- The first that is there.
abbrev pub or_new : Option Subtask → Option Subtask → Option Subtask
or_new none other = other
or_new (some u) other = some u

find-append :
    (p : QueueItem → Bool) (xs : List QueueItem) (x : QueueItem)
    → Option.map (λ (t : QueueItem). t.subtask) (find p (xs ++ x ∷ []))
      ≡ or_new
          (Option.map (λ (t : QueueItem). t.subtask) (find p xs))
          (if p x then some x.subtask else none)
find-append p [] x = ground arith
find-append p (y ∷ xs) x = ground (arith, find-append p xs x)

find_of_any :
    (i : Ident) (xs : List QueueItem)
    → any (has_id i) xs ≡ true
    → (t : QueueItem) × (find (has_id i) xs ≡ some t)
find_of_any i [] h = cc
find_of_any i (x ∷ xs) h = elim (Bool-cases (has_id i x)) [
  | inl e ↦ (x, rw e refl)
  | inr e ↦ let (t, f) = find_of_any i xs (rw e at h) in (t, rw e f)
]

-- An enqueued subtask is found under its identifier unless one of that identifier was there, and
-- all that was there is found as before.
pub get_subtask-enqueue :
    (id : Option Ident) (fresh i now : ℕ) (s : Subtask) (delay : Option ℕ) (q : SwarmQueue)
    → get_subtask i (enqueue_subtask id fresh s delay now q).0
      ≡ or_new
          (get_subtask i q)
          (if or_else id fresh == i then some (record s { id = or_else id fresh }) else none)
unfolding get_subtask enqueue_subtask
get_subtask-enqueue id fresh i now s delay q =
    let j = or_else id fresh in
    let item : QueueItem = record {
      subtask = record s { id = j };
      claimed_by = none;
      claimed_at = none;
      claimable_after_ms = if truthy delay then Option.map (λ d. now + d) delay else none;
    } in
    elim (Bool-cases (any (has_id j) q.tasks)) [
      | inl e ↦ elim (Bool-cases (j == i)) [
        | inl k ↦ let (t, f) = find_of_any i q.tasks (ground arith) in rw (e, f) refl
        | inr k ↦
            rw (e, k)
              (elim (Option-cases (find (has_id i) q.tasks)) [
                | inl f ↦ rw f refl
                | inr (t, f) ↦ rw f refl
              ])
      ]
      | inr e ↦ rw e (find-append (has_id i) q.tasks item)
    ]
