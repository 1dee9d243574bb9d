-- ===== src/Swarm/SubtaskDeps/Queued.antt =====
-- src/swarm/subtask-deps.ts and src/swarm/queue.ts together: what is released is in the queue.
use Prim.Native.String.{String}
use edgecoder.Prelude.{
  ℕ, suc, List, ap, ◌≡◌, inl, inr, refl, ◌∙◌, true, false, Option, none, some, [], ◌∷◌, ◌==◌, ◌||◌,
  all, has, some-injective, Entries, DistinctKeys, arith, if◌then◌else◌, Ident, or_else, filter,
  lookup, insert, Dict, Bool-cases,
}
use edgecoder.Types.{Subtask}
use edgecoder.Swarm.Queue.{SwarmQueue, enqueue_subtask, get_subtask}
use edgecoder.Swarm.Queue.Enqueued.{or_new, get_subtask-enqueue}
use edgecoder.Swarm.SubtaskDeps.{
  PendingDependentSubtask, SubtaskDepTracker, enriched, record_completion_and_release,
}
use edgecoder.Swarm.SubtaskDeps.Histories.{all-ext, has-insert, lookup-filter, filter-Entries}
use edgecoder.Swarm.SubtaskDeps.Decimal.{value_from, value-decimal}
use edgecoder.Swarm.SubtaskDeps.Context.{
  AreOutputs, prompt, printed, outputs_of_met, context-prompt,
}
use edgecoder.Swarm.SubtaskDeps.Release.{is_released, enqueue_all, completion_lem}

-- `(subtask, opts) => queue.enqueueSubtask(subtask, opts)`: the subtask has its identifier.
abbrev pub to_queue : ℕ → Subtask → Option (Option ℕ) → SwarmQueue → SwarmQueue × Subtask
to_queue now s opts q = enqueue_subtask (some s.id) 0 s (or_else opts none) now q

module _ (now : ℕ) where
  get_subtask-to_queue :
      (i : Ident) (s : Subtask) (opts : Option (Option ℕ)) (q : SwarmQueue)
      → get_subtask i (to_queue now s opts q).0
        ≡ or_new (get_subtask i q) (if s.id == i then some s else none)
  get_subtask-to_queue i s opts q = get_subtask-enqueue (some s.id) 0 i now s (or_else opts none) q

  enqueue_all-keeps :
      (t : SubtaskDepTracker) (d : Dict PendingDependentSubtask) (q : SwarmQueue) (i : Ident)
      (u : Subtask)
      → get_subtask i q ≡ some u
      → get_subtask i (enqueue_all (to_queue now) t d q).1 ≡ some u
  enqueue_all-keeps t [] q i u h = h
  enqueue_all-keeps t ((k, entry) ∷ d) q i u h =
      let s = enriched t entry in
      let a = get_subtask-to_queue i s entry.enqueue_opts q in
      enqueue_all-keeps t d (to_queue now s entry.enqueue_opts q).0 i u (a ∙ rw h refl)

  -- The entry of an identifier, among entries whose keys are their subtasks' identifiers.
  enqueue_all-finds :
      (t : SubtaskDepTracker) (d : Dict PendingDependentSubtask) (q : SwarmQueue) (i : Ident)
      (entry : PendingDependentSubtask)
      → Entries (λ k e. k ≡ e.subtask.id) d
      → lookup i d ≡ some entry
      → get_subtask i q ≡ none
      → get_subtask i (enqueue_all (to_queue now) t d q).1 ≡ some (enriched t entry)
  enqueue_all-finds t [] q i entry keyed held absent = cc
  enqueue_all-finds t ((k, e) ∷ d) q i entry keyed held absent =
      let s = enriched t e in
      let a = get_subtask-to_queue i s e.enqueue_opts q in
      let q' = (to_queue now s e.enqueue_opts q).0 in
      elim (Bool-cases (k == i)) [
        | inl same ↦
            let this : e ≡ entry = some-injective e entry (rw same at held) in
            let id : (e.subtask.id == i) ≡ true = rw (← keyed.0) same in
            rw (← this) (enqueue_all-keeps t d q' i s (a ∙ rw (absent, id) refl))
        | inr other ↦
            let id : (e.subtask.id == i) ≡ false = rw (← keyed.0) other in
            enqueue_all-finds t d q' i entry keyed.1 (rw other at held) (a ∙ rw (absent, id) refl)
      ]

-- A held subtask that is not in the queue, and whose last dependency without an output completes,
-- is found in the queue afterwards, its input preceded by the outputs of all its dependencies, each
-- on a line with its number, in their order, the output just reported among them. The texts of the
-- numbers read back as the numbers.
pub released_queued :
    (now : ℕ) (id c : Ident) (output : String) (entry : PendingDependentSubtask)
    (t : SubtaskDepTracker) (q : SwarmQueue)
    → DistinctKeys t.pending
    → Entries (λ k e. k ≡ e.subtask.id) t.pending
    → lookup id t.pending ≡ some entry
    → get_subtask id q ≡ none
    → all (λ d. has d t.completed_outputs || c == d) entry.depends_on ≡ true
    → (number : ℕ → String) × ((i : ℕ) → value_from 0 (number i) ≡ i)
      × (os : List String) × AreOutputs (insert c output t.completed_outputs) entry.depends_on os
      × (get_subtask id (record_completion_and_release (to_queue now) c output t q).2
          ≡ some (record entry.subtask { input = prompt number os entry.subtask.input }))
released_queued now id c output entry t q distinct keyed held absent met =
    let outputs = insert c output t.completed_outputs in
    let t' = record t { completed_outputs = outputs } in
    let now_met =
      all-ext (λ d. has d outputs) (λ d. has d t.completed_outputs || c == d)
        (λ d. has-insert c d output t.completed_outputs ∙ ground arith) entry.depends_on
      ∙ met in
    let found =
      lookup-filter (is_released outputs) id entry t.pending distinct held ∙ rw now_met refl in
    let (os, are) = outputs_of_met outputs entry.depends_on now_met in
    let said = context-prompt t' entry.depends_on os entry.subtask.input are in
    let queued =
      enqueue_all-finds now t' (filter (is_released outputs) t.pending) q id entry
        (filter-Entries (λ k (e : PendingDependentSubtask). k ≡ e.subtask.id) (is_released outputs)
          t.pending keyed)
        found absent in
    (
      printed,
      λ i. value-decimal (suc i) i (omega arith),
      os,
      are,
      rw (completion_lem (to_queue now) c output t q)
          (queued ∙ ap (λ x. some (record entry.subtask { input = x })) said),
    )
