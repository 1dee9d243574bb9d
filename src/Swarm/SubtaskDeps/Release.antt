-- ===== src/Swarm/SubtaskDeps/Release.antt =====
-- src/swarm/subtask-deps.ts: what `recordCompletionAndRelease` holds back and what it releases.
use Prim.Native.String.{String}
use edgecoder.Prelude.{
  ℕ, ◌≡◌, inl, inr, refl, Bool, not, Option, List, [], ◌∷◌, Ident, Dict, insert, filter, Bool-cases,
}
use edgecoder.Types.{Subtask}
use edgecoder.Swarm.SubtaskDeps.{
  PendingDependentSubtask, SubtaskDepTracker, all_met, enriched, release,
  record_completion_and_release,
}

-- An entry that has a dependency without an output.
abbrev pub is_held : Dict String → Ident × PendingDependentSubtask → Bool
is_held outputs e = not (all_met outputs e.1)

abbrev pub is_released : Dict String → Ident × PendingDependentSubtask → Bool
is_released outputs e = all_met outputs e.1

module _ {Q : Type 0} (enqueue : Subtask → Option (Option ℕ) → Q → Q × Subtask) where
  -- The entries are enqueued one after the other.
  abbrev pub enqueue_all : SubtaskDepTracker → Dict PendingDependentSubtask → Q → List Subtask × Q
  enqueue_all t [] q = ([], q)
  enqueue_all t ((id, entry) ∷ rest) q =
      let first = enqueue (enriched t entry) entry.enqueue_opts q in
      let more = enqueue_all t rest first.0 in (first.1 ∷ more.0, more.1)

  release_lem :
      (t : SubtaskDepTracker) (d : Dict PendingDependentSubtask) (q : Q)
      → release enqueue t d q ≡ (
        filter (is_held t.completed_outputs) d,
        (enqueue_all t (filter (is_released t.completed_outputs) d) q).0,
        (enqueue_all t (filter (is_released t.completed_outputs) d) q).1,
      )
  unfolding release
  release_lem t [] q = refl
  release_lem t ((id, entry) ∷ rest) q = elim (Bool-cases (all_met t.completed_outputs entry)) [
    | inl e ↦ rw (e, release_lem t rest (enqueue (enriched t entry) entry.enqueue_opts q).0) refl
    | inr e ↦ rw (e, release_lem t rest q) refl
  ]

  -- A completion releases just the entries all of whose dependencies have an output then, in the
  -- order in which they were held, each with the outputs before its input; all others stay held.
  pub completion_lem :
      (id : Ident) (output : String) (t : SubtaskDepTracker) (q : Q)
      → let t' = record t { completed_outputs = insert id output t.completed_outputs } in
        record_completion_and_release enqueue id output t q ≡ (
          record t' { pending = filter (is_held t'.completed_outputs) t.pending },
          (enqueue_all t' (filter (is_released t'.completed_outputs) t.pending) q).0,
          (enqueue_all t' (filter (is_released t'.completed_outputs) t.pending) q).1,
        )
  unfolding record_completion_and_release
  completion_lem id output t q =
      let t' = record t { completed_outputs = insert id output t.completed_outputs } in
      rw (release_lem t' t.pending q) refl
