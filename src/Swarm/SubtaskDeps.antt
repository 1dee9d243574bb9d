-- ===== src/Swarm/SubtaskDeps.antt =====
-- src/swarm/subtask-deps.ts: the class `SubtaskDepTracker`. What `enqueueFn` does is a parameter that
-- carries the state it works on; it makes no call of the tracker.
pub mod Release
pub mod Histories
pub mod Decimal
pub mod Context
pub mod Queued
pub mod Cycles
mod Tests
use Prim.Native.String.{String}
use Prim.Native.String as S
use edgecoder.Prelude.{
  ℕ, zero, suc, ◌+◌, ◌/◌, ◌%◌, Bool, Option, none, some, List, [], ◌∷◌, ltb, if◌then◌else◌, Ident,
  all, has, or_else, get_elem?, Dict, lookup, insert,
}
use edgecoder.Types.{Subtask}

pub record PendingDependentSubtask : Type 0 where
  pub subtask : Subtask
  pub depends_on : List Ident
  pub enqueue_opts : Option (Option ℕ)

pub record SubtaskDepTracker : Type 0 where
  pub pending : Dict PendingDependentSubtask
  pub completed_outputs : Dict String

abbrev pub empty_tracker : SubtaskDepTracker
empty_tracker = record { pending = []; completed_outputs = [] }

abbrev digits : List String
digits = "0" ∷ "1" ∷ "2" ∷ "3" ∷ "4" ∷ "5" ∷ "6" ∷ "7" ∷ "8" ∷ "9" ∷ []

abbrev pub digit : ℕ → String
digit n = or_else (get_elem? digits n) ""

-- `${n}` in decimal; a number has fewer digits than the fuel `n + 1`.
unfoldable pub decimal : ℕ → ℕ → String
decimal zero n = ""
decimal (suc fuel) n =
    let front = decimal fuel (n / 10) in if ltb n 10 then digit n else S.◌++◌ front (digit (n % 10))

-- The texts of `lines`, of which the first has the number given.
unfoldable pub context_lines : Dict String → ℕ → List Ident → List String
unfolding decimal
context_lines outputs i [] = []
context_lines outputs i (dep ∷ deps) =
    let rest = context_lines outputs (suc i) deps in
    elim (lookup dep outputs) [
      | none ↦ rest
      | some output ↦
          S.◌++◌ "Subtask " (S.◌++◌ (decimal (suc i) i) (S.◌++◌ " result: " output)) ∷ rest
    ]

-- `lines.join("\n")`
unfoldable pub join_lines : List String → String
join_lines [] = ""
join_lines (line ∷ []) = line
join_lines (line ∷ next ∷ lines) = S.◌++◌ line (S.◌++◌ "\n" (join_lines (next ∷ lines)))

unfoldable pub build_dependency_context : List Ident → SubtaskDepTracker → String
build_dependency_context dep_ids t = elim (context_lines t.completed_outputs 1 dep_ids) [
  | [] ↦ ""
  | line ∷ lines ↦
      S.◌++◌ "[Context from previous subtasks]\n"
        (S.◌++◌ (join_lines (line ∷ lines)) "\n\n[Your task]\n")
]

unfoldable pub hold : PendingDependentSubtask → SubtaskDepTracker → SubtaskDepTracker
hold entry t = record t { pending = insert entry.subtask.id entry t.pending }

-- `entry.dependsOn.every((dep) => this.completedOutputs.has(dep))`
abbrev pub all_met : Dict String → PendingDependentSubtask → Bool
all_met outputs entry = all (λ dep. has dep outputs) entry.depends_on

abbrev pub enriched : SubtaskDepTracker → PendingDependentSubtask → Subtask
enriched t entry = record entry.subtask {
  input = S.◌++◌ (build_dependency_context entry.depends_on t) entry.subtask.input;
}

module _ {Q : Type 0} (enqueue : Subtask → Option (Option ℕ) → Q → Q × Subtask) where
  -- The loop over `this.pending`: the entries that stay, what was released, and the state of the
  -- queue.
  unfoldable pub release :
      SubtaskDepTracker
      → Dict PendingDependentSubtask
      → Q
      → Dict PendingDependentSubtask × List Subtask × Q
  release t [] q = ([], [], q)
  release t ((id, entry) ∷ rest) q =
      let enqueued = enqueue (enriched t entry) entry.enqueue_opts q in
      let after = release t rest enqueued.0 in
      let skipped = release t rest q in
      if all_met t.completed_outputs entry
      then (after.0, enqueued.1 ∷ after.1, after.2)
      else ((id, entry) ∷ skipped.0, skipped.1, skipped.2)

  unfoldable pub record_completion_and_release :
      Ident → String → SubtaskDepTracker → Q → SubtaskDepTracker × List Subtask × Q
  record_completion_and_release completed output t q =
      let t' = record t { completed_outputs = insert completed output t.completed_outputs } in
      let (kept, released, last) = release t' t'.pending q in
      (record t' { pending = kept }, released, last)
