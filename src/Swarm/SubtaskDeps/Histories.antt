-- ===== src/Swarm/SubtaskDeps/Histories.antt =====
-- src/swarm/subtask-deps.ts: a held subtask over a history of completions.
use Prim.Native.String.{String}
use edgecoder.Prelude.{
  ℕ, ◌≡◌, inl, inr, refl, ◌∙◌, Bool, true, ◌||◌, Option, none, some, List, [], ◌∷◌, ◌==◌, arith,
  if◌then◌else◌, Ident, all, contains, has, Dict, lookup, insert, filter, Bool-cases, lookup-insert,
  DistinctKeys, Entries,
}
use edgecoder.Types.{Subtask}
use edgecoder.Swarm.SubtaskDeps.{
  PendingDependentSubtask, SubtaskDepTracker, all_met, record_completion_and_release,
}
use edgecoder.Swarm.SubtaskDeps.Release.{is_held, completion_lem}

module _ {ℓ} {V : Type ℓ} (p : Ident × V → Bool) where
  lookup-filter-none : (k : Ident) (d : Dict V) → lookup k d ≡ none → lookup k (filter p d) ≡ none
  lookup-filter-none k [] h = refl
  lookup-filter-none k ((j, w) ∷ d) h = ground (arith, lookup-filter-none k d)

  pub lookup-filter :
      (k : Ident) (v : V) (d : Dict V)
      → DistinctKeys d
      → lookup k d ≡ some v
      → lookup k (filter p d) ≡ (if p (k, v) then some v else none)
  lookup-filter k v [] h e = cc
  lookup-filter k v ((j, w) ∷ d) h e =
      ground (arith, lookup-filter k v d h.1, lookup-filter-none k d)

  filter-DistinctKeys : (d : Dict V) → DistinctKeys d → DistinctKeys (filter p d)
  filter-DistinctKeys [] h = tt
  filter-DistinctKeys ((j, w) ∷ d) h =
      ground (arith, filter-DistinctKeys d h.1, lookup-filter-none j d h.0)

pub filter-Entries :
    {V : Type 0} (P : Ident → V → Type 0) (p : Ident × V → Bool) (d : Dict V)
    → Entries P d
    → Entries P (filter p d)
filter-Entries P p [] h = tt
filter-Entries P p ((k, v) ∷ d) h = ground (arith, filter-Entries P p d h.1)

pub all-ext :
    (p r : Ident → Bool) → ((x : Ident) → p x ≡ r x) → (xs : List Ident) → all p xs ≡ all r xs
all-ext p r h [] = refl
all-ext p r h (x ∷ xs) = rw (h x, all-ext p r h xs) refl

all_mono :
    (p r : Ident → Bool)
    → ((x : Ident) → p x ≡ true → r x ≡ true)
    → (xs : List Ident) → all p xs ≡ true
    → all r xs ≡ true
all_mono p r h [] a = refl
all_mono p r h (x ∷ xs) a = ground (arith, h x, all_mono p r h xs)

pub has-insert :
    {V : Type 0} (k j : Ident) (v : V) (d : Dict V) → has j (insert k v d) ≡ (k == j || has j d)
has-insert k j v d = rw (lookup-insert k j v d) (ground arith)

abbrev pub keys : {V : Type 0} → Dict V → List Ident
keys [] = []
keys ((k, v) ∷ d) = k ∷ keys d

module _ {Q : Type 0} (enqueue : Subtask → Option (Option ℕ) → Q → Q × Subtask) where
  -- The completions of subtasks with their outputs, one after the other.
  unfoldable pub complete_all : Dict String → SubtaskDepTracker → Q → SubtaskDepTracker × Q
  complete_all [] t q = (t, q)
  complete_all ((id, output) ∷ cs) t q =
      let after = record_completion_and_release enqueue id output t q in
      complete_all cs after.0 after.2

  abbrev Settled : Ident → PendingDependentSubtask → SubtaskDepTracker → Type 0
  Settled id entry t =
      lookup id t.pending ≡ (if all_met t.completed_outputs entry then none else some entry)

  -- One completion, with the clauses of the code read off.
  completion-pending :
      (id c : Ident) (output : String) (entry : PendingDependentSubtask) (t : SubtaskDepTracker)
      (q : Q)
      → DistinctKeys t.pending
      → lookup id t.pending ≡ some entry
      → Settled id entry (record_completion_and_release enqueue c output t q).0
  completion-pending id c output entry t q distinct held =
      let outputs = insert c output t.completed_outputs in
      let f = lookup-filter (is_held outputs) id entry t.pending distinct held in
      rw (completion_lem enqueue c output t q) (elim (Bool-cases (all_met outputs entry)) [
        | inl e ↦ rw e (f ∙ rw e refl)
        | inr e ↦ rw e (f ∙ rw e refl)
      ])

  completion-Settled :
      (id c : Ident) (output : String) (entry : PendingDependentSubtask) (t : SubtaskDepTracker)
      (q : Q)
      → DistinctKeys t.pending
      → Settled id entry t
      → Settled id entry (record_completion_and_release enqueue c output t q).0
  completion-Settled id c output entry t q distinct settled =
      elim (Bool-cases (all_met t.completed_outputs entry)) [
        | inl e ↦
            let outputs = insert c output t.completed_outputs in
            let later =
              all_mono (λ d. has d t.completed_outputs) (λ d. has d outputs)
                (λ d h. has-insert c d output t.completed_outputs ∙ ground arith) entry.depends_on
                e in
            let gone = lookup-filter-none (is_held outputs) id t.pending (settled ∙ rw e refl) in
            rw (completion_lem enqueue c output t q, later) gone
        | inr e ↦ completion-pending id c output entry t q distinct (settled ∙ rw e refl)
      ]

  completion-DistinctKeys :
      (c : Ident) (output : String) (t : SubtaskDepTracker) (q : Q)
      → DistinctKeys t.pending
      → DistinctKeys (record_completion_and_release enqueue c output t q).0.pending
  completion-DistinctKeys c output t q distinct =
      rw (completion_lem enqueue c output t q)
        (filter-DistinctKeys (is_held (insert c output t.completed_outputs)) t.pending distinct)

  complete_all-Settled :
      (id : Ident) (entry : PendingDependentSubtask) (cs : Dict String) (t : SubtaskDepTracker)
      (q : Q)
      → DistinctKeys t.pending
      → Settled id entry t
      → Settled id entry (complete_all cs t q).0
  unfolding complete_all
  complete_all-Settled id entry [] t q distinct settled = settled
  complete_all-Settled id entry ((c, output) ∷ cs) t q distinct settled =
      let after = record_completion_and_release enqueue c output t q in
      complete_all-Settled id entry cs after.0 after.2
        (completion-DistinctKeys c output t q distinct)
        (completion-Settled id c output entry t q distinct settled)

  has-complete_all :
      (d : Ident) (cs : Dict String) (t : SubtaskDepTracker) (q : Q)
      → has d (complete_all cs t q).0.completed_outputs
        ≡ (has d t.completed_outputs || contains d (keys cs))
  unfolding complete_all
  has-complete_all d [] t q = ground arith
  has-complete_all d ((c, output) ∷ cs) t q =
      let after = record_completion_and_release enqueue c output t q in
      let one : has d after.0.completed_outputs ≡ (c == d || has d t.completed_outputs) =
        rw (completion_lem enqueue c output t q) (has-insert c d output t.completed_outputs) in
      has-complete_all d cs after.0 after.2 ∙ rw one (ground arith)

  -- A subtask that is held stays held through any history of at least one completion exactly as
  -- long as one of its dependencies had no output before and is not among the completed.
  pub held_until_met :
      (id c : Ident) (output : String) (cs : Dict String) (entry : PendingDependentSubtask)
      (t : SubtaskDepTracker) (q : Q)
      → DistinctKeys t.pending
      → lookup id t.pending ≡ some entry
      → lookup id (complete_all ((c, output) ∷ cs) t q).0.pending ≡ (
          if all (λ d. has d t.completed_outputs || contains d (c ∷ keys cs)) entry.depends_on
          then none
          else some entry)
  unfolding complete_all
  held_until_met id c output cs entry t q distinct held =
      let after = record_completion_and_release enqueue c output t q in
      let all_cs = (c, output) ∷ cs in
      let met =
        all-ext (λ d. has d (complete_all all_cs t q).0.completed_outputs)
          (λ d. has d t.completed_outputs || contains d (c ∷ keys cs))
          (λ d. has-complete_all d all_cs t q) entry.depends_on in
      complete_all-Settled id entry cs after.0 after.2
        (completion-DistinctKeys c output t q distinct)
        (completion-pending id c output entry t q distinct held)
      ∙ rw met refl
