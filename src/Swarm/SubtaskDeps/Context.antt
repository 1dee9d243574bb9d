-- ===== src/Swarm/SubtaskDeps/Context.antt =====
-- src/swarm/subtask-deps.ts: what the context before the input of a released subtask says.
use Prim.Native.String.{String, ◌++◌}
use text.Mathlib.TextLemmas.{append_assoc, nil-append}
use edgecoder.Prelude.{
  ℕ, suc, ◌≡◌, refl, ap, ◌∙◌, inl, inr, true, some, List, [], ◌∷◌, arith, Ident, all, has, lookup,
  Dict, Option-cases,
}
use edgecoder.Swarm.SubtaskDeps.{
  SubtaskDepTracker, decimal, context_lines, join_lines, build_dependency_context,
}

-- The texts are the outputs of the dependencies, in their order.
abbrev pub AreOutputs : Dict String → List Ident → List String → Type 0
AreOutputs outputs [] [] = Unit
AreOutputs outputs (dep ∷ deps) (o ∷ os) =
    (lookup dep outputs ≡ some o) × AreOutputs outputs deps os
AreOutputs outputs [] (o ∷ os) = ⊥
AreOutputs outputs (dep ∷ deps) [] = ⊥

-- Each text on a line of its own, with its number, before the rest; `number` writes the numbers.
abbrev pub numbered : (ℕ → String) → ℕ → List String → String → String
numbered number i [] rest = rest
numbered number i (o ∷ os) rest =
    "Subtask " ++ (number i ++ (" result: " ++ (o ++ ("\n" ++ numbered number (suc i) os rest))))

-- What an agent reads that is given the outputs `os` and the input of a subtask.
abbrev pub prompt : (ℕ → String) → List String → String → String
prompt number [] input = input
prompt number (o ∷ os) input =
    "[Context from previous subtasks]\n" ++ numbered number 1 (o ∷ os) ("\n[Your task]\n" ++ input)

abbrev pub printed : ℕ → String
printed i = decimal (suc i) i

pub outputs_of_met :
    (outputs : Dict String) (deps : List Ident)
    → all (λ d. has d outputs) deps ≡ true
    → (os : List String) × AreOutputs outputs deps os
outputs_of_met outputs [] met = ([], tt)
outputs_of_met outputs (dep ∷ deps) met = elim (Option-cases (lookup dep outputs)) [
  | inl e ↦ absurd (ground (arith, met, e))
  | inr (o, e) ↦
      let (os, rest) = outputs_of_met outputs deps (ground (arith, met)) in (o ∷ os, (e, rest))
]

abbrev line : ℕ → String → String
line i o = "Subtask " ++ (printed i ++ (" result: " ++ o))

abbrev lines : ℕ → List String → List String
lines i [] = []
lines i (o ∷ os) = line i o ∷ lines (suc i) os

context_lines-lines :
    (outputs : Dict String) (i : ℕ) (deps : List Ident) (os : List String)
    → AreOutputs outputs deps os
    → context_lines outputs i deps ≡ lines i os
unfolding context_lines
context_lines-lines outputs i [] [] h = refl
context_lines-lines outputs i [] (o ∷ os) h = absurd h
context_lines-lines outputs i (dep ∷ deps) [] h = absurd h
context_lines-lines outputs i (dep ∷ deps) (o ∷ os) h =
    rw (h.0, context_lines)
      (ap (λ ls. line i o ∷ ls) (context_lines-lines outputs (suc i) deps os h.1))

line-append :
    (i : ℕ) (o rest : String)
    → line i o ++ rest ≡ "Subtask " ++ (printed i ++ (" result: " ++ (o ++ rest)))
line-append i o rest = simp append_assoc

join-numbered :
    (i : ℕ) (o : String) (os : List String) (rest : String)
    → join_lines (lines i (o ∷ os)) ++ ("\n" ++ rest) ≡ numbered printed i (o ∷ os) rest
unfolding join_lines
join-numbered i o [] rest = line-append i o ("\n" ++ rest)
join-numbered i o (p ∷ ps) rest =
    let ih = join-numbered (suc i) p ps rest in
    let tail = join_lines (lines (suc i) (p ∷ ps)) in
    append_assoc (line i o) ("\n" ++ tail) ("\n" ++ rest)
    ∙ ap (λ x. line i o ++ x) (append_assoc "\n" tail ("\n" ++ rest) ∙ ap (λ x. "\n" ++ x) ih)
    ∙ line-append i o ("\n" ++ numbered printed (suc i) (p ∷ ps) rest)

-- The context before the input is the prompt of the outputs.
pub context-prompt :
    (t : SubtaskDepTracker) (deps : List Ident) (os : List String) (input : String)
    → AreOutputs t.completed_outputs deps os
    → build_dependency_context deps t ++ input ≡ prompt printed os input
unfolding build_dependency_context
context-prompt t deps [] input h =
    rw (context_lines-lines t.completed_outputs 1 deps [] h, build_dependency_context)
      (nil-append input)
context-prompt t deps (o ∷ os) input h =
    let body = join_lines (lines 1 (o ∷ os)) in
    rw (context_lines-lines t.completed_outputs 1 deps (o ∷ os) h, build_dependency_context)
      (append_assoc "[Context from previous subtasks]\n" (body ++ "\n\n[Your task]\n") input
        ∙ ap (λ x. "[Context from previous subtasks]\n" ++ x)
            (append_assoc body "\n\n[Your task]\n" input
              ∙ ap (λ x. body ++ x) (append_assoc "\n" "\n[Your task]\n" input)
              ∙ join-numbered 1 o os ("\n[Your task]\n" ++ input)))
