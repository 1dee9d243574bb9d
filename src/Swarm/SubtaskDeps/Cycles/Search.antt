-- ===== src/Swarm/SubtaskDeps/Cycles/Search.antt =====
-- src/swarm/subtask-deps.ts: the search of `detectCircularDeps` ends.
use edgecoder.Prelude.{
  ℕ, zero, suc, ◌+◌, ◌≤◌, ◌<◌, ◌≡◌, inl, inr, refl, sym, ap, ◌∙◌, Bool, true, false, some, List, [],
  ◌∷◌, ◌==◌, arith, Ident, or_else, length, contains, has, Bool-cases,
}
use edgecoder.Swarm.SubtaskDeps.Cycles.{
  Graph, deps_of, push_all, search, unpushed, fuel_for, reaches_self,
}

length-push_all : (ds stack : List Ident) → length (push_all ds stack) ≡ length ds + length stack
length-push_all [] stack = omega arith
length-push_all (d ∷ ds) stack = omega (arith, length-push_all ds (d ∷ stack))

unpushed-grows :
    (id : Ident) (visited : List Ident) (g : Graph) → unpushed (id ∷ visited) g ≤ unpushed visited g
unpushed-grows id visited [] = omega arith
unpushed-grows id visited ((j, ds) ∷ g) = ground (arith, unpushed-grows id visited g)

-- A visit pushes no more than it takes off the measure.
unpushed-visit :
    (id : Ident) (visited : List Ident) (g : Graph)
    → contains id visited ≡ false
    → length (deps_of g id) + unpushed (id ∷ visited) g ≤ unpushed visited g
unpushed-visit id visited [] new = omega arith
unpushed-visit id visited ((j, ds) ∷ g) new =
    ground (arith, unpushed-visit id visited g, unpushed-grows id visited g)

module _ (g : Graph) (start : Ident) where
  search_ends :
      (fuel : ℕ) (visited stack : List Ident)
      → length stack + unpushed visited g < fuel
      → (b : Bool) × (search fuel g start visited stack ≡ some b)
  unfolding search
  search_ends zero visited stack h = elim h [ ]
  search_ends (suc fuel) visited [] h = (false, refl)
  search_ends (suc fuel) visited (current ∷ stack) h = elim (Bool-cases (current == start)) [
    | inl e ↦ (true, rw e refl)
    | inr e ↦ elim (Bool-cases (contains current visited)) [
      | inl v ↦ let (b, q) = search_ends fuel visited stack (omega (arith, h)) in (b, rw (e, v) q)
      | inr v ↦ elim (Bool-cases (has current g)) [
        | inl k ↦
            let n = unpushed-visit current visited g v in
            let l = length-push_all (deps_of g current) stack in
            let (b, q) =
              search_ends fuel (current ∷ visited) (push_all (deps_of g current) stack)
                (omega (arith, h, n, l)) in
            (b, rw (e, v, k) q)
        | inr k ↦
            let (b, q) = search_ends fuel visited stack (omega (arith, h)) in (b, rw (e, v, k) q)
      ]
    ]
  ]

-- The loop ends within the fuel that it is given.
pub reaches_self_ends :
    (g : Graph) (start : Ident)
    → search (fuel_for g (push_all (deps_of g start) [])) g start [] (push_all (deps_of g start) [])
      ≡ some (reaches_self g start)
unfolding reaches_self
reaches_self_ends g start =
    let stack = push_all (deps_of g start) [] in
    let (b, e) = search_ends g start (fuel_for g stack) [] stack (omega arith) in
    e ∙ ap (λ o. some (or_else o false)) (sym e)
