-- ===== src/Swarm/SubtaskDeps/Cycles/Walks.antt =====
-- src/swarm/subtask-deps.ts: the search of `detectCircularDeps` finds just the cycles.
use edgecoder.Prelude.{
  ℕ, zero, suc, ◌≡◌, ◌↔◌, ◌⊎◌, inl, inr, refl, ap, ◌∙◌, subst, true, false, not, ◌||◌, some, List,
  [], ◌∷◌, ◌==◌, arith, Ident, contains, has, lookup, Bool-cases, Option-cases, ==→eq, In, here,
  there, In-cons,
}
use edgecoder.Swarm.SubtaskDeps.Cycles.{Graph, deps_of, push_all, search, fuel_for, reaches_self}
use edgecoder.Swarm.SubtaskDeps.Cycles.Search.{reaches_self_ends}

-- The walks along dependencies of at least one step.
pub data Reaches (g : Graph) (u : Ident) : Ident → Type 0 where
  first : {ds : List Ident} {v : Ident} → lookup u g ≡ some ds → In v ds → Reaches g u v
  next :
      {ds : List Ident} {v w : Ident}
      → Reaches g u v
      → lookup v g ≡ some ds
      → In w ds
      → Reaches g u w

In-push_all : (d : Ident) (ds stack : List Ident) → In d (push_all ds stack) → In d ds ⊎ In d stack
In-push_all d [] stack m = inr m
In-push_all d (x ∷ ds) stack m = elim (In-push_all d ds (x ∷ stack) m) [
  | inl n ↦ inl (there n)
  | inr n ↦ elim (In-cons n) [ inl same ↦ inl (rw same here) | inr k ↦ inr k ]
]

push_all-stack : (d : Ident) (ds stack : List Ident) → In d stack → In d (push_all ds stack)
push_all-stack d [] stack m = m
push_all-stack d (x ∷ ds) stack m = push_all-stack d ds (x ∷ stack) (there m)

push_all-In : (d : Ident) (ds stack : List Ident) → In d ds → In d (push_all ds stack)
push_all-In d [] stack m = elim m [ ]
push_all-In d (x ∷ ds) stack m = elim (In-cons m) [
  | inl same ↦ push_all-stack d ds (x ∷ stack) (rw same here)
  | inr n ↦ push_all-In d ds (x ∷ stack) n
]

lookup_of_deps :
    (g : Graph) (u d : Ident)
    → In d (deps_of g u)
    → (ds : List Ident) × (lookup u g ≡ some ds) × In d ds
lookup_of_deps g u d m = elim (Option-cases (lookup u g)) [
  | inl e ↦ elim (rw e at m) [ ]
  | inr (ds, e) ↦ (ds, e, rw e at m)
]

module _ (g : Graph) (start : Ident) where
  -- All that is on the stack is reached from the start.
  search_sound :
      (fuel : ℕ) (visited stack : List Ident)
      → ((x : Ident) → In x stack → Reaches g start x)
      → search fuel g start visited stack ≡ some true
      → Reaches g start start
  unfolding search
  search_sound zero visited stack reached h = cc
  search_sound (suc fuel) visited [] reached h = cc
  search_sound (suc fuel) visited (current ∷ stack) reached h =
      elim (Bool-cases (current == start)) [
        | inl e ↦ subst (Reaches g start) (==→eq current start e) (reached current here)
        | inr e ↦ elim (Bool-cases (contains current visited || not (has current g))) [
          | inl s ↦ search_sound fuel visited stack (λ x m. reached x (there m)) (rw (e, s) at h)
          | inr s ↦
              search_sound fuel (current ∷ visited) (push_all (deps_of g current) stack)
                (λ x m. elim (In-push_all x (deps_of g current) stack m) [
                  | inl d ↦
                      let (ds, q, k) = lookup_of_deps g current x d in
                      next (reached current here) q k
                  | inr k ↦ reached x (there k)
                ])
                (rw (e, s) at h)
        ]
      ]

  -- What a visited node, or the start, depends on is visited, waits on the stack, or is no node.
  abbrev Closed : List Ident → List Ident → Type 0
  Closed visited stack =
      (u v : Ident)
      → ((u ≡ start) ⊎ (contains u visited ≡ true))
      → In v (deps_of g u)
      → (contains v visited ≡ true) ⊎ ((has v g ≡ false) ⊎ In v stack)

  Closed-skip :
      (current : Ident) (visited stack : List Ident)
      → Closed visited (current ∷ stack)
      → (contains current visited || not (has current g)) ≡ true
      → Closed visited stack
  Closed-skip current visited stack closed s u v h m = elim (closed u v h m) [
    | inl a ↦ inl a
    | inr (inl b) ↦ inr (inl b)
    | inr (inr k) ↦ elim (In-cons k) [
      | inl same ↦ elim (Bool-cases (contains current visited)) [
        | inl e ↦ inl (rw same e)
        | inr e ↦ inr (inl (rw same (ground arith)))
      ]
      | inr n ↦ inr (inr n)
    ]
  ]

  Closed-visit :
      (current : Ident) (visited stack : List Ident)
      → Closed visited (current ∷ stack)
      → Closed (current ∷ visited) (push_all (deps_of g current) stack)
  Closed-visit current visited stack closed u v h m = elim (Bool-cases (current == u)) [
    | inl e ↦
        let same = ==→eq current u e in
        inr (inr (push_all-In v (deps_of g current) stack (rw same m)))
    | inr e ↦
        let h' : (u ≡ start) ⊎ (contains u visited ≡ true) = elim h [
          | inl a ↦ inl a
          | inr b ↦ inr (ground arith)
        ] in
        elim (closed u v h' m) [
          | inl a ↦ inl (ground arith)
          | inr (inl b) ↦ inr (inl b)
          | inr (inr k) ↦ elim (In-cons k) [
            | inl same ↦ inl (ground arith)
            | inr n ↦ inr (inr (push_all-stack v (deps_of g current) stack n))
          ]
        ]
  ]

  search_complete :
      (fuel : ℕ) (visited stack : List Ident)
      → Closed visited stack
      → contains start visited ≡ false
      → search fuel g start visited stack ≡ some false
      → (last : List Ident) × Closed last [] × (contains start last ≡ false)
  unfolding search
  search_complete zero visited stack closed new h = cc
  search_complete (suc fuel) visited [] closed new h = (visited, closed, new)
  search_complete (suc fuel) visited (current ∷ stack) closed new h =
      elim (Bool-cases (current == start)) [
        | inl e ↦ let no = rw e at h in cc
        | inr e ↦ elim (Bool-cases (contains current visited || not (has current g))) [
          | inl s ↦
              search_complete fuel visited stack (Closed-skip current visited stack closed s) new
                (rw (e, s) at h)
          | inr s ↦
              search_complete fuel (current ∷ visited) (push_all (deps_of g current) stack)
                (Closed-visit current visited stack closed) (ground arith) (rw (e, s) at h)
        ]
      ]

  deps_of-lookup :
      {ds : List Ident} (u v : Ident) → lookup u g ≡ some ds → In v ds → In v (deps_of g u)
  deps_of-lookup u v e m = rw e m

  -- A walk from the start stays among the visited, or ends at what is no node.
  walk_visited :
      (last : List Ident) (v : Ident)
      → Closed last []
      → Reaches g start v
      → (contains v last ≡ true) ⊎ (has v g ≡ false)
  walk_visited last v closed (first e m) =
      elim (closed start v (inl refl) (deps_of-lookup start v e m)) [
        | inl a ↦ inl a
        | inr (inl b) ↦ inr b
        | inr (inr k) ↦ elim k [ ]
      ]
  walk_visited last w closed (next {ds} {v} r e m) = elim (walk_visited last v closed r) [
    | inl a ↦ elim (closed v w (inr a) (deps_of-lookup v w e m)) [
      | inl b ↦ inl b
      | inr (inl b) ↦ inr b
      | inr (inr k) ↦ elim k [ ]
    ]
    | inr b ↦ let no = rw e at b in cc
  ]

  pub start_is_node : {v : Ident} → Reaches g start v → has start g ≡ true
  start_is_node (first e m) = rw e refl
  start_is_node (next r e m) = start_is_node r

-- The search from a node succeeds just if a walk of at least one step leads from it back to it.
pub reaches_self_iff :
    (g : Graph) (start : Ident) → (reaches_self g start ≡ true) ↔ Reaches g start start
reaches_self_iff g start =
    let stack = push_all (deps_of g start) [] in
    let ends = reaches_self_ends g start in
    (
      λ h.
          search_sound g start (fuel_for g stack) [] stack
            (λ x m. elim (In-push_all x (deps_of g start) [] m) [
              | inl d ↦ let (ds, q, k) = lookup_of_deps g start x d in first q k
              | inr k ↦ elim k [ ]
            ])
            (ends ∙ ap some h),
      λ r. elim (Bool-cases (reaches_self g start)) [
        | inl e ↦ e
        | inr e ↦
            let (last, closed, new) =
              search_complete g start (fuel_for g stack) [] stack
                (λ u v h m. elim h [
                  | inl same ↦ inr (inr (push_all-In v (deps_of g start) [] (rw (← same) m)))
                  | inr empty ↦ cc
                ])
                refl (ends ∙ ap some e) in
            let k = start_is_node g start r in
            elim (walk_visited g start last start closed r) [ inl a ↦ cc | inr b ↦ cc ]
      ],
    )
