-- ===== src/Swarm/SubtaskDeps/Cycles/Found.antt =====
-- src/swarm/subtask-deps.ts: which identifiers `detectCircularDeps` returns.
use edgecoder.Prelude.{
  ◌≡◌, ◌↔◌, ◌⊎◌, inl, inr, refl, ◌∙◌, Bool, true, ◌&&◌, ◌||◌, List, [], ◌∷◌, ◌==◌, arith, Ident,
  any, contains, has, Bool-cases,
}
use edgecoder.Swarm.SubtaskDeps.Cycles.{
  Node, Graph, graph_of, reaches_self, is_self_loop, add_cycle_node, self_loops, cycles_from,
  detect_circular_deps,
}
use edgecoder.Swarm.SubtaskDeps.Cycles.Walks.{Reaches, reaches_self_iff, start_is_node}

-- A subtask of the identifier that depends on itself.
abbrev pub loops_at : Ident → Node → Bool
loops_at id s = s.id == id && is_self_loop s

contains-add_cycle_node :
    (id j : Ident) (ids : List Ident)
    → contains id (add_cycle_node j ids) ≡ (contains id ids || j == id)
contains-add_cycle_node id j ids = ground arith

contains-self_loops :
    (id : Ident) (nodes : List Node) (found : List Ident)
    → contains id (self_loops nodes found) ≡ (contains id found || any (loops_at id) nodes)
unfolding self_loops
contains-self_loops id [] found = ground arith
contains-self_loops id (s ∷ nodes) found = ground (
  arith,
  contains-self_loops id nodes found,
  contains-self_loops id nodes (add_cycle_node s.id found),
  contains-add_cycle_node id s.id found,
)

contains-cycles_from :
    (g rest : Graph) (id : Ident) (found : List Ident)
    → contains id (cycles_from g rest found)
      ≡ (contains id found || (has id rest && reaches_self g id))
unfolding cycles_from
contains-cycles_from g [] id found = ground arith
contains-cycles_from g ((j, ds) ∷ rest) id found = ground (
  arith,
  contains-cycles_from g rest id found,
  contains-cycles_from g rest id (add_cycle_node j found),
  contains-add_cycle_node id j found,
)

has_of_reaches_self : (g : Graph) (id : Ident) → (has id g && reaches_self g id) ≡ reaches_self g id
has_of_reaches_self g id = elim (Bool-cases (reaches_self g id)) [
  | inl r ↦ let h = start_is_node g id ((reaches_self_iff g id).0 r) in ground arith
  | inr r ↦ ground arith
]

contains-detect_circular_deps :
    (nodes : List Node) (id : Ident)
    → contains id (detect_circular_deps nodes)
      ≡ (any (loops_at id) nodes || reaches_self (graph_of nodes) id)
unfolding detect_circular_deps
contains-detect_circular_deps nodes id =
    let g = graph_of nodes in
    let a = contains-self_loops id nodes [] in
    let b = contains-cycles_from g g id (self_loops nodes []) in
    let c = has_of_reaches_self g id in b ∙ rw (a, c) refl

-- The identifiers returned are just those of the subtasks that depend on themselves and those from
-- which a walk along the dependencies leads back.
pub detect_iff :
    (nodes : List Node) (id : Ident)
    → (contains id (detect_circular_deps nodes) ≡ true)
      ↔ ((any (loops_at id) nodes ≡ true) ⊎ Reaches (graph_of nodes) id id)
detect_iff nodes id =
    let q = contains-detect_circular_deps nodes id in
    let (sound, complete) = reaches_self_iff (graph_of nodes) id in
    (
      λ h. elim (Bool-cases (any (loops_at id) nodes)) [
        | inl a ↦ inl a
        | inr a ↦ inr (sound (ground arith))
      ],
      λ h. elim h [ inl a ↦ ground arith | inr r ↦ let c = complete r in ground arith ],
    )
