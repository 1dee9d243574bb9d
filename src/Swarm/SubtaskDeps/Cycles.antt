-- ===== src/Swarm/SubtaskDeps/Cycles.antt =====
-- src/swarm/subtask-deps.ts: `detectCircularDeps`. The `while` loop runs on fuel; Search has that the
-- fuel given is enough.
pub mod Search
pub mod Walks
pub mod Found
use edgecoder.Prelude.{
  ℕ, zero, suc, ◌+◌, Bool, true, false, not, ◌||◌, Option, none, some, List, [], ◌∷◌, ◌==◌,
  if◌then◌else◌, Ident, or_else, length, filter, contains, has, Dict, lookup, insert,
}
use mathlib.Core.List.{foldl}

-- What the search reads of a subtask.
pub record Node : Type 0 where
  pub id : Ident
  pub depends_on : Option (List Ident)

-- The dependencies of each identifier but itself. `ids` is the set of the keys.
abbrev pub Graph : Type 0
Graph = Dict (List Ident)

abbrev pub other_deps : Node → List Ident
other_deps s = filter (λ d. not (d == s.id)) (or_else s.depends_on [])

-- A later subtask of the same identifier replaces an earlier one.
abbrev pub add_node : Graph → Node → Graph
add_node g s = insert s.id (other_deps s) g

abbrev pub graph_of : List Node → Graph
graph_of nodes = foldl add_node [] nodes

abbrev pub deps_of : Graph → Ident → List Ident
deps_of g id = or_else (lookup id g) []

-- `for (const dep of deps) stack.push(dep)`; the head of the list is the top of the stack.
abbrev pub push_all : List Ident → List Ident → List Ident
push_all [] stack = stack
push_all (d ∷ ds) stack = push_all ds (d ∷ stack)

-- The `while` loop, with `reachesSelf` as its result; `none` if the fuel ran out.
unfoldable pub search : ℕ → Graph → Ident → List Ident → List Ident → Option Bool
search zero g start visited stack = none
search (suc fuel) g start visited [] = some false
search (suc fuel) g start visited (current ∷ stack) =
    let skipped = search fuel g start visited stack in
    let expanded = search fuel g start (current ∷ visited) (push_all (deps_of g current) stack) in
    if current == start
    then some true
    else if contains current visited || not (has current g)
    then skipped
    else expanded

-- How many rounds the loop may take: what is on the stack, and what the unvisited may push.
abbrev pub unpushed : List Ident → Graph → ℕ
unpushed visited [] = 0
unpushed visited ((id, deps) ∷ g) =
    (if contains id visited then 0 else length deps) + unpushed visited g

abbrev pub fuel_for : Graph → List Ident → ℕ
fuel_for g stack = suc (length stack + unpushed [] g)

unfoldable pub reaches_self : Graph → Ident → Bool
unfolding search
reaches_self g start =
    let stack = push_all (deps_of g start) [] in
    or_else (search (fuel_for g stack) g start [] stack) false

-- `s.dependsOn?.includes(s.id)`
abbrev pub is_self_loop : Node → Bool
is_self_loop s = contains s.id (or_else s.depends_on [])

-- `cycleNodes.add(id)`
abbrev pub add_cycle_node : Ident → List Ident → List Ident
add_cycle_node id ids = if contains id ids then ids else id ∷ ids

unfoldable pub self_loops : List Node → List Ident → List Ident
self_loops [] found = found
self_loops (s ∷ nodes) found =
    let rest = self_loops nodes (add_cycle_node s.id found) in
    let same = self_loops nodes found in if is_self_loop s then rest else same

-- The loop over `ids`.
unfoldable pub cycles_from : Graph → Dict (List Ident) → List Ident → List Ident
unfolding reaches_self
cycles_from g [] found = found
cycles_from g ((id, deps) ∷ rest) found =
    let more = cycles_from g rest (add_cycle_node id found) in
    let same = cycles_from g rest found in
    if contains id found then same else if reaches_self g id then more else same

unfoldable pub detect_circular_deps : List Node → List Ident
unfolding self_loops cycles_from
detect_circular_deps nodes = cycles_from (graph_of nodes) (graph_of nodes) (self_loops nodes [])
