-- ===== src/Swarm/SubtaskDeps/Tests.antt =====
-- Runs of the tracker of src/swarm/subtask-deps.ts, and its theorems at concrete inputs.

use edgecoder.Prelude.{
  ℕ, ◌≡◌, ◌⊎◌, ◌↔◌, refl, true, none, some, List, [], ◌∷◌, Ident, any, contains, lookup, insert,
}
use edgecoder.Types.{Subtask, SubtaskKind, Language, ResourceClass}
use edgecoder.Swarm.Queue.{SwarmQueue, get_subtask}
use edgecoder.Swarm.SubtaskDeps.{
  PendingDependentSubtask, SubtaskDepTracker, empty_tracker, hold, record_completion_and_release,
  build_dependency_context, context_lines, join_lines, decimal,
}
use edgecoder.Swarm.SubtaskDeps.Cycles.{
  Node, graph_of, reaches_self, search, fuel_for, push_all, self_loops, cycles_from,
  detect_circular_deps,
}
use edgecoder.Swarm.SubtaskDeps.Cycles.Search.{reaches_self_ends}
use edgecoder.Swarm.SubtaskDeps.Cycles.Walks.{Reaches}
use edgecoder.Swarm.SubtaskDeps.Cycles.Found.{loops_at, detect_iff}
use edgecoder.Swarm.SubtaskDeps.Histories.{complete_all, held_until_met}
use Prim.Native.String.{String}
use edgecoder.Swarm.SubtaskDeps.Decimal.{value_from}
use edgecoder.Swarm.SubtaskDeps.Context.{AreOutputs, prompt}
use edgecoder.Swarm.SubtaskDeps.Queued.{to_queue, released_queued}

abbrev node : Ident → List Ident → Node
node id deps = record { id = id; depends_on = some deps }

-- 1 and 2 depend on each other, 3 on 1, 4 on itself.
abbrev nodes : List Node
nodes = node 1 (2 ∷ []) ∷ node 2 (1 ∷ 9 ∷ []) ∷ node 3 (1 ∷ []) ∷ node 4 (4 ∷ 3 ∷ []) ∷ []

detect : detect_circular_deps nodes ≡ 2 ∷ 1 ∷ 4 ∷ []
unfolding detect_circular_deps self_loops cycles_from reaches_self search
detect = refl

reaches_self_ends_example :
    search
      (fuel_for (graph_of nodes) (push_all (2 ∷ []) []))
      (graph_of nodes)
      1
      []
      (push_all (2 ∷ []) [])
    ≡ some (reaches_self (graph_of nodes) 1)
reaches_self_ends_example = reaches_self_ends (graph_of nodes) 1

detect_iff_example :
    (contains 1 (detect_circular_deps nodes) ≡ true)
    ↔ ((any (loops_at 1) nodes ≡ true) ⊎ Reaches (graph_of nodes) 1 1)
detect_iff_example = detect_iff nodes 1

abbrev subtask : Subtask
subtask = record {
  id = 7;
  task_id = 1;
  kind = SubtaskKind.single_step;
  language = Language.python;
  input = "go on";
  timeout_ms = 1000;
  snapshot_ref = 1;
  project_meta = record {
    project_id = 5;
    tenant_id = none;
    resource_class = ResourceClass.cpu;
    priority = 1;
  };
  requested_model = none;
  depends_on = some (3 ∷ 12 ∷ []);
  subtask_index = none;
}

abbrev entry : PendingDependentSubtask
entry = record { subtask = subtask; depends_on = 3 ∷ 12 ∷ []; enqueue_opts = none }

abbrev waiting : SubtaskDepTracker
waiting = record { pending = (7, entry) ∷ []; completed_outputs = (3, "a") ∷ [] }

abbrev queue : SwarmQueue
queue = record {
  store = none;
  tasks = [];
  results = [];
  agents = [];
  project_completed = [];
  agent_claim_count = [];
}

hold-entry : (hold entry empty_tracker).pending ≡ (7, entry) ∷ []
unfolding hold
hold-entry = refl

context :
    build_dependency_context
      (3 ∷ 5 ∷ 12 ∷ [])
      (record waiting { completed_outputs = (3, "a") ∷ (12, "b") ∷ [] })
    ≡ "[Context from previous subtasks]\nSubtask 1 result: a\nSubtask 3 result: b\n\n[Your task]\n"
unfolding build_dependency_context context_lines join_lines decimal
context = refl

held_until_met_example :
    lookup 7 (complete_all (to_queue 5) ((12, "b") ∷ []) waiting queue).0.pending ≡ none
held_until_met_example = held_until_met (to_queue 5) 7 12 "b" [] entry waiting queue (refl, tt) refl

absent : get_subtask 7 queue ≡ none
unfolding get_subtask
absent = refl

released_queued_example :
    (number : ℕ → String) × ((i : ℕ) → value_from 0 (number i) ≡ i)
    × (os : List String) × AreOutputs (insert 12 "b" waiting.completed_outputs) (3 ∷ 12 ∷ []) os
    × (get_subtask 7 (record_completion_and_release (to_queue 5) 12 "b" waiting queue).2
        ≡ some (record subtask { input = prompt number os "go on" }))
released_queued_example =
    released_queued 5 7 12 "b" entry waiting queue (refl, tt) (refl, tt) refl absent refl
