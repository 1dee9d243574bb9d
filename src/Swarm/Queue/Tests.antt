-- ===== src/Swarm/Queue/Tests.antt =====
-- Runs of the queue of src/swarm/queue.ts, and its theorems at concrete queues.
use edgecoder.Prelude.{
  List, false, ℕ, ◌≡◌, refl, ◌≢◌, ◌↔◌, true, false, none, some, [], ◌∷◌, arith, Ident, any,
}
use edgecoder.Types.{Subtask, SubtaskResult, SubtaskKind, Language, ResourceClass}
use edgecoder.Swarm.Queue.{
  SwarmQueue, QueueItem, init, claim, completed, is_free, taken, heartbeat, pool, best, prefer,
  matching,
}
use edgecoder.Swarm.Queue.Choice.{Precedes, Serves}
use edgecoder.Swarm.Queue.Claims.{claim_fair, claim-none_iff, claim_prefers_model}
use edgecoder.Swarm.Queue.Board.{absent, board}
use edgecoder.Swarm.Queue.Refinement.{AllowedAll, queue_refines_board}
use edgecoder.Swarm.Queue.Steps.{
  Call, claims, requeues, claims_remotely, enqueues, beats, run, step, ids, AllDistinct,
  run-init-AllDistinct,
}
use edgecoder.Swarm.Queue.Lease.{claim_exclusive}

abbrev pub subtask : Ident → Ident → ℕ → Ident → Subtask
subtask id project priority model = record {
  id = id;
  task_id = 1;
  kind = SubtaskKind.single_step;
  language = Language.python;
  input = "";
  timeout_ms = 1000;
  snapshot_ref = 1;
  project_meta = record {
    project_id = project;
    tenant_id = none;
    resource_class = ResourceClass.cpu;
    priority = priority;
  };
  requested_model = some model;
  depends_on = none;
  subtask_index = none;
}

abbrev pub waiting : Subtask → QueueItem
waiting s = record { subtask = s; claimed_by = none; claimed_at = none; claimable_after_ms = none }

-- Three tasks wait: project 5 has two completed results, project 6 has one.
abbrev pub queue : SwarmQueue
queue = record {
  store = none;
  tasks =
      waiting (subtask 11 5 90 3) ∷ waiting (subtask 12 6 10 4) ∷ waiting (subtask 13 6 50 4) ∷ [];
  results = [];
  agents = [];
  project_completed = (5, 2) ∷ (6, 1) ∷ [];
  agent_claim_count = [];
}

abbrev after_claim : SwarmQueue
after_claim = record queue {
  tasks =
      waiting (subtask 11 5 90 3)
      ∷ waiting (subtask 12 6 10 4)
      ∷ taken 8 101 (waiting (subtask 13 6 50 4))
      ∷ [];
  agent_claim_count = (8, 1) ∷ [];
}

abbrev after_second : SwarmQueue
after_second = record queue {
  tasks =
      waiting (subtask 11 5 90 3)
      ∷ taken 9 103 (waiting (subtask 12 6 10 4))
      ∷ taken 8 101 (waiting (subtask 13 6 50 4))
      ∷ [];
  agent_claim_count = (8, 1) ∷ (9, 1) ∷ [];
}

first_claim : claim 8 none 100 101 queue ≡ (after_claim, some (subtask 13 6 50 4))
unfolding claim pool matching best prefer completed
first_claim = refl

second_claim :
    claim 9 none 102 103 (run (beats 8 102 ∷ []) after_claim)
    ≡ (after_second, some (subtask 12 6 10 4))
unfolding claim pool matching best prefer completed run step heartbeat
second_claim = refl

claim_exclusive_example : ◌≢◌ {A = ℕ} 12 13
claim_exclusive_example =
    claim_exclusive 8 9 none none 100 101 102 103 queue (beats 8 102 ∷ []) (omega arith)
      (ground arith) first_claim (tt, tt) second_claim

claim_fair_example : Precedes queue (subtask 13 6 50 4) (subtask 11 5 90 3)
claim_fair_example =
    claim_fair 8 none 100 101 queue 0 (waiting (subtask 11 5 90 3)) first_claim refl refl (λ h. h)

abbrev model_taken : SwarmQueue
model_taken = record queue {
  tasks =
      taken 8 101 (waiting (subtask 11 5 90 3))
      ∷ waiting (subtask 12 6 10 4)
      ∷ waiting (subtask 13 6 50 4)
      ∷ [];
  agent_claim_count = (8, 1) ∷ [];
}

model_claim_state : claim 8 (some 3) 100 101 queue ≡ (model_taken, some (subtask 11 5 90 3))
unfolding claim pool matching best prefer completed
model_claim_state = refl

claim_prefers_model_example : Serves (some 3) (subtask 11 5 90 3)
claim_prefers_model_example =
    claim_prefers_model 8 (some 3) 100 101 queue 0 (waiting (subtask 11 5 90 3)) model_claim_state
      refl refl refl

claim-none_iff_example :
    ((claim 8 none 100 101 queue).1 ≡ none) ↔ (any (is_free 100) queue.tasks ≡ false)
claim-none_iff_example = claim-none_iff 8 none 100 101 queue

abbrev result : SubtaskResult
result = record {
  subtask_id = 13;
  task_id = 1;
  agent_id = 8;
  is_ok = true;
  output = "done";
  error = none;
  duration_ms = 40;
  snapshot_ref = none;
  report_nonce = none;
  report_signature = none;
}

run-init-AllDistinct_example : AllDistinct (
    ids
      (run
        (enqueues (some 4) 0 (subtask 4 1 1 1) none 10
          ∷ enqueues (some 4) 0 (subtask 4 1 1 1) none 11
          ∷ [])
        (init true)).tasks)
run-init-AllDistinct_example = run-init-AllDistinct true (
    enqueues (some 4) 0 (subtask 4 1 1 1) none 10
    ∷ enqueues (some 4) 0 (subtask 4 1 1 1) none 11
    ∷ [])

-- A task arrives, is claimed, put back, and taken over by another coordinator.
abbrev board_history : List Call
board_history =
    enqueues (some 11) 0 (subtask 11 5 90 3) none 100
    ∷ claims 8 (some 3) 110 111
    ∷ requeues 11
    ∷ claims_remotely 11
    ∷ []

queue_refines_board_example :
    AllowedAll board_history (λ i. absent) (board (run board_history (init false)))
queue_refines_board_example = queue_refines_board false board_history
