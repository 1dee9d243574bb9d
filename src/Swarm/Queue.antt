-- ===== src/Swarm/Queue.antt =====
-- src/swarm/queue.ts: the class `SwarmQueue`. The clock is an argument of each call that reads it,
-- and so is the identifier that `randomUUID` returns. The optional PostgresStore is the list of
-- the calls made of it, latest first; its replies are not awaited.
pub mod Choice
pub mod Claims
pub mod Steps
pub mod Lease
pub mod Results
pub mod Enqueued
pub mod Board
pub mod Refinement
pub mod Tests
use Prim.Native.String.{String}
use mathlib.Core.Option
use mathlib.Core.List.{foldl}
use edgecoder.Prelude.{
  ℕ, ◌+◌, Bool, true, false, not, ◌&&◌, ◌||◌, Option, none, some, List, [], ◌∷◌, ◌++◌, ltb, leb,
  ◌==◌, if◌then◌else◌, Ident, truthy, or_else, same, length, filter, find, any, set, remove_first,
  indexed, Dict, lookup, insert,
}
use edgecoder.Types.{ExecutionPolicy, Subtask, SubtaskResult}

pub record AgentState : Type 0 where
  pub agent_id : Ident
  pub policy : ExecutionPolicy
  pub last_heartbeat : ℕ

pub record QueueItem : Type 0 where
  pub subtask : Subtask
  pub claimed_by : Option Ident
  pub claimed_at : Option ℕ
  pub claimable_after_ms : Option ℕ

pub record AgentMetadata : Type 0 where
  pub os : String
  pub version : String
  pub mode : String
  pub local_model_enabled : Option Bool
  pub active_model : Option Ident
  pub active_model_param_size : Option ℕ

pub record AgentRow : Type 0 where
  pub agent_id : Ident
  pub os : String
  pub version : String
  pub mode : String
  pub local_model_enabled : Bool
  pub last_seen_ms : ℕ
  pub active_model : Option Ident
  pub active_model_param_size : Option ℕ

pub data StoreCall : Type 0 where
  upsert_agent : AgentRow → StoreCall
  persist_subtask : Subtask → StoreCall
  mark_subtask_claimed : Ident → Ident → ℕ → StoreCall
  persist_result : SubtaskResult → StoreCall

pub record SwarmQueue : Type 0 where
  pub store : Option (List StoreCall)
  pub tasks : List QueueItem
  pub results : List SubtaskResult
  pub agents : Dict AgentState
  pub project_completed : Dict ℕ
  pub agent_claim_count : Dict ℕ

-- `new SwarmQueue(store)`
pub init : Bool → SwarmQueue
init has_store = record {
  store = if has_store then some [] else none;
  tasks = [];
  results = [];
  agents = [];
  project_completed = [];
  agent_claim_count = [];
}

-- `void this.store?.…`
abbrev send : StoreCall → SwarmQueue → SwarmQueue
send c q = record q { store = Option.map (◌∷◌ c) q.store }

pub register_agent : Ident → ExecutionPolicy → Option AgentMetadata → ℕ → SwarmQueue → SwarmQueue
register_agent agent_id policy metadata now q =
    send
      (upsert_agent (record {
        agent_id = agent_id;
        os = elim metadata [ none ↦ "unknown" | some m ↦ m.os ];
        version = elim metadata [ none ↦ "unknown" | some m ↦ m.version ];
        mode = elim metadata [ none ↦ "swarm-only" | some m ↦ m.mode ];
        local_model_enabled = elim metadata [
          | none ↦ false
          | some m ↦ or_else m.local_model_enabled false
        ];
        last_seen_ms = now;
        active_model = elim metadata [ none ↦ none | some m ↦ m.active_model ];
        active_model_param_size = elim metadata [
          | none ↦ none
          | some m ↦ m.active_model_param_size
        ];
      }))
      (record q {
        agents =
            insert agent_id (record { agent_id = agent_id; policy = policy; last_heartbeat = now })
              q.agents;
      })

pub heartbeat : Ident → ℕ → SwarmQueue → SwarmQueue
heartbeat agent_id now q = elim (lookup agent_id q.agents) [
  | none ↦ q
  | some current ↦
      send
        (upsert_agent (record {
          agent_id = agent_id;
          os = "unknown";
          version = "unknown";
          mode = "swarm-only";
          local_model_enabled = false;
          last_seen_ms = now;
          active_model = none;
          active_model_param_size = none;
        }))
        (record q { agents = insert agent_id (record current { last_heartbeat = now }) q.agents })
]

abbrev pub has_id : Ident → QueueItem → Bool
has_id i t = t.subtask.id == i

abbrev pub is_unclaimed : QueueItem → Bool
is_unclaimed t = not (truthy t.claimed_by)

-- The subtask comes with its identifier, if it has one; `fresh` is the identifier drawn otherwise.
pub enqueue_subtask :
    Option Ident → Ident → Subtask → Option ℕ → ℕ → SwarmQueue → SwarmQueue × Subtask
enqueue_subtask id fresh subtask claim_delay_ms now q =
    let materialized : Subtask = record subtask { id = or_else id fresh } in
    if any (has_id materialized.id) q.tasks then (q, materialized) else (
      send (persist_subtask materialized) (record q {
        tasks =
            q.tasks
            ++ record {
              subtask = materialized;
              claimed_by = none;
              claimed_at = none;
              claimable_after_ms =
                  if truthy claim_delay_ms then Option.map (λ d. now + d) claim_delay_ms else none;
            }
              ∷ [];
      }),
      materialized,
    )

pub mark_remote_claimed : Ident → SwarmQueue → SwarmQueue × Bool
mark_remote_claimed subtask_id q =
    if any (λ t. has_id subtask_id t && is_unclaimed t) q.tasks
    then (
      record q { tasks = remove_first (λ t. has_id subtask_id t && is_unclaimed t) q.tasks },
      true,
    )
    else (q, false)

-- The filter at the head of `claim`.
abbrev pub is_free : ℕ → QueueItem → Bool
is_free now t =
    is_unclaimed t
    && (not (truthy t.claimable_after_ms) || leb (or_else t.claimable_after_ms 0) now)

-- Items of the pool carry their place in the list, which stands for the object that is shared.
abbrev pub Candidate : Type 0
Candidate = ℕ × QueueItem

abbrev pub wants : Option Ident → Candidate → Bool
wants model c = same c.1.subtask.requested_model model

unfoldable pub matching : Option Ident → List Candidate → List Candidate
matching model unclaimed = if truthy model then filter (wants model) unclaimed else []

-- `matching.length > 0 ? matching : unclaimed`
abbrev pub or_all : List Candidate → List Candidate → List Candidate
or_all [] unclaimed = unclaimed
or_all (c ∷ cs) unclaimed = c ∷ cs

abbrev pub free_tasks : ℕ → SwarmQueue → List Candidate
free_tasks now q = filter (λ (c : Candidate). is_free now c.1) (indexed 0 q.tasks)

unfoldable pub pool : ℕ → Option Ident → SwarmQueue → List Candidate
unfolding matching
pool now model q = or_all (matching model (free_tasks now q)) (free_tasks now q)

unfoldable pub completed : SwarmQueue → Subtask → ℕ
completed q s = or_else (lookup s.project_meta.project_id q.project_completed) 0

abbrev pub priority : Subtask → ℕ
priority s = s.project_meta.priority

-- One round of the loop that picks the item.
unfoldable pub prefer : SwarmQueue → Candidate → Candidate → Candidate
prefer q item candidate =
    let current = item.1.subtask in
    let other = candidate.1.subtask in
    if ltb (completed q other) (completed q current)
    then candidate
    else if completed q other == completed q current && ltb (priority current) (priority other)
    then candidate
    else item

unfoldable pub best : SwarmQueue → List Candidate → Option Candidate
unfolding prefer
best q [] = none
best q (c ∷ cs) = some (foldl (prefer q) c (c ∷ cs))

abbrev pub taken : Ident → ℕ → QueueItem → QueueItem
taken agent_id now t = record t { claimed_by = some agent_id; claimed_at = some now }

-- The two readings of the clock are `now` and `claimed_at`.
unfoldable pub claim : Ident → Option Ident → ℕ → ℕ → SwarmQueue → SwarmQueue × Option Subtask
claim agent_id model now claimed_at q = elim (best q (pool now model q)) [
  | none ↦ (q, none)
  | some (i, t) ↦ (
    send (mark_subtask_claimed t.subtask.id agent_id claimed_at) (record q {
      tasks = set q.tasks i (taken agent_id claimed_at t);
      agent_claim_count =
          insert agent_id (or_else (lookup agent_id q.agent_claim_count) 0 + 1) q.agent_claim_count;
    }),
    some t.subtask,
  )
]

pub complete : SubtaskResult → SwarmQueue → SwarmQueue
complete result q =
    let q' = send (persist_result result) (record q { results = q.results ++ result ∷ [] }) in
    elim (find (has_id result.subtask_id) q.tasks) [
      | none ↦ q'
      | some t ↦
          let project = t.subtask.project_meta.project_id in
          record q' {
            tasks = remove_first (has_id result.subtask_id) q.tasks;
            project_completed =
                insert project (or_else (lookup project q.project_completed) 0 + 1)
                  q.project_completed;
          }
    ]

unfoldable pub get_subtask : Ident → SwarmQueue → Option Subtask
get_subtask subtask_id q =
    Option.map (λ (t : QueueItem). t.subtask) (find (has_id subtask_id) q.tasks)

abbrev pub released : QueueItem → QueueItem
released t = record t { claimed_by = none; claimed_at = none }

pub release_first : Ident → List QueueItem → List QueueItem
release_first subtask_id [] = []
release_first subtask_id (t ∷ ts) =
    if has_id subtask_id t then released t ∷ ts else t ∷ release_first subtask_id ts

pub requeue : Ident → SwarmQueue → SwarmQueue × Bool
unfolding release_first
requeue subtask_id q =
    if any (has_id subtask_id) q.tasks
    then (record q { tasks = release_first subtask_id q.tasks }, true)
    else (q, false)

abbrev pub is_stale : ℕ → ℕ → QueueItem → Bool
is_stale timeout now t =
    truthy t.claimed_by && (truthy t.claimed_at && ltb (or_else t.claimed_at 0 + timeout) now)

-- The loop of `requeueStale`, with its count.
pub release_stale : ℕ → ℕ → List QueueItem → List QueueItem × ℕ
release_stale timeout now [] = ([], 0)
release_stale timeout now (t ∷ ts) =
    let (rest, n) = release_stale timeout now ts in
    if is_stale timeout now t then (released t ∷ rest, n + 1) else (t ∷ rest, n)

pub requeue_stale : ℕ → ℕ → SwarmQueue → SwarmQueue × ℕ
unfolding release_stale
requeue_stale claim_timeout_ms now q =
    let (ts, n) = release_stale claim_timeout_ms now q.tasks in (record q { tasks = ts }, n)

pub agent_claims : Ident → SwarmQueue → ℕ
agent_claims agent_id q = or_else (lookup agent_id q.agent_claim_count) 0

pub record Status : Type 0 where
  pub queued : ℕ
  pub agents : ℕ
  pub results : ℕ

pub status : SwarmQueue → Status
status q = record { queued = length q.tasks; agents = length q.agents; results = length q.results }
