-- ===== src/Security/BehaviorTracker/Stats.antt =====
-- src/security/behavior-tracker.ts: `getStats`. The start of the window stops at 0.
use edgecoder.Prelude.{
  ℕ, suc, ◌+◌, ◌-◌, ◌*◌, Bool, true, false, Option, none, some, List, [], ◌∷◌, map, ltb, leb, ◌==◌,
  if◌then◌else◌, Ident, length, filter, drop, sum_by, min, max, lookup,
}
use edgecoder.Security.Behavior.{Ratio, whole, AgentBehaviorStats}
use edgecoder.Security.BehaviorTracker.{
  TaskEvent, Violation, signature_failure, replay_attempt, rate_limit_hit, ProtocolEvent, Entry,
  AgentBehaviorTracker, output_hash_ring_size, task_time, protocol_time, same_time, prune_window,
  update,
}

-- The longest run of equal hashes, 0 if no two neighbours are equal: `run` is the length of the run
-- that ends at `last`.
unfoldable pub longest_run : Ident → ℕ → List TaskEvent → ℕ
longest_run last run [] = 0
longest_run last run (e ∷ es) =
    let again = e.output_hash == last in
    let next = if again then suc run else 1 in
    let rest = longest_run e.output_hash next es in if again then max next rest else rest

unfoldable pub identical_outputs : List TaskEvent → ℕ
identical_outputs [] = 0
identical_outputs (e ∷ es) = longest_run e.output_hash 1 es

-- `total / count`, or the default if there is nothing to count.
abbrev mean_or : Ratio → ℕ → ℕ → Ratio
mean_or default total count = if count == 0 then default else record { num = total; den = count }

-- `Math.min(...xs)`, 0 for no number.
unfoldable pub least : List ℕ → ℕ
least [] = 0
least (x ∷ []) = x
least (x ∷ y ∷ xs) = min x (least (y ∷ xs))

-- The square of `count * x - total`, so of `x - mean` times the square of the count.
abbrev squared_difference : ℕ → ℕ → ℕ → ℕ
squared_difference count total x = let d = (count * x - total) + (total - count * x) in d * d

-- The square of `computeStdDev`.
unfoldable pub variance_of : List ℕ → Ratio
variance_of xs =
    let n = length xs in
    if ltb n 2
    then whole 0
    else record { num = sum_by (squared_difference n (sum_by same_time xs)) xs; den = n * n * n }

-- The heartbeats in order of time, as an insertion sort.
unfoldable pub insert_time : ℕ → List ℕ → List ℕ
insert_time x [] = x ∷ []
insert_time x (y ∷ ys) = let rest = insert_time x ys in if leb x y then x ∷ y ∷ ys else y ∷ rest

unfoldable pub by_time : List ℕ → List ℕ
by_time [] = []
by_time (x ∷ xs) = insert_time x (by_time xs)

unfoldable pub greatest_gap : List ℕ → ℕ
greatest_gap [] = 0
greatest_gap (x ∷ []) = 0
greatest_gap (x ∷ y ∷ ys) = max (y - x) (greatest_gap (y ∷ ys))

abbrev is_kind : Violation → Violation → Bool
is_kind signature_failure signature_failure = true
is_kind replay_attempt replay_attempt = true
is_kind rate_limit_hit rate_limit_hit = true
is_kind _ _ = false

-- `events.filter(e => e.type === kind).length`
abbrev pub count_kind : Violation → List ProtocolEvent → ℕ
count_kind kind events = length (filter (λ (e : ProtocolEvent). is_kind e.kind kind) events)

-- The entry without what is older than the window.
abbrev pub pruned : ℕ → ℕ → Entry → Entry
pruned window now entry = record entry {
  tasks = prune_window task_time window now entry.tasks;
  protocol_events = prune_window protocol_time window now entry.protocol_events;
  registrations = prune_window same_time window now entry.registrations;
  task_claims = prune_window same_time window now entry.task_claims;
  heartbeats = prune_window same_time window now entry.heartbeats;
}

abbrev pub stats_of : ℕ → ℕ → Entry → AgentBehaviorStats
stats_of window now entry =
    let tasks = entry.tasks in
    let total = length tasks in
    let successes = length (filter (λ (e : TaskEvent). e.is_ok) tasks) in
    let durations = map (λ (e : TaskEvent). e.duration_ms) tasks in
    record {
      total_tasks = total;
      success_count = successes;
      success_rate = mean_or (whole 1) successes total;
      empty_output_count = length (filter (λ (e : TaskEvent). e.output_length == 0) tasks);
      identical_output_count = identical_outputs tasks;
      recent_output_hashes =
          map (λ (e : TaskEvent). e.output_hash) (drop (total - output_hash_ring_size) tasks);
      avg_output_length =
          mean_or (whole 0) (sum_by (λ (e : TaskEvent). e.output_length) tasks) total;
      avg_duration_ms = mean_or (whole 0) (sum_by same_time durations) total;
      min_duration_ms = least durations;
      duration_variance = variance_of durations;
      suspiciously_fast_count = length (filter (λ (e : TaskEvent). ltb e.duration_ms 500) tasks);
      signature_failure_count = count_kind signature_failure entry.protocol_events;
      replay_attempt_count = count_kind replay_attempt entry.protocol_events;
      rate_limit_hit_count = count_kind rate_limit_hit entry.protocol_events;
      registration_count = length entry.registrations;
      task_claim_count = length entry.task_claims;
      task_claim_rate = mean_or (whole 0) (length entry.task_claims * 1000) window;
      requeue_count = entry.requeue_count;
      concurrent_claim_count = entry.concurrent_claim_count;
      heartbeat_gap_max_ms = greatest_gap (by_time entry.heartbeats);
      window_start_ms = now - window;
      window_end_ms = now;
    }

unfoldable pub get_stats :
    Ident → ℕ → AgentBehaviorTracker → AgentBehaviorTracker × Option AgentBehaviorStats
get_stats agent_id now t = elim (lookup agent_id t.agents) [
  | none ↦ (t, none)
  | some entry ↦
      let kept = pruned t.window_ms now entry in
      (update agent_id kept t, some (stats_of t.window_ms now kept))
]
