-- ===== src/Security/BehaviorTracker/Window.antt =====
-- src/security/behavior-tracker.ts: what is held of all that was recorded.
use edgecoder.Prelude.{
  ℕ, ◌+◌, ◌≤◌, ◌≡◌, inl, inr, refl, sym, ap, ◌∙◌, List, [], ◌∷◌, ◌++◌, append-nil, append_assoc,
  arith, ◌==◌, if◌then◌else◌, Ident, lookup, lookup-insert, Bool-cases, Option-cases, ==→eq,
}
use edgecoder.Security.BehaviorTracker.{
  ProtocolEvent, Entry, AgentBehaviorTracker, entry_of, protocol_time, task_time, same_time,
  TaskEvent, prune_window, update, record_task_result, record_heartbeat, record_registration,
  record_protocol_violation, record_task_claim, record_requeue, set_concurrent_claim_count,
}
use edgecoder.Security.BehaviorTracker.Stats.{get_stats, pruned}
use edgecoder.Security.BehaviorTracker.Calls.{
  Call, results, heartbeats, registers, claims, violates, requeues, counts, asks, step, run,
  violation_of, violations_of, NotAfter, AllNotAfter,
}

module _ {A : Type 0} (time : A → ℕ) (window : ℕ) where
  -- To drop what is too old twice is to drop it at the later time.
  prune_window_twice :
      (earlier now : ℕ) (xs : List A)
      → earlier ≤ now
      → prune_window time window now (prune_window time window earlier xs)
        ≡ prune_window time window now xs
  prune_window_twice earlier now [] h = refl
  prune_window_twice earlier now (x ∷ xs) h = ground (arith, prune_window_twice earlier now xs h)

  prune_window-append :
      (now : ℕ) (xs ys : List A)
      → prune_window time window now (xs ++ ys)
        ≡ prune_window time window now xs ++ prune_window time window now ys
  prune_window-append now [] ys = refl
  prune_window-append now (x ∷ xs) ys = ground (arith, prune_window-append now xs ys)

-- What a tracker holds of an agent's violations that are in the window at a time.
abbrev pub recent_violations : Ident → ℕ → AgentBehaviorTracker → List ProtocolEvent
recent_violations agent end t =
    prune_window protocol_time t.window_ms end (entry_of agent t).protocol_events

module _ (agent a : Ident) (end : ℕ) (e : Entry) (t : AgentBehaviorTracker) where
  entry_of-update : entry_of agent (update a e t) ≡ (if a == agent then e else entry_of agent t)
  entry_of-update = ground (arith, lookup-insert a agent e t.agents)

  update-recent :
      (new : List ProtocolEvent)
      → prune_window protocol_time t.window_ms end e.protocol_events
        ≡ recent_violations a end t ++ prune_window protocol_time t.window_ms end new
      → recent_violations agent end (update a e t)
        ≡ recent_violations agent end t
          ++ prune_window protocol_time t.window_ms end (if a == agent then new else [])
  update-recent new q = elim (Bool-cases (a == agent)) [
    | inl h ↦ let same : a ≡ agent = ==→eq a agent h in rw (entry_of-update, h, ← same) q
    | inr h ↦ rw (entry_of-update, h) (sym (append-nil (recent_violations agent end t)))
  ]

  update-unchanged :
      prune_window protocol_time t.window_ms end e.protocol_events ≡ recent_violations a end t
      → recent_violations agent end (update a e t) ≡ recent_violations agent end t ++ []
  update-unchanged q = elim (Bool-cases (a == agent)) [
    | inl h ↦
        let same : a ≡ agent = ==→eq a agent h in
        rw (entry_of-update, h, ← same) (q ∙ sym (append-nil (recent_violations a end t)))
    | inr h ↦ rw (entry_of-update, h) (sym (append-nil (recent_violations agent end t)))
  ]

module _ {Output : Type 0} (hash_output : Output → Ident) (output_length : Output → ℕ) where
  step-window :
      (c : Call Output) (t : AgentBehaviorTracker)
      → (step hash_output output_length c t).window_ms ≡ t.window_ms
  unfolding record_task_result record_heartbeat record_registration record_task_claim
      record_protocol_violation record_requeue set_concurrent_claim_count get_stats
  step-window (results a good output duration now) t = refl
  step-window (heartbeats a now) t = refl
  step-window (registers a now) t = refl
  step-window (claims a now) t = refl
  step-window (violates a reason now) t = refl
  step-window (requeues a) t = refl
  step-window (counts a n) t = refl
  step-window (asks a now) t = ground arith

  step-recent :
      (agent : Ident) (end : ℕ) (c : Call Output) (t : AgentBehaviorTracker)
      → NotAfter end c
      → recent_violations agent end (step hash_output output_length c t)
        ≡ recent_violations agent end t
          ++ prune_window protocol_time t.window_ms end (violation_of agent c)
  unfolding record_task_result record_heartbeat record_registration record_task_claim
      record_protocol_violation record_requeue set_concurrent_claim_count get_stats
  step-recent agent end (results a good output duration now) t h =
      let old = entry_of a t in
      let event : TaskEvent = record {
        timestamp_ms = now;
        is_ok = good;
        output_hash = hash_output output;
        output_length = output_length output;
        duration_ms = duration;
      } in
      let tasks' = prune_window task_time t.window_ms now old.tasks ++ event ∷ [] in
      update-unchanged agent a end (record old { tasks = tasks' }) t refl
  step-recent agent end (heartbeats a now) t h =
      let old = entry_of a t in
      let beats = prune_window same_time t.window_ms now old.heartbeats ++ now ∷ [] in
      update-unchanged agent a end (record old { heartbeats = beats }) t refl
  step-recent agent end (registers a now) t h =
      let old = entry_of a t in
      let times = prune_window same_time t.window_ms now old.registrations ++ now ∷ [] in
      update-unchanged agent a end (record old { registrations = times }) t refl
  step-recent agent end (claims a now) t h =
      let old = entry_of a t in
      let times = prune_window same_time t.window_ms now old.task_claims ++ now ∷ [] in
      update-unchanged agent a end (record old { task_claims = times }) t refl
  step-recent agent end (violates a reason now) t h =
      let old = entry_of a t in
      let new : List ProtocolEvent = record { timestamp_ms = now; kind = reason } ∷ [] in
      let kept = prune_window protocol_time t.window_ms now old.protocol_events in
      update-recent agent a end (record old { protocol_events = kept ++ new }) t new
        (prune_window-append protocol_time t.window_ms end kept new
          ∙ ap (λ xs. xs ++ prune_window protocol_time t.window_ms end new)
              (prune_window_twice protocol_time t.window_ms now end old.protocol_events h))
  step-recent agent end (requeues a) t h =
      update-unchanged agent a end
        (record (entry_of a t) { requeue_count = (entry_of a t).requeue_count + 1 }) t refl
  step-recent agent end (counts a n) t h =
      update-unchanged agent a end (record (entry_of a t) { concurrent_claim_count = n }) t refl
  step-recent agent end (asks a now) t h = elim (Option-cases (lookup a t.agents)) [
    | inl e ↦ rw (step, get_stats, e) (sym (append-nil (recent_violations agent end t)))
    | inr (entry, e) ↦
        rw (step, get_stats, e)
          (update-unchanged agent a end (pruned t.window_ms now entry) t
            (rw e (prune_window_twice protocol_time t.window_ms now end entry.protocol_events h)))
  ]

  pub run-recent :
      (agent : Ident) (end : ℕ) (cs : List (Call Output)) (t : AgentBehaviorTracker)
      → AllNotAfter end cs
      → recent_violations agent end (run hash_output output_length cs t)
        ≡ recent_violations agent end t
          ++ prune_window protocol_time t.window_ms end (violations_of agent cs)
  unfolding run
  run-recent agent end [] t h = sym (append-nil (recent_violations agent end t))
  run-recent agent end (c ∷ cs) t h =
      let t' = step hash_output output_length c t in
      let w = step-window c t in
      let new = prune_window protocol_time t.window_ms end (violation_of agent c) in
      let rest = prune_window protocol_time t.window_ms end (violations_of agent cs) in
      run-recent agent end cs t' h.1
      ∙ ap (λ xs. xs ++ prune_window protocol_time t'.window_ms end (violations_of agent cs))
          (step-recent agent end c t h.0)
      ∙ ap
          (λ x.
            (recent_violations agent end t ++ new)
            ++ prune_window protocol_time x end (violations_of agent cs))
          w
      ∙ append_assoc (recent_violations agent end t) new rest
      ∙ ap (λ xs. recent_violations agent end t ++ xs)
          (sym (
            prune_window-append protocol_time t.window_ms end (violation_of agent c)
              (violations_of agent cs)))

  run-window :
      (cs : List (Call Output)) (t : AgentBehaviorTracker)
      → (run hash_output output_length cs t).window_ms ≡ t.window_ms
  unfolding run
  run-window [] t = refl
  run-window (c ∷ cs) t = run-window cs (step hash_output output_length c t) ∙ step-window c t
