-- ===== src/Security/BehaviorTracker/Counts.antt =====
-- src/security/behavior-tracker.ts: the protocol violations that the figures of an agent count.
use edgecoder.Prelude.{
  ℕ, ◌≡◌, inl, inr, sym, ap, ◌∙◌, Option, some, some-injective, List, Ident, or_else, lookup,
  Option-cases,
}
use edgecoder.Security.Behavior.{AgentBehaviorStats}
use edgecoder.Security.BehaviorTracker.{
  signature_failure, replay_attempt, rate_limit_hit, AgentBehaviorTracker, protocol_time,
  prune_window, new_tracker, default_window_ms,
}
use edgecoder.Security.BehaviorTracker.Stats.{get_stats, count_kind, pruned, stats_of}
use edgecoder.Security.BehaviorTracker.Calls.{Call, run, violations_of, AllNotAfter}
use edgecoder.Security.BehaviorTracker.Window.{recent_violations, run-recent}

-- The violations that the figures count are those that the tracker holds in the window.
get_stats-counts :
    (agent : Ident) (now : ℕ) (t : AgentBehaviorTracker) (stats : AgentBehaviorStats)
    → (get_stats agent now t).1 ≡ some stats
    → (stats.signature_failure_count ≡ count_kind signature_failure (recent_violations agent now t))
      × (stats.replay_attempt_count ≡ count_kind replay_attempt (recent_violations agent now t))
      × (stats.rate_limit_hit_count ≡ count_kind rate_limit_hit (recent_violations agent now t))
unfolding get_stats
get_stats-counts agent now t stats h = elim (Option-cases (lookup agent t.agents)) [
  | inl e ↦ cc
  | inr (entry, e) ↦
      let q : stats_of t.window_ms now (pruned t.window_ms now entry) ≡ stats =
        some-injective _ stats (rw (get_stats, e) at h) in
      rw e (
        ap (λ (s : AgentBehaviorStats). s.signature_failure_count) (sym q),
        ap (λ (s : AgentBehaviorStats). s.replay_attempt_count) (sym q),
        ap (λ (s : AgentBehaviorStats). s.rate_limit_hit_count) (sym q),
      )
]

module _ {Output : Type 0} (hash_output : Output → Ident) (output_length : Output → ℕ) where
  -- After any history of calls of a new tracker, none later than the time of the question, the
  -- figures of an agent count all of its signature failures, replays and rate-limit hits in the
  -- history that are in the window, and no others.
  pub violations_counted :
      (window : Option ℕ) (cs : List (Call Output)) (agent : Ident) (now : ℕ)
      (stats : AgentBehaviorStats)
      → AllNotAfter now cs
      → (get_stats agent now (run hash_output output_length cs (new_tracker window))).1 ≡ some stats
      → (stats.signature_failure_count
          ≡ count_kind signature_failure (
              prune_window protocol_time
                (or_else window default_window_ms)
                now
                (violations_of agent cs)))
        × (stats.replay_attempt_count
            ≡ count_kind replay_attempt (
                prune_window protocol_time
                  (or_else window default_window_ms)
                  now
                  (violations_of agent cs)))
        × (stats.rate_limit_hit_count
            ≡ count_kind rate_limit_hit (
                prune_window protocol_time
                  (or_else window default_window_ms)
                  now
                  (violations_of agent cs)))
  violations_counted window cs agent now stats order h =
      let start = new_tracker window in
      let t = run hash_output output_length cs start in
      let (s, r, l) = get_stats-counts agent now t stats h in
      let q = run-recent hash_output output_length agent now cs start order in
      (
        s ∙ ap (count_kind signature_failure) q,
        r ∙ ap (count_kind replay_attempt) q,
        l ∙ ap (count_kind rate_limit_hit) q,
      )
