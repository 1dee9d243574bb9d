-- ===== src/Security/AutoBlacklister/Strikes.antt =====
-- src/security/auto-blacklister.ts: when an agent is blacklisted, and the strikes that stay.
use edgecoder.Prelude.{
  ℕ, ◌+◌, ◌≤◌, ◌<◌, ◌≡◌, ◌≢◌, ◌↔◌, ◌⊎◌, inl, inr, refl, true, false, Option, List, [], ◌∷◌, ◌∙◌,
  length-filter-le, ◌++◌, map, Ident, arith, Bool-cases, Option-cases, leb, ◌==◌, is_some, length,
  find, any, or_else, Dict, lookup, insert, erase, Entries, Entries-insert, lookup-insert,
  lookup-erase, length-append, Entries-lookup,
}
use edgecoder.Security.AnomalyDetector.{AnomalyEvent}
use edgecoder.Security.AnomalyDetector.Verdicts.{is_critical}
use edgecoder.Security.AutoBlacklister.{
  AutoBlacklister, init, default_strike_threshold, Strike, recent_strikes, get_strike_count,
  strike_at, event_of, is_recent, build_blacklist_action, add_strikes, process_anomalies,
}
use edgecoder.Security.AutoBlacklister.Primary.{build-is_some}

find-any : (events : List AnomalyEvent) → is_some (find is_critical events) ≡ any is_critical events
find-any [] = refl
find-any (x ∷ events) = ground (arith, find-any events)

length-map :
    (now : ℕ) (events : List AnomalyEvent) → length (map (strike_at now) events) ≡ length events
length-map now [] = refl
length-map now (x ∷ events) = omega (arith, length-map now events)

length-recent_strikes :
    (agent_id : Ident) (now : ℕ) (b : AutoBlacklister)
    → length (recent_strikes agent_id now b) ≡ get_strike_count agent_id now b
unfolding get_strike_count
length-recent_strikes agent_id now b = elim (Option-cases (lookup agent_id b.strikes)) [
  | inl e ↦ rw (get_strike_count, e) refl
  | inr (s, e) ↦ rw (get_strike_count, e) refl
]

module _ (sha256_json : List AnomalyEvent → Ident) where
  build-map :
      (agent_id : Ident) (strikes : List Strike)
      → 0 < length strikes
      → is_some (build_blacklist_action sha256_json agent_id (map event_of strikes)) ≡ true
  build-map agent_id [] h = ground arith
  build-map agent_id (s ∷ strikes) h =
      build-is_some sha256_json agent_id (event_of s) (map event_of strikes)

  add_strikes_iff :
      (agent_id : Ident) (x : AnomalyEvent) (xs : List AnomalyEvent) (now : ℕ) (b : AutoBlacklister)
      → (is_some (add_strikes sha256_json agent_id (x ∷ xs) now b).1 ≡ true)
        ↔ (b.strike_threshold ≤ get_strike_count agent_id now b + length (x ∷ xs))
  unfolding add_strikes
  add_strikes_iff agent_id x xs now b =
      let recent = recent_strikes agent_id now b in
      let strikes = recent ++ map (strike_at now) (x ∷ xs) in
      let n : length strikes ≡ get_strike_count agent_id now b + length (x ∷ xs) = omega (
        arith,
        length-append recent (map (strike_at now) (x ∷ xs)),
        length-map now (x ∷ xs),
        length-recent_strikes agent_id now b,
      ) in
      ground (arith, n, build-map agent_id strikes (omega (arith, n)))

  -- An agent is blacklisted exactly when one of its anomalies is critical, or there are anomalies
  -- and together with its strikes that are not too old they reach the threshold.
  pub blacklists_iff :
      (agent_id : Ident) (anomalies : List AnomalyEvent) (now : ℕ) (b : AutoBlacklister)
      → (is_some (process_anomalies sha256_json agent_id anomalies now b).1 ≡ true) ↔ (
          (any is_critical anomalies ≡ true)
          ⊎ ((0 < length anomalies)
              × (b.strike_threshold ≤ get_strike_count agent_id now b + length anomalies)))
  unfolding process_anomalies
  blacklists_iff agent_id [] now b = ground arith
  blacklists_iff agent_id (x ∷ xs) now b = elim (Option-cases (find is_critical (x ∷ xs))) [
    | inl e ↦ ground (arith, find-any (x ∷ xs), add_strikes_iff agent_id x xs now b)
    | inr (a, e) ↦ ground (arith, find-any (x ∷ xs), build-is_some sha256_json agent_id x xs)
  ]

  -- Anomalies of one agent leave the strikes of every other agent as they are.
  pub other_agents_unaffected :
      (agent_id other : Ident) (anomalies : List AnomalyEvent) (now later : ℕ) (b : AutoBlacklister)
      → agent_id ≢ other
      → get_strike_count other later (process_anomalies sha256_json agent_id anomalies now b).0
        ≡ get_strike_count other later b
  unfolding process_anomalies add_strikes get_strike_count
  other_agents_unaffected agent_id other [] now later b h = refl
  other_agents_unaffected agent_id other (x ∷ xs) now later b h =
      let strikes = recent_strikes agent_id now b ++ map (strike_at now) (x ∷ xs) in
      let i = lookup-insert agent_id other strikes b.strikes in
      let d = lookup-erase agent_id other (insert agent_id strikes b.strikes) in
      ground (arith, i, d)

-- A history of anomalies: the agent, what was found, and the time.
abbrev Reports : Type 0
Reports = List (Ident × List AnomalyEvent × ℕ)

module _ (sha256_json : List AnomalyEvent → Ident) where
  unfoldable pub run : Reports → AutoBlacklister → AutoBlacklister
  run [] b = b
  run ((agent_id, anomalies, now) ∷ reports) b =
      run reports (process_anomalies sha256_json agent_id anomalies now b).0

-- Every agent has fewer strikes on record than the threshold.
abbrev Below : AutoBlacklister → Type 0
Below b = Entries (λ (k : ℕ) (s : List Strike). length s < b.strike_threshold) b.strikes

erase-Entries :
    (n : ℕ) (k : Ident) (d : Dict (List Strike))
    → Entries (λ (j : ℕ) (r : List Strike). length r < n) d
    → Entries (λ (j : ℕ) (r : List Strike). length r < n) (erase k d)
erase-Entries n k [] h = tt
erase-Entries n k ((j, r) ∷ d) h = ground (arith, erase-Entries n k d h.1)

erase-insert-Entries :
    (n : ℕ) (k : Ident) (s : List Strike) (d : Dict (List Strike))
    → Entries (λ (j : ℕ) (r : List Strike). length r < n) d
    → Entries (λ (j : ℕ) (r : List Strike). length r < n) (erase k (insert k s d))
erase-insert-Entries n k s [] h = ground arith
erase-insert-Entries n k s ((j, r) ∷ d) h =
    ground (arith, erase-insert-Entries n k s d h.1, erase-Entries n k d h.1)

module _ (sha256_json : List AnomalyEvent → Ident) where
  add_strikes-Below :
      (agent_id : Ident) (anomalies : List AnomalyEvent) (now : ℕ) (b : AutoBlacklister)
      → Below b
      → Below (add_strikes sha256_json agent_id anomalies now b).0
  unfolding add_strikes
  add_strikes-Below agent_id anomalies now b h =
      let strikes = recent_strikes agent_id now b ++ map (strike_at now) anomalies in
      let P = λ (k : ℕ) (s : List Strike). length s < b.strike_threshold in
      elim (Bool-cases (leb b.strike_threshold (length strikes))) [
        | inl e ↦ rw e (erase-insert-Entries b.strike_threshold agent_id strikes b.strikes h)
        | inr e ↦ rw e (Entries-insert P agent_id strikes b.strikes h (ground arith))
      ]

  process-Below :
      (agent_id : Ident) (anomalies : List AnomalyEvent) (now : ℕ) (b : AutoBlacklister)
      → Below b
      → Below (process_anomalies sha256_json agent_id anomalies now b).0
  unfolding process_anomalies
  process-Below agent_id [] now b h = h
  process-Below agent_id (x ∷ xs) now b h =
      let z : (length (x ∷ xs) == 0) ≡ false = ground arith in
      elim (Option-cases (find is_critical (x ∷ xs))) [
        | inl e ↦ rw (process_anomalies, z, e) (add_strikes-Below agent_id (x ∷ xs) now b h)
        | inr (a, e) ↦ rw (process_anomalies, z, e) h
      ]

  process-threshold :
      (agent_id : Ident) (anomalies : List AnomalyEvent) (now : ℕ) (b : AutoBlacklister)
      → (process_anomalies sha256_json agent_id anomalies now b).0.strike_threshold
        ≡ b.strike_threshold
  unfolding process_anomalies add_strikes
  process-threshold agent_id anomalies now b = ground arith

  run-threshold :
      (reports : Reports) (b : AutoBlacklister)
      → (run sha256_json reports b).strike_threshold ≡ b.strike_threshold
  unfolding run
  run-threshold [] b = refl
  run-threshold ((agent_id, anomalies, now) ∷ reports) b =
      run-threshold reports (process_anomalies sha256_json agent_id anomalies now b).0
      ∙ process-threshold agent_id anomalies now b

  run-Below :
      (reports : Reports) (b : AutoBlacklister) → Below b → Below (run sha256_json reports b)
  unfolding run
  run-Below [] b h = h
  run-Below ((agent_id, anomalies, now) ∷ reports) b h =
      run-Below reports (process_anomalies sha256_json agent_id anomalies now b).0
        (process-Below agent_id anomalies now b h)

get_strike_count-Below :
    (agent_id : Ident) (now : ℕ) (b : AutoBlacklister)
    → 0 < b.strike_threshold
    → Below b
    → get_strike_count agent_id now b < b.strike_threshold
unfolding get_strike_count
get_strike_count-Below agent_id now b h below = elim (Option-cases (lookup agent_id b.strikes)) [
  | inl e ↦ rw (get_strike_count, e) h
  | inr (s, e) ↦
      let P = λ (k : ℕ) (r : List Strike). length r < b.strike_threshold in
      let l = Entries-lookup P agent_id s b.strikes below e in
      let f = length-filter-le (is_recent b.strike_window_ms now) s in
      rw (get_strike_count, e) (omega (arith, l, f))
]

-- After any history of anomalies from a new blacklister, no agent that is asked about at any time
-- has as many strikes as the threshold, which is at least 1: who reaches it was blacklisted.
pub strikes_below_threshold :
    (sha256_json : List AnomalyEvent → Ident) (window threshold : Option ℕ) (reports : Reports)
    (agent_id : Ident) (now : ℕ)
    → 0 < or_else threshold default_strike_threshold
    → get_strike_count agent_id now (run sha256_json reports (init window threshold))
      < or_else threshold default_strike_threshold
unfolding init
strikes_below_threshold sha256_json window threshold reports agent_id now h =
    let last = run sha256_json reports (init window threshold) in
    let t : last.strike_threshold ≡ or_else threshold default_strike_threshold =
      run-threshold sha256_json reports (init window threshold) in
    let below = run-Below sha256_json reports (init window threshold) tt in
    let c = get_strike_count-Below agent_id now last (omega (arith, t, h)) below in
    omega (arith, t, c)
