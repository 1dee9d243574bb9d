-- ===== src/Mesh/Reconnection/Attempts.antt =====
-- src/mesh/ble/reconnection-manager.ts: how often a peer is tried, and when it is given up.
use edgecoder.Prelude.{
  ℕ, suc, ◌≡◌, ◌⊎◌, inl, inr, refl, not, Option, none, some, List, [], ◌∷◌, ltb, leb, ◌&&◌, ==→eq,
  ==_refl, lookup-insert_self, lookup-insert_ne, or_else, ap, ◌∙◌, ◌==◌, arith, Bool-cases,
  if◌then◌else◌, Ident, min, max, lookup, insert, lookup-erase,
}
use edgecoder.Mesh.Reconnection.{
  ReconnectionManager, ReconnectionState, Draw, init, default_attempts, get_or_create, tried,
  schedule_reconnect, record_success, reset_all, should_retry, get_attempt_count,
}

-- The calls that change the state.
pub data Call : Type 0 where
  schedules : Ident → Draw → Call
  succeeds : Ident → Call
  resets : Call

abbrev pub step : Call → ReconnectionManager → ReconnectionManager
step (schedules peer_id r) m = (schedule_reconnect peer_id r m).0
step (succeeds peer_id) m = record_success peer_id m
step resets m = reset_all m

unfoldable pub run : List Call → ReconnectionManager → ReconnectionManager
run [] m = m
run (c ∷ cs) m = run cs (step c m)

-- The reconnections that were asked for since the last success or reset, from a first number on.
abbrev pub asked : Ident → Call → ℕ → ℕ
asked peer (schedules peer_id r) n = if peer_id == peer then suc n else n
asked peer (succeeds peer_id) n = if peer_id == peer then 0 else n
asked peer resets n = 0

abbrev asked_since : Ident → List Call → ℕ → ℕ
asked_since peer [] n = n
asked_since peer (c ∷ cs) n = asked_since peer cs (asked peer c n)

-- The state of a peer for which `n` reconnections were asked for, of at most `most` attempts.
abbrev Counts : ℕ → ℕ → ReconnectionState → Type 0
Counts most n s =
    (s.max_attempts ≡ most)
    × (s.attempt ≡ min (max 1 most) n)
    × (s.gave_up ≡ (ltb 0 n && leb most n))

-- A peer that is not stored has not been asked for.
abbrev Tracks : Ident → ℕ → ReconnectionManager → Type 0
Tracks peer n m =
    ((n ≡ 0) × (lookup peer m.states ≡ none))
    ⊎ ((s : ReconnectionState) × (lookup peer m.states ≡ some s)
        × Counts m.default_max_attempts n s)

-- The state that scheduling leaves.
abbrev scheduled : Draw → ReconnectionManager → ReconnectionState → ReconnectionState
scheduled r m s = if s.gave_up then s else tried r m s

scheduled-Counts :
    (r : Draw) (m : ReconnectionManager) (s : ReconnectionState) (n : ℕ)
    → Counts m.default_max_attempts n s
    → Counts m.default_max_attempts (suc n) (scheduled r m s)
scheduled-Counts r m s n h = ground arith

schedule_reconnect-states :
    (peer : Ident) (r : Draw) (m : ReconnectionManager)
    → (schedule_reconnect peer r m).0
      ≡ record m { states = insert peer (scheduled r m (get_or_create peer m)) m.states }
unfolding schedule_reconnect
schedule_reconnect-states peer r m = ground arith

get_or_create-Counts :
    (peer : Ident) (n : ℕ) (m : ReconnectionManager)
    → Tracks peer n m
    → Counts m.default_max_attempts n (get_or_create peer m)
get_or_create-Counts peer n m (inl (z, e)) = ground arith
get_or_create-Counts peer n m (inr (s, e, h)) = rw e h

own-Tracks :
    (peer : Ident) (r : Draw) (n : ℕ) (m : ReconnectionManager)
    → Tracks peer n m
    → Tracks peer (asked peer (schedules peer r) n) (schedule_reconnect peer r m).0
own-Tracks peer r n m t =
    let s = scheduled r m (get_or_create peer m) in
    let q = schedule_reconnect-states peer r m in
    let l = lookup-insert_self peer s m.states in
    let h = scheduled-Counts r m (get_or_create peer m) n (get_or_create-Counts peer n m t) in
    rw (q, ==_refl peer) (inr (s, l, h))

schedule_reconnect-Tracks :
    (peer other : Ident) (r : Draw) (n : ℕ) (m : ReconnectionManager)
    → Tracks peer n m
    → Tracks peer (asked peer (schedules other r) n) (schedule_reconnect other r m).0
schedule_reconnect-Tracks peer other r n m t = elim (Bool-cases (other == peer)) [
  | inl e ↦ let same : other ≡ peer = ==→eq other peer e in rw same (own-Tracks peer r n m t)
  | inr e ↦
      let s = scheduled r m (get_or_create other m) in
      let q = schedule_reconnect-states other r m in
      let l = lookup-insert_ne other peer s m.states (ground arith) in rw (q, e, l) t
]

step-Tracks :
    (peer : Ident) (c : Call) (n : ℕ) (m : ReconnectionManager)
    → Tracks peer n m
    → Tracks peer (asked peer c n) (step c m)
unfolding record_success reset_all
step-Tracks peer (schedules other r) n m t = schedule_reconnect-Tracks peer other r n m t
step-Tracks peer (succeeds peer_id) n m t = ground (arith, lookup-erase peer_id peer m.states)
step-Tracks peer resets n m t = inl (refl, refl)

run-Tracks :
    (peer : Ident) (cs : List Call) (n : ℕ) (m : ReconnectionManager)
    → Tracks peer n m
    → Tracks peer (asked_since peer cs n) (run cs m)
unfolding run
run-Tracks peer [] n m t = t
run-Tracks peer (c ∷ cs) n m t =
    run-Tracks peer cs (asked peer c n) (step c m) (step-Tracks peer c n m t)

step-attempts :
    (c : Call) (m : ReconnectionManager) → (step c m).default_max_attempts ≡ m.default_max_attempts
unfolding schedule_reconnect record_success reset_all
step-attempts (schedules peer r) m = ground arith
step-attempts (succeeds peer) m = refl
step-attempts resets m = refl

run-attempts :
    (cs : List Call) (m : ReconnectionManager)
    → (run cs m).default_max_attempts ≡ m.default_max_attempts
unfolding run
run-attempts [] m = refl
run-attempts (c ∷ cs) m = run-attempts cs (step c m) ∙ step-attempts c m

Tracks-counts :
    (peer : Ident) (n : ℕ) (m : ReconnectionManager)
    → Tracks peer n m
    → (get_attempt_count peer m ≡ min (max 1 m.default_max_attempts) n)
      × (should_retry peer m ≡ not (ltb 0 n && leb m.default_max_attempts n))
unfolding get_attempt_count should_retry
Tracks-counts peer n m (inl (z, e)) = ground arith
Tracks-counts peer n m (inr (s, e, h)) = ground arith

tried_until : (n most : ℕ) → not (ltb 0 n && leb most n) ≡ ltb n (max 1 most)
tried_until n most = ground arith

-- After any history of calls from a new manager, a peer's attempts are the reconnections that were
-- asked for since its last success or the last reset, up to the greatest number (at least 1), and it
-- is tried again exactly as long as fewer were asked for.
pub attempts_counted :
    (base_delay max_delay attempts : Option ℕ) (peer : Ident) (cs : List Call)
    → (get_attempt_count peer (run cs (init base_delay max_delay attempts))
        ≡ min (max 1 (or_else attempts default_attempts)) (asked_since peer cs 0))
      × (should_retry peer (run cs (init base_delay max_delay attempts))
          ≡ ltb (asked_since peer cs 0) (max 1 (or_else attempts default_attempts)))
unfolding init
attempts_counted base_delay max_delay attempts peer cs =
    let start = init base_delay max_delay attempts in
    let n = asked_since peer cs 0 in
    let t = run-Tracks peer cs 0 start (inl (refl, refl)) in
    let (a, r) = Tracks-counts peer n (run cs start) t in
    let d : (run cs start).default_max_attempts ≡ or_else attempts default_attempts =
      run-attempts cs start in
    (
      a ∙ ap (λ x. min (max 1 x) n) d,
      r ∙ ap (λ x. not (ltb 0 n && leb x n)) d ∙ tried_until n (or_else attempts default_attempts),
    )
