-- ===== src/Security/RateLimiter/Limit.antt =====
-- src/security/agent-rate-limiter.ts: how many calls are admitted in a window.
use edgecoder.Prelude.{
  ℕ, ◌+◌, ◌≤◌, ◌≡◌, ◌≢◌, refl, Bool, true, false, ◌&&◌, List, [], ◌∷◌, ◌++◌, Ident, ◌==◌,
  if◌then◌else◌, arith, Bool-cases, leb, length, lookup, or_else, inl, inr, lookup-insert, filter,
  append-nil, append_assoc, ==_refl, ◌∙◌,
}
use edgecoder.Security.RateLimiter.{RateLimitConfig, AgentRateLimiter, evict, check, fresh_limiter}

abbrev pub count : (ℕ → Bool) → List ℕ → ℕ
count p ts = length (filter p ts)

abbrev pub run : List (Ident × ℕ) → AgentRateLimiter → AgentRateLimiter
run [] l = l
run ((agent_id, now) ∷ calls) l = run calls (check agent_id now l).0

-- The times at which a history of calls admitted the agent.
pub admitted : Ident → List (Ident × ℕ) → AgentRateLimiter → List ℕ
admitted a [] l = []
admitted a ((agent_id, now) ∷ calls) l =
    let rest = admitted a calls (check agent_id now l).0 in
    if agent_id == a && (check agent_id now l).1 then now ∷ rest else rest

-- The clock does not run backwards.
abbrev pub InOrder : ℕ → List (Ident × ℕ) → Type 0
InOrder last [] = Unit
InOrder last ((agent_id, now) ∷ calls) = (last ≤ now) × InOrder now calls

abbrev since : ℕ → ℕ → Bool
since t x = leb t x

abbrev pub between : ℕ → ℕ → ℕ → Bool
between t window x = leb t x && leb x (t + window)

-- Eviction drops nothing that a window which reaches up to now still holds.
count-evict :
    (window now t : ℕ) (ts : List ℕ)
    → now ≤ t + window
    → count (since t) (evict window now ts) ≡ count (since t) ts
unfolding evict
count-evict window now t [] h = refl
count-evict window now t (x ∷ ts) h = ground (arith, count-evict window now t ts h)

count-append-one :
    (p : ℕ → Bool) (ts : List ℕ) (x : ℕ)
    → count p (ts ++ x ∷ []) ≡ count p ts + (if p x then 1 else 0)
count-append-one p [] x = ground arith
count-append-one p (y ∷ ts) x = ground (arith, count-append-one p ts x)

count-le-length : (p : ℕ → Bool) (ts : List ℕ) → count p ts ≤ length ts
count-le-length p [] = omega arith
count-le-length p (x ∷ ts) = ground (arith, count-le-length p ts)

count-between-le : (t window : ℕ) (ts : List ℕ) → count (between t window) ts ≤ count (since t) ts
count-between-le t window [] = omega arith
count-between-le t window (x ∷ ts) = ground (arith, count-between-le t window ts)

-- `past` are the times admitted so far, `kept` what is stored of them, `last` the latest call.
record Tracks (max_requests window last : ℕ) (past kept : List ℕ) : Type 0 where
  pub recent : (t : ℕ) → last ≤ t + window → count (since t) past ≤ count (since t) kept
  pub limited : (t : ℕ) → count (between t window) past ≤ max_requests

module _ (m window last now : ℕ) (past kept : List ℕ) (h : Tracks m window last past kept)
    (forward : last ≤ now) where
  Tracks-refused : Tracks m window now past (evict window now kept)
  Tracks-refused = record {
    recent = λ t r. omega (arith, h.recent t (omega arith), count-evict window now t kept r);
    limited = h.limited;
  }

  Tracks-admitted :
      leb m (length (evict window now kept)) ≡ false
      → Tracks m window now (past ++ now ∷ []) (evict window now kept ++ now ∷ [])
  Tracks-admitted room = record {
    recent = λ t r. omega (
      arith,
      h.recent t (omega arith),
      count-evict window now t kept r,
      count-append-one (since t) past now,
      count-append-one (since t) (evict window now kept) now,
    );
    limited = λ t. elim (Bool-cases (between t window now)) [
      | inl inside ↦
          let r : now ≤ t + window = ground arith in
          ground (
            arith,
            h.recent t (omega arith),
            count-evict window now t kept r,
            count-append-one (between t window) past now,
            count-between-le t window past,
            count-le-length (since t) (evict window now kept),
          )
      | inr outside ↦ ground (arith, h.limited t, count-append-one (between t window) past now)
    ];
  }

abbrev stored : Ident → AgentRateLimiter → List ℕ
stored a l = or_else (lookup a l.windows) []

check-config : (b : Ident) (now : ℕ) (l : AgentRateLimiter) → (check b now l).0.config ≡ l.config
unfolding check
check-config b now l = ground arith

check_other :
    (a b : Ident) (now : ℕ) (l : AgentRateLimiter) → b ≢ a → stored a (check b now l).0 ≡ stored a l
unfolding check
check_other a b now l ne =
    let kept = evict l.config.window_ms now (stored b l) in
    ground (arith, lookup-insert b a kept l.windows, lookup-insert b a (kept ++ now ∷ []) l.windows)

-- What a call of `check` answers, and what it stores.
check_self :
    (a : Ident) (now : ℕ) (l : AgentRateLimiter)
    → let kept = evict l.config.window_ms now (stored a l) in
      ((check a now l).1 ≡ (if leb l.config.max_requests (length kept) then false else true))
      × (stored a (check a now l).0
          ≡ (if leb l.config.max_requests (length kept) then kept else kept ++ now ∷ []))
unfolding check
check_self a now l =
    let kept = evict l.config.window_ms now (stored a l) in
    (
      ground arith,
      ground
          (arith, lookup-insert a a kept l.windows, lookup-insert a a (kept ++ now ∷ []) l.windows),
    )

Tracks-later :
    (m window last now : ℕ) (past kept : List ℕ)
    → last ≤ now
    → Tracks m window last past kept
    → Tracks m window now past kept
Tracks-later m window last now past kept forward h = record {
  recent = λ t r. h.recent t (omega arith);
  limited = h.limited;
}

module _ (a : Ident) (m window : ℕ) where
  -- The times admitted so far, with that of the call if the call admits the agent.
  abbrev with_call : Ident → ℕ → AgentRateLimiter → List ℕ → List ℕ
  with_call b now l past = if b == a && (check b now l).1 then past ++ now ∷ [] else past

  self-Tracks :
      (now : ℕ) (l : AgentRateLimiter) (last : ℕ) (past : List ℕ)
      → l.config ≡ record { max_requests = m; window_ms = window }
      → Tracks m window last past (stored a l)
      → last ≤ now
      → Tracks m window now
          (if (check a now l).1 then past ++ now ∷ [] else past)
          (stored a (check a now l).0)
  self-Tracks now l last past e h forward =
      let kept = evict window now (stored a l) in
      let (answer, after) = check_self a now l in
      elim (Bool-cases (leb m (length kept))) [
        | inl full ↦
            rw (answer, after, e, full)
              (Tracks-refused m window last now past (stored a l) h forward)
        | inr room ↦
            rw (answer, after, e, room)
              (Tracks-admitted m window last now past (stored a l) h forward room)
      ]

  call-Tracks :
      (b now : ℕ) (l : AgentRateLimiter) (last : ℕ) (past : List ℕ)
      → l.config ≡ record { max_requests = m; window_ms = window }
      → Tracks m window last past (stored a l)
      → last ≤ now
      → Tracks m window now (with_call b now l past) (stored a (check b now l).0)
  call-Tracks b now l last past e h forward = elim (Bool-cases (b == a)) [
    | inl same ↦
        let p : b ≡ a = ground arith in rw (p, ==_refl) (self-Tracks now l last past e h forward)
    | inr other ↦
        rw (other, check_other a b now l (ground arith))
          (Tracks-later m window last now past (stored a l) forward h)
  ]

  run-limited :
      (calls : List (Ident × ℕ)) (l : AgentRateLimiter) (last : ℕ) (past : List ℕ) (t : ℕ)
      → l.config ≡ record { max_requests = m; window_ms = window }
      → Tracks m window last past (stored a l)
      → InOrder last calls
      → count (between t window) (past ++ admitted a calls l) ≤ m
  unfolding admitted
  run-limited [] l last past t e h order = rw append-nil (h.limited t)
  run-limited ((b, now) ∷ calls) l last past t e h order =
      let l' = (check b now l).0 in
      let ih =
        run-limited calls l' now (with_call b now l past) t (check-config b now l ∙ e)
          (call-Tracks b now l last past e h order.0) order.1 in
      elim (Bool-cases (b == a && (check b now l).1)) [
        | inl yes_ ↦ rw yes_ (rw (yes_, append_assoc past (now ∷ []) (admitted a calls l')) at ih)
        | inr no_ ↦ rw no_ (rw no_ at ih)
      ]

-- Over any history of checks of a new limiter by a clock that does not run backwards, each agent is
-- admitted at most `maxRequests` times in every interval as long as the window, wherever it begins
-- and whatever other agents do.
pub admitted_limited :
    (config : RateLimitConfig) (a : Ident) (calls : List (Ident × ℕ)) (t : ℕ)
    → InOrder 0 calls
    → count (between t config.window_ms) (admitted a calls (fresh_limiter config))
      ≤ config.max_requests
admitted_limited config a calls t order =
    run-limited a config.max_requests config.window_ms calls (fresh_limiter config) 0 [] t refl
      (record { recent = λ u r. omega arith; limited = λ u. omega arith }) order
