-- ===== src/Security/Nonce.antt =====
-- src/security/nonce-verifier.ts: `verifyNonce` over the `InMemoryNonceStore`. The clock is an
-- argument; a call and what it awaits of this store run without another call in between.
use edgecoder.Prelude.{
  ℕ, refl, ap, ◌∙◌, Bool, true, false, ◌+◌, ◌-◌, ◌*◌, ◌≤◌, ◌<◌, ◌≡◌, ◌≢◌, ◌⊎◌, Option, some, List,
  [], ◌∷◌, Ident, if◌then◌else◌, arith, Bool-cases, ltb, Dict, lookup, insert, has, inl, inr,
  lookup-insert, or_else,
}
use native.Mathlib.Nat.{native_laws}

-- What `Number` makes of a text, or a time as it comes: a fraction `± num / (d + 1)`, an infinity, or
-- no number. Comparing with `NaN` gives false.
pub data JsNumber : Type 0 where
  nan infinity : JsNumber
  fraction : Bool → ℕ → ℕ → JsNumber

abbrev pub whole : ℕ → JsNumber
whole n = fraction false n 0

pub record NonceEntry : Type 0 where
  pub source_id : Ident
  pub expires_at_ms : ℕ

abbrev pub NonceStore : Type 0
NonceStore = Dict NonceEntry

pub record NonceCheckParams : Type 0 where
  pub nonce : Ident
  pub source_id : Ident
  pub timestamp_ms : JsNumber
  pub max_skew_ms : ℕ
  pub ttl_ms : Option ℕ

pub data NonceCheckResult : Type 0 where
  valid replay timestamp_skew : NonceCheckResult

-- 5 minutes.
abbrev default_ttl_ms : ℕ
default_ttl_ms = 5 * 60000

-- The distance of two numbers.
abbrev pub skew : ℕ → ℕ → ℕ
skew now timestamp = (now - timestamp) + (timestamp - now)

-- `Math.abs(now - timestampMs) > maxSkewMs`, multiplied by the denominator.
unfoldable pub exceeds : ℕ → ℕ → JsNumber → Bool
exceeds max_skew now nan = false
exceeds max_skew now infinity = true
exceeds max_skew now (fraction negative num d) =
    let den = d + 1 in
    if negative
    then ltb (max_skew * den) (now * den + num)
    else ltb (max_skew * den) (skew (now * den) num)

pub exceeds-whole :
    (max_skew now timestamp : ℕ)
    → skew now timestamp ≤ max_skew
    → exceeds max_skew now (whole timestamp) ≡ false
unfolding exceeds
exceeds-whole max_skew now timestamp near = ground arith

unfoldable pub verify_nonce : NonceCheckParams → ℕ → NonceStore → NonceStore × NonceCheckResult
verify_nonce params now store =
    if exceeds params.max_skew_ms now params.timestamp_ms
    then (store, timestamp_skew)
    else if has params.nonce store
    then (store, replay)
    else (
      insert params.nonce
          (record {
            source_id = params.source_id;
            expires_at_ms = now + or_else params.ttl_ms default_ttl_ms;
          })
          store,
      valid,
    )

unfoldable pub prune : ℕ → NonceStore → NonceStore
prune now [] = []
prune now ((nonce, entry) ∷ store) =
    let rest = prune now store in
    if ltb entry.expires_at_ms now then rest else (nonce, entry) ∷ rest

pub data Call : Type 0 where
  verifies : NonceCheckParams → ℕ → Call
  prunes : ℕ → Call

abbrev pub time : Call → ℕ
time (verifies params now) = now
time (prunes now) = now

unfoldable pub step : Call → NonceStore → NonceStore
step (verifies params now) store = (verify_nonce params now store).0
step (prunes now) store = prune now store

pub run : List Call → NonceStore → NonceStore
run [] store = store
run (c ∷ cs) store = run cs (step c store)

-- The clock does not run backwards, from `last` on and up to `end`.
abbrev pub InOrder : ℕ → List Call → ℕ → Type 0
InOrder last [] end = last ≤ end
InOrder last (c ∷ cs) end = (last ≤ time c) × InOrder (time c) cs end

-- The nonce is stored until the time, unless that has passed.
abbrev pub Kept : Ident → ℕ → ℕ → NonceStore → Type 0
Kept nonce until now store =
    (until < now)
    ⊎ ((entry : NonceEntry) × (lookup nonce store ≡ some entry) × (until ≤ entry.expires_at_ms))

lookup-prune :
    (now until : ℕ) (nonce : Ident) (entry : NonceEntry) (store : NonceStore)
    → lookup nonce store ≡ some entry
    → now ≤ entry.expires_at_ms
    → lookup nonce (prune now store) ≡ some entry
unfolding prune
lookup-prune now until nonce entry [] e h = cc
lookup-prune now until nonce entry ((n, x) ∷ store) e h =
    ground (arith, lookup-prune now until nonce entry store)

module _ (nonce : Ident) (until : ℕ) where
  pub step-Kept :
      (c : Call) (last : ℕ) (store : NonceStore)
      → last ≤ time c
      → Kept nonce until last store
      → Kept nonce until (time c) (step c store)
  unfolding step verify_nonce
  step-Kept c last store forward (inl h) = inl (omega arith)
  step-Kept (verifies params now) last store forward (inr (entry, e, h)) =
      let new : NonceEntry = record {
        source_id = params.source_id;
        expires_at_ms = now + or_else params.ttl_ms default_ttl_ms;
      } in
      inr (entry, ground (arith, lookup-insert params.nonce nonce new store), h)
  step-Kept (prunes now) last store forward (inr (entry, e, h)) =
      elim (Bool-cases (ltb until now)) [
        | inl late ↦ inl (ground arith)
        | inr early ↦ inr (entry, lookup-prune now until nonce entry store e (ground arith), h)
      ]

  run-Kept :
      (cs : List Call) (last end : ℕ) (store : NonceStore)
      → InOrder last cs end
      → Kept nonce until last store
      → Kept nonce until end (run cs store)
  unfolding run
  run-Kept [] last end store order (inl h) = inl (omega arith)
  run-Kept [] last end store order (inr h) = inr h
  run-Kept (c ∷ cs) last end store order k =
      run-Kept cs (time c) end (step c store) order.1 (step-Kept c last store order.0 k)

pub accepted_stored :
    (params : NonceCheckParams) (now : ℕ) (store : NonceStore)
    → (verify_nonce params now store).1 ≡ valid
    → lookup params.nonce (verify_nonce params now store).0
      ≡ some (record {
        source_id = params.source_id;
        expires_at_ms = now + or_else params.ttl_ms default_ttl_ms;
      })
unfolding verify_nonce
accepted_stored params now store e =
    let new : NonceEntry = record {
      source_id = params.source_id;
      expires_at_ms = now + or_else params.ttl_ms default_ttl_ms;
    } in
    ground (arith, lookup-insert params.nonce params.nonce new store)

pub accepted_near :
    (params : NonceCheckParams) (now : ℕ) (store : NonceStore)
    → (verify_nonce params now store).1 ≡ valid
    → exceeds params.max_skew_ms now params.timestamp_ms ≡ false
unfolding verify_nonce
accepted_near params now store e = ground arith

-- A time that is more than `ttl` later, and `ttl` at least twice the skew, in parts of `den`.
scaled_later :
    (max_skew ttl now later den : ℕ)
    → 0 < den
    → 2 * max_skew ≤ ttl
    → now + ttl < later
    → now * den + 2 * (max_skew * den) < later * den
scaled_later max_skew ttl now later den pos long late =
    let sooner : now + 2 * max_skew < later = omega arith in
    let scaled =
      native_laws.mul-lt-mul_of_pos_right {m = now + 2 * max_skew} {n = later} {k = den} sooner
        pos in
    let split : (now + 2 * max_skew) * den ≡ now * den + 2 * (max_skew * den) =
      native_laws.add-mul now (2 * max_skew) den
      ∙ ap (λ x. now * den + x) (native_laws.mul_assoc 2 max_skew den) in
    rw (← split) scaled

-- What was near and is a number is too far off later.
exceeds-later :
    (max_skew ttl now later : ℕ) (timestamp : JsNumber)
    → timestamp ≢ nan
    → 2 * max_skew ≤ ttl
    → now + ttl < later
    → exceeds max_skew now timestamp ≡ false
    → exceeds max_skew later timestamp ≡ true
unfolding exceeds
exceeds-later max_skew ttl now later nan number long late near = absurd (number refl)
exceeds-later max_skew ttl now later infinity number long late near = refl
exceeds-later max_skew ttl now later (fraction true num d) number long late near =
    let far = scaled_later max_skew ttl now later (d + 1) (omega arith) long late in
    ground (arith, far)
exceeds-later max_skew ttl now later (fraction false num d) number long late near =
    let far = scaled_later max_skew ttl now later (d + 1) (omega arith) long late in
    ground (arith, far)

pub still_refused :
    (params : NonceCheckParams) (now later : ℕ) (store : NonceStore)
    → params.timestamp_ms ≢ nan
    → 2 * params.max_skew_ms ≤ or_else params.ttl_ms default_ttl_ms
    → exceeds params.max_skew_ms now params.timestamp_ms ≡ false
    → Kept params.nonce (now + or_else params.ttl_ms default_ttl_ms) later store
    → (verify_nonce params later store).1 ≢ valid
unfolding verify_nonce
still_refused params now later store number long near (inl late) =
    let far =
      exceeds-later params.max_skew_ms (or_else params.ttl_ms default_ttl_ms) now later
        params.timestamp_ms number long late near in
    ground (arith, far)
still_refused params now later store number long near (inr (entry, e, h)) = ground arith

-- A message that was accepted, and whose timestamp is a number, is never accepted again, whatever is
-- verified and pruned in between, if entries are kept for at least twice the skew that is allowed:
-- while its nonce is stored it is a replay, and once its nonce is pruned its timestamp is too old.
-- The clock does not run backwards.
pub never_accepted_twice :
    (params : NonceCheckParams) (now later : ℕ) (store : NonceStore) (cs : List Call)
    → params.timestamp_ms ≢ nan
    → 2 * params.max_skew_ms ≤ or_else params.ttl_ms default_ttl_ms
    → InOrder now cs later
    → (verify_nonce params now store).1 ≡ valid
    → (verify_nonce params later (run cs (verify_nonce params now store).0)).1 ≢ valid
never_accepted_twice params now later store cs number long order e e' =
    let until = now + or_else params.ttl_ms default_ttl_ms in
    let new : NonceEntry = record { source_id = params.source_id; expires_at_ms = until } in
    let stored = accepted_stored params now store e in
    let k =
      run-Kept params.nonce until cs now later (verify_nonce params now store).0 order
        (inr (new, stored, omega arith)) in
    still_refused params now later (run cs (verify_nonce params now store).0) number long
      (accepted_near params now store e) k e'
