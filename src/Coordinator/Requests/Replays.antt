-- ===== src/Coordinator/Requests/Replays.antt =====
-- src/swarm/coordinator.ts: a signed request is taken once.
use edgecoder.Prelude.{
  ℕ, ◌*◌, ◌+◌, ◌≤◌, ◌≡◌, ◌≢◌, inl, inr, refl, Bool, true, false, Option, none, some, List, [], ◌∷◌,
  arith, Ident, truthy, or_else, lookup, Bool-cases, Option-cases,
}
use edgecoder.Security.Nonce.{
  NonceStore, NonceCheckResult, NonceEntry, valid, replay, verifies, prunes, verify_nonce, prune,
  Kept, step-Kept, accepted_stored, accepted_near, still_refused,
}
use edgecoder.Security.Nonce as Nonce
use edgecoder.Security.RateLimiter.{check}
use edgecoder.Security.Signing.{
  SignedHeaders, VerifyResult, missing_headers, timestamp_skew, invalid_signature, verified,
  verify_signed_request,
}
use edgecoder.Coordinator.Pull.{Verified, signed_by}
use edgecoder.Coordinator.Requests.{
  RawHeaders, extract_signed_headers, Gate, Settings, nonce_params, accept_nonce, accept_signature,
  accept_agent, accept_rate, verify_agent_request,
}

module _ (s : Settings) where
  -- What a handler does to the nonces `store`: it looks up the nonce of `h`, or it leaves them and
  -- does not take the request.
  data Does (h : SignedHeaders) (now : ℕ) (store : NonceStore) (r : Gate × Option Verified)
      : Type 0 where
    leaves : r.0.nonce_store ≡ store → ((a : Ident) → r.1 ≢ some (signed_by a)) → Does h now store r
    checks :
        r.0.nonce_store ≡ (verify_nonce (nonce_params s h) now store).0
        → ((a : Ident)
            → r.1 ≡ some (signed_by a)
            → (verify_nonce (nonce_params s h) now store).1 ≡ valid)
        → Does h now store r

  nonce-Does :
      (h : SignedHeaders) (now : ℕ) (g : Gate) → Does h now g.nonce_store (accept_nonce s h now g)
  unfolding accept_nonce
  nonce-Does h now g = by_result (verify_nonce (nonce_params s h) now g.nonce_store).1 refl
    where
      by_result :
          (x : NonceCheckResult)
          → (verify_nonce (nonce_params s h) now g.nonce_store).1 ≡ x
          → Does h now g.nonce_store (accept_nonce s h now g)
      by_result valid e = rw (e, accept_nonce) (checks refl (λ a _. e))
      by_result replay e = rw (e, accept_nonce) (checks refl (λ a k. absurd (cc k)))
      by_result Nonce.timestamp_skew e = rw (e, accept_nonce) (checks refl (λ a k. absurd (cc k)))

  signature-Does :
      (path : Ident) (h : SignedHeaders) (key : Ident) (now : ℕ) (g : Gate)
      → Does h now g.nonce_store (accept_signature s path h key now g)
  unfolding accept_signature
  signature-Does path h key now g =
      by_result
        (verify_signed_request s.crypto s.js s.canonicalize s.post path h key s.security_max_skew_ms
          now)
        refl
    where
      by_result :
          (x : Option VerifyResult)
          → verify_signed_request s.crypto s.js s.canonicalize s.post path h key
              s.security_max_skew_ms now
            ≡ x
          → Does h now g.nonce_store (accept_signature s path h key now g)
      by_result none e = rw (e, accept_signature) (leaves refl (λ a k. cc k))
      by_result (some missing_headers) e = rw (e, accept_signature) (leaves refl (λ a k. cc k))
      by_result (some timestamp_skew) e = rw (e, accept_signature) (leaves refl (λ a k. cc k))
      by_result (some invalid_signature) e = rw (e, accept_signature) (leaves refl (λ a k. cc k))
      by_result (some (verified agent nonce)) e = rw (e, accept_signature) (nonce-Does h now g)

  agent-Does :
      (path : Ident) (h : SignedHeaders) (now : ℕ) (g : Gate)
      → Does h now g.nonce_store (accept_agent s path h now g)
  unfolding accept_agent
  agent-Does path h now g = elim (Bool-cases (truthy (lookup h.agent_id g.public_keys))) [
    | inl e ↦
        rw (e, accept_agent)
          (signature-Does path h (or_else (lookup h.agent_id g.public_keys) 0) now g)
    | inr e ↦ rw (e, accept_agent) (leaves refl (λ a k. cc k))
  ]

  rate-Does :
      (path : Ident) (loopback : Bool) (h : SignedHeaders) (now : ℕ) (g : Gate)
      → Does h now g.nonce_store (accept_rate s path loopback h now g)
  unfolding accept_rate
  rate-Does path true h now g = agent-Does path h now g
  rate-Does path false h now g = elim (Bool-cases (check h.agent_id now g.agent_rate_limiter).1) [
    | inl e ↦
        rw (e, accept_rate)
          (agent-Does path h now
            (record g { agent_rate_limiter = (check h.agent_id now g.agent_rate_limiter).0 }))
    | inr e ↦ rw (e, accept_rate) (leaves refl (λ a k. cc k))
  ]

  -- What happens at the gate: requests to the routes, and the sweep of old nonces.
  pub data Call : Type 0 where
    requests : Ident → Bool → RawHeaders → ℕ → Call
    sweeps : ℕ → Call

  abbrev pub time : Call → ℕ
  time (requests path loopback headers now) = now
  time (sweeps now) = now

  unfoldable pub step : Call → Gate → Gate
  step (requests path loopback headers now) g =
      (verify_agent_request s path loopback headers now g).0
  step (sweeps now) g = record g { nonce_store = prune now g.nonce_store }

  unfoldable pub run : List Call → Gate → Gate
  run [] g = g
  run (c ∷ cs) g = run cs (step c g)

  -- The clock does not run backwards, from `last` on and up to `end`.
  abbrev pub InOrder : ℕ → List Call → ℕ → Type 0
  InOrder last [] end = last ≤ end
  InOrder last (c ∷ cs) end = (last ≤ time c) × InOrder (time c) cs end

  Kept-later :
      (nonce : Ident) (until last now : ℕ) (store : NonceStore)
      → last ≤ now
      → Kept nonce until last store
      → Kept nonce until now store
  Kept-later nonce until last now store forward (inl h) = inl (omega arith)
  Kept-later nonce until last now store forward (inr h) = inr h

  Does-Kept :
      (h : SignedHeaders) (nonce : Ident) (until last now : ℕ) (store : NonceStore)
      (r : Gate × Option Verified)
      → last ≤ now
      → Kept nonce until last store
      → Does h now store r
      → Kept nonce until now r.0.nonce_store
  unfolding Nonce.step
  Does-Kept h nonce until last now store r forward k (leaves same refused) =
      rw same (Kept-later nonce until last now store forward k)
  Does-Kept h nonce until last now store r forward k (checks same taken) =
      rw same (step-Kept nonce until (verifies (nonce_params s h) now) last store forward k)

  request-Kept :
      (nonce : Ident) (until last : ℕ) (path : Ident) (loopback : Bool) (headers : RawHeaders)
      (now : ℕ) (g : Gate)
      → last ≤ now
      → Kept nonce until last g.nonce_store
      → Kept nonce until now (verify_agent_request s path loopback headers now g).0.nonce_store
  unfolding verify_agent_request
  request-Kept nonce until last path loopback headers now g forward k =
      elim (Option-cases (extract_signed_headers headers)) [
        | inl e ↦
            rw (e, verify_agent_request) (Kept-later nonce until last now g.nonce_store forward k)
        | inr (h, e) ↦
            rw (e, verify_agent_request)
              (Does-Kept h nonce until last now g.nonce_store (accept_rate s path loopback h now g)
                forward k (rate-Does path loopback h now g))
      ]

  gate_step-Kept :
      (nonce : Ident) (until last : ℕ) (c : Call) (g : Gate)
      → last ≤ time c
      → Kept nonce until last g.nonce_store
      → Kept nonce until (time c) (step c g).nonce_store
  unfolding step Nonce.step
  gate_step-Kept nonce until last (requests path loopback headers now) g forward k =
      request-Kept nonce until last path loopback headers now g forward k
  gate_step-Kept nonce until last (sweeps now) g forward k =
      step-Kept nonce until (prunes now) last g.nonce_store forward k

  gate_run-Kept :
      (nonce : Ident) (until last end : ℕ) (cs : List Call) (g : Gate)
      → InOrder last cs end
      → Kept nonce until last g.nonce_store
      → Kept nonce until end (run cs g).nonce_store
  unfolding run
  gate_run-Kept nonce until last end [] g order k =
      Kept-later nonce until last end g.nonce_store order k
  gate_run-Kept nonce until last end (c ∷ cs) g order k =
      gate_run-Kept nonce until (time c) end cs (step c g) order.1
        (gate_step-Kept nonce until last c g order.0 k)

  Does-taken :
      (h : SignedHeaders) (now : ℕ) (store : NonceStore) (r : Gate × Option Verified) (a : Ident)
      → Does h now store r
      → r.1 ≡ some (signed_by a)
      → ((verify_nonce (nonce_params s h) now store).1 ≡ valid)
        × (r.0.nonce_store ≡ (verify_nonce (nonce_params s h) now store).0)
  Does-taken h now store r a (leaves same refused) e = absurd (refused a e)
  Does-taken h now store r a (checks same taken) e = (taken a e, same)

  request_taken :
      (path : Ident) (loopback : Bool) (headers : RawHeaders) (now : ℕ) (g : Gate) (a : Ident)
      → (verify_agent_request s path loopback headers now g).1 ≡ some (signed_by a)
      → (h : SignedHeaders) × (extract_signed_headers headers ≡ some h)
        × ((verify_nonce (nonce_params s h) now g.nonce_store).1 ≡ valid)
        × ((verify_agent_request s path loopback headers now g).0.nonce_store
            ≡ (verify_nonce (nonce_params s h) now g.nonce_store).0)
  unfolding verify_agent_request
  request_taken path loopback headers now g a k =
      elim (Option-cases (extract_signed_headers headers)) [
        | inl e ↦ let no_reply = rw (e, verify_agent_request) at k in cc
        | inr (h, e) ↦
            let (fresh, same) =
              Does-taken h now g.nonce_store (accept_rate s path loopback h now g) a
                (rate-Does path loopback h now g) (rw (e, verify_agent_request) at k) in
            (h, e, fresh, rw (e, verify_agent_request) same)
      ]

  -- What the headers give as the time is not `NaN`.
  abbrev pub TimestampIsNumber : RawHeaders → Type 0
  TimestampIsNumber headers =
      (h : SignedHeaders)
      → extract_signed_headers headers ≡ some h
      → s.js.number h.timestamp_ms ≢ Nonce.nan

  -- A signed request that was taken, and whose timestamp is not `NaN`, is never taken again, on
  -- whatever route it comes, whatever other requests and sweeps of the nonces come in between, if
  -- nonces are kept for at least twice the skew that is allowed and the clock does not run backwards.
  pub request_taken_once :
      (path path' : Ident) (loopback loopback' : Bool) (headers : RawHeaders) (now later : ℕ)
      (g : Gate) (cs : List Call) (a b : Ident)
      → TimestampIsNumber headers
      → 2 * s.security_max_skew_ms ≤ s.security_nonce_ttl_ms
      → InOrder now cs later
      → (verify_agent_request s path loopback headers now g).1 ≡ some (signed_by a)
      → (verify_agent_request s path' loopback' headers later
          (run cs (verify_agent_request s path loopback headers now g).0)).1
        ≢ some (signed_by b)
  request_taken_once path path' loopback loopback' headers now later g cs a b number long order k
        k' =
      let after = run cs (verify_agent_request s path loopback headers now g).0 in
      let (h, e, fresh, same) = request_taken path loopback headers now g a k in
      let (h', e', fresh', same') = request_taken path' loopback' headers later after b k' in
      let one : h' ≡ h = cc in
      let until = now + s.security_nonce_ttl_ms in
      let stored = accepted_stored (nonce_params s h) now g.nonce_store fresh in
      let new : NonceEntry = record { source_id = h.agent_id; expires_at_ms = until } in
      let kept : Kept h.nonce until later after.nonce_store =
        gate_run-Kept h.nonce until now later cs
          (verify_agent_request s path loopback headers now g).0 order
          (rw same (inr (new, stored, omega arith))) in
      still_refused (nonce_params s h) now later after.nonce_store (number h e) long
        (accepted_near (nonce_params s h) now g.nonce_store fresh) kept (rw one at fresh')
