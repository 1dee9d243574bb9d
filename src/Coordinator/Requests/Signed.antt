-- ===== src/Coordinator/Requests/Signed.antt =====
-- src/swarm/coordinator.ts: requests that are signed by src/security/request-signing.ts.
use edgecoder.Prelude.{ℕ, ◌≤◌, ◌≡◌, ◌≢◌, refl, Bool, true, false, some, arith, truthy, lookup, has}
use edgecoder.Ledger.Crypto.{IsKeyPair}
use edgecoder.Security.Nonce.{verify_nonce, skew, exceeds, exceeds-whole, valid}
use edgecoder.Security.RateLimiter.{check}
use edgecoder.Security.Signing.{
  SignedHeaders, ReadsBack, sign_request, verified, headers_complete, verify_signed_request,
}
use edgecoder.Coordinator.Pull.{signed_by}
use edgecoder.Coordinator.Requests.{
  RawHeaders, extract_signed_headers, Gate, Settings, nonce_params, accept_nonce, accept_signature,
  accept_agent, accept_rate, verify_agent_request,
}

abbrev pub sent : SignedHeaders → RawHeaders
sent h = record {
  agent_id = some h.agent_id;
  timestamp_ms = some h.timestamp_ms;
  nonce = some h.nonce;
  body_sha256 = some h.body_sha256;
  signature = some h.signature;
}

module _ (s : Settings) (path body private public agent at fresh now : ℕ) where
  abbrev pub request : SignedHeaders
  request = sign_request s.crypto s.js s.canonicalize s.post path body private agent at fresh

  is_timely :
      ReadsBack s.js
      → skew now at ≤ s.security_max_skew_ms
      → exceeds s.security_max_skew_ms now (s.js.number (s.js.string at)) ≡ false
  is_timely reads near = rw (reads at) (exceeds-whole s.security_max_skew_ms now at near)

  signature_fits :
      IsKeyPair s.crypto private public
      → headers_complete request ≡ true
      → ReadsBack s.js
      → skew now at ≤ s.security_max_skew_ms
      → verify_signed_request s.crypto s.js s.canonicalize s.post path request public
          s.security_max_skew_ms now
        ≡ some (verified agent fresh)
  unfolding verify_signed_request sign_request
  signature_fits pair complete reads near =
      let timely = is_timely reads near in rw (complete, timely, pair _, verify_signed_request) refl

  nonce_unseen :
      (g : Gate)
      → ReadsBack s.js
      → skew now at ≤ s.security_max_skew_ms
      → has fresh g.nonce_store ≡ false
      → (verify_nonce (nonce_params s request) now g.nonce_store).1 ≡ valid
  unfolding verify_nonce sign_request
  nonce_unseen g reads near unseen =
      let timely = is_timely reads near in rw (timely, unseen, verify_nonce) refl

  nonce_taken :
      (g : Gate)
      → ReadsBack s.js
      → skew now at ≤ s.security_max_skew_ms
      → has fresh g.nonce_store ≡ false
      → (accept_nonce s request now g).1 ≡ some (signed_by agent)
  unfolding accept_nonce sign_request
  nonce_taken g reads near unseen = rw (nonce_unseen g reads near unseen, accept_nonce) refl

  agent_taken :
      (g : Gate)
      → IsKeyPair s.crypto private public
      → lookup agent g.public_keys ≡ some public
      → truthy (some public) ≡ true
      → headers_complete request ≡ true
      → ReadsBack s.js
      → skew now at ≤ s.security_max_skew_ms
      → has fresh g.nonce_store ≡ false
      → (accept_agent s path request now g).1 ≡ some (signed_by agent)
  unfolding accept_agent accept_signature sign_request
  agent_taken g pair known named complete reads near unseen =
      rw (known, named, signature_fits pair complete reads near, accept_signature)
        (nonce_taken g reads near unseen)

  rate_taken :
      (loopback : Bool) (g : Gate)
      → (check agent now g.agent_rate_limiter).1 ≡ true
      → ((g' : Gate)
          → g'.public_keys ≡ g.public_keys
          → g'.nonce_store ≡ g.nonce_store
          → (accept_agent s path request now g').1 ≡ some (signed_by agent))
      → (accept_rate s path loopback request now g).1 ≡ some (signed_by agent)
  unfolding accept_rate sign_request
  rate_taken true g admitted taken = taken g refl refl
  rate_taken false g admitted taken =
      rw (admitted, accept_rate)
        (taken (record g { agent_rate_limiter = (check agent now g.agent_rate_limiter).0 }) refl
          refl)

  -- An agent that signs a request with the private key to its public key, sends it in time and
  -- below the limit of requests, with a nonce that is not stored, gets it taken.
  pub signed_request_taken :
      (loopback : Bool) (g : Gate)
      → IsKeyPair s.crypto private public
      → lookup agent g.public_keys ≡ some public
      → public ≢ 0
      → headers_complete request ≡ true
      → ReadsBack s.js
      → skew now at ≤ s.security_max_skew_ms
      → (check agent now g.agent_rate_limiter).1 ≡ true
      → has fresh g.nonce_store ≡ false
      → (verify_agent_request s path loopback (sent request) now g).1 ≡ some (signed_by agent)
  unfolding verify_agent_request extract_signed_headers
  signed_request_taken loopback g pair known named complete reads near admitted unseen =
      rate_taken loopback g admitted (λ g' keys nonces.
        agent_taken g' pair (rw keys known) (ground arith) complete reads near (rw nonces unseen))
