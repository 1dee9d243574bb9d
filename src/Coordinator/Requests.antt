-- ===== src/Coordinator/Requests.antt =====
-- src/swarm/coordinator.ts: `extractSignedHeaders` and `verifyAgentRequest`, less the security log.
-- A request reads the clock once. Of the agents' entries, only the public keys are read.
pub mod Replays
pub mod Signed
mod Tests
use edgecoder.Prelude.{
  ℕ, Bool, true, false, not, ◌||◌, Option, none, some, if◌then◌else◌, Ident, truthy, or_else, Dict,
  lookup, List, [], ◌∷◌,
}
use edgecoder.Ledger.Crypto.{Crypto}
use edgecoder.Security.BehaviorTracker.{
  AgentBehaviorTracker, signature_failure, replay_attempt, rate_limit_hit, Violation,
  record_protocol_violation,
}
use edgecoder.Security.RateLimiter.{AgentRateLimiter, check, reset}
use edgecoder.Security.Nonce.{
  NonceStore, NonceCheckParams, NonceCheckResult, valid, replay, verify_nonce, prune,
}
use edgecoder.Security.Nonce as Nonce
use edgecoder.Security.Envelope.{◌>>=◌}
use edgecoder.Security.Signing.{
  SignedHeaders, Canonical, JsTexts, VerifyResult, missing_headers, timestamp_skew,
  invalid_signature, verified, verify_signed_request,
}
use edgecoder.Coordinator.Pull.{Verified, rejected, unsigned, signed_by}

-- A header that is missing, or is given several times, is `none`.
pub record RawHeaders : Type 0 where
  pub agent_id : Option Ident
  pub timestamp_ms : Option Ident
  pub nonce : Option Ident
  pub body_sha256 : Option Ident
  pub signature : Option Ident

unfoldable pub extract_signed_headers : RawHeaders → Option SignedHeaders
extract_signed_headers h = do
  agent_id ← h.agent_id
  timestamp_ms ← h.timestamp_ms
  nonce ← h.nonce
  body_sha256 ← h.body_sha256
  signature ← h.signature
  some (record {
    agent_id = agent_id;
    timestamp_ms = timestamp_ms;
    nonce = nonce;
    body_sha256 = body_sha256;
    signature = signature;
  })

pub record Gate : Type 0 where
  pub agent_rate_limiter : AgentRateLimiter
  pub public_keys : Dict Ident
  pub behavior_tracker : AgentBehaviorTracker
  pub nonce_store : NonceStore

-- The settings of the process, and "POST".
pub record Settings : Type 0 where
  pub crypto : Crypto
  pub js : JsTexts
  pub canonicalize : Canonical → Ident
  pub post : Ident
  pub security_max_skew_ms : ℕ
  pub security_nonce_ttl_ms : ℕ

abbrev violate : Ident → Violation → ℕ → Gate → Gate
violate agent_id kind now g = record g {
  behavior_tracker = record_protocol_violation agent_id kind now g.behavior_tracker;
}

module _ (s : Settings) where
  abbrev pub nonce_params : SignedHeaders → NonceCheckParams
  nonce_params h = record {
    nonce = h.nonce;
    source_id = h.agent_id;
    timestamp_ms = s.js.number h.timestamp_ms;
    max_skew_ms = s.security_max_skew_ms;
    ttl_ms = some s.security_nonce_ttl_ms;
  }

  -- The test of the nonce.
  unfoldable pub accept_nonce : SignedHeaders → ℕ → Gate → Gate × Option Verified
  accept_nonce h now g =
      let (store, result) = verify_nonce (nonce_params h) now g.nonce_store in
      let g' = record g { nonce_store = store } in
      elim result [
        | valid ↦ (g', some (signed_by h.agent_id))
        | replay ↦ (violate h.agent_id replay_attempt now g', some rejected)
        | Nonce.timestamp_skew ↦ (violate h.agent_id replay_attempt now g', some rejected)
      ]

  -- The test of the signature; a thrown error is a reply of `none`.
  unfoldable pub accept_signature :
      Ident → SignedHeaders → Ident → ℕ → Gate → Gate × Option Verified
  accept_signature path h public_key_pem now g =
      elim (verify_signed_request s.crypto s.js s.canonicalize s.post path h public_key_pem
        s.security_max_skew_ms now) [
          | none ↦ (g, none)
          | some (verified agent_id nonce) ↦ accept_nonce h now g
          | some timestamp_skew ↦ (violate h.agent_id replay_attempt now g, some rejected)
          | some missing_headers ↦ (violate h.agent_id signature_failure now g, some rejected)
          | some invalid_signature ↦ (violate h.agent_id signature_failure now g, some rejected)
        ]

  -- From the look at the key on.
  unfoldable pub accept_agent : Ident → SignedHeaders → ℕ → Gate → Gate × Option Verified
  accept_agent path h now g =
      if not (truthy (lookup h.agent_id g.public_keys))
      then (record g { agent_rate_limiter = reset h.agent_id g.agent_rate_limiter }, some rejected)
      else accept_signature path h (or_else (lookup h.agent_id g.public_keys) 0) now g

  -- The rate limit, for requests that are not from the machine itself.
  unfoldable pub accept_rate : Ident → Bool → SignedHeaders → ℕ → Gate → Gate × Option Verified
  accept_rate path is_loopback h now g =
      let (limiter, admitted) = check h.agent_id now g.agent_rate_limiter in
      let g' = record g { agent_rate_limiter = limiter } in
      if is_loopback
      then accept_agent path h now g
      else if not admitted
      then (violate h.agent_id rate_limit_hit now g', some rejected)
      else accept_agent path h now g'

  unfoldable pub verify_agent_request :
      Ident → Bool → RawHeaders → ℕ → Gate → Gate × Option Verified
  verify_agent_request path is_loopback headers now g = elim (extract_signed_headers headers) [
    | none ↦ (g, some unsigned)
    | some h ↦ accept_rate path is_loopback h now g
  ]
