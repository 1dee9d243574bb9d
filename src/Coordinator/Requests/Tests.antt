-- ===== src/Coordinator/Requests/Tests.antt =====
-- The theorems on `verifyAgentRequest` of src/swarm/coordinator.ts at concrete requests, under a toy
-- signature.
use edgecoder.Prelude.{
  some-injective, ap, ◌+◌, ◌-◌, if◌then◌else◌, ◌≡◌, ◌≢◌, refl, true, false, some, none, [], ◌∷◌,
  ◌==◌, arith,
}
use edgecoder.Ledger.Crypto.{Crypto, IsKeyPair}
use edgecoder.Security.BehaviorTracker.{new_tracker}
use edgecoder.Security.RateLimiter.{fresh_limiter, check, evict}
use edgecoder.Security.Signing.{
  SignedHeaders, JsTexts, ReadsBack, sign_request, verify_signed_request,
}
use edgecoder.Security.Nonce.{nan, whole, exceeds, verify_nonce, prune}
use edgecoder.Coordinator.Pull.{signed_by}
use edgecoder.Coordinator.Requests.{
  Gate, Settings, RawHeaders, verify_agent_request, extract_signed_headers, accept_rate,
  accept_agent, accept_signature, accept_nonce,
}
use edgecoder.Coordinator.Requests.Replays.{
  requests, sweeps, run, step, TimestampIsNumber, request_taken_once,
}
use edgecoder.Coordinator.Requests.Signed.{sent, request, signed_request_taken}

abbrev toy : Crypto
toy = record {
  sign = λ payload key. payload + key;
  verify = λ payload key signature. some (signature == payload + key);
}

toy_pair : IsKeyPair toy 5 5
toy_pair payload = ground arith

-- The text 900 is no number, and every other text is its number.
abbrev texts : JsTexts
texts = record { string = λ n. n + 1000; number = λ t. if t == 900 then nan else whole (t - 1000) }

abbrev settings : Settings
settings = record {
  crypto = toy;
  js = texts;
  canonicalize = λ c. c.timestamp_ms + c.nonce + c.body_hash + c.path;
  post = 1;
  security_max_skew_ms = 120000;
  security_nonce_ttl_ms = 300000;
}

abbrev gate : Gate
gate = record {
  agent_rate_limiter = fresh_limiter (record { max_requests = 2; window_ms = 60000 });
  public_keys = (8, 5) ∷ [];
  behavior_tracker = new_tracker none;
  nonce_store = [];
}

-- What agent 8 signs at time 200000, for path 3, and sends at 200040.
abbrev headers : RawHeaders
headers = sent (request settings 3 44 5 5 8 200000 70 200040)

reads_back : ReadsBack texts
reads_back n = ground arith

headers_timed : TimestampIsNumber settings headers
unfolding extract_signed_headers sign_request
headers_timed h e d =
    let same = some-injective (request settings 3 44 5 5 8 200000 70 200040) h e in
    let at : 201000 ≡ h.timestamp_ms = ap (λ (x : SignedHeaders). x.timestamp_ms) same in
    ground (arith, at, d)

signed_request_taken_example :
    (verify_agent_request settings 3 false headers 200040 gate).1 ≡ some (signed_by 8)
unfolding check evict sign_request
signed_request_taken_example =
    signed_request_taken settings 3 44 5 5 8 200000 70 200040 false gate toy_pair refl (omega arith)
      refl reads_back (omega arith) refl refl

request_taken_once_example :
    (verify_agent_request settings 4 true headers 400000 (
      run settings
        (requests 3 false headers 200050 ∷ sweeps 300000 ∷ [])
        (verify_agent_request settings 3 false headers 200040 gate).0)).1
    ≢ some (signed_by 8)
request_taken_once_example =
    request_taken_once settings 3 4 false true headers 200040 400000 gate
      (requests 3 false headers 200050 ∷ sweeps 300000 ∷ []) 8 8 headers_timed (omega arith)
      (omega arith, (omega arith, omega arith)) signed_request_taken_example

-- A request that is signed with a timestamp that is no number is taken again once its nonce is
-- swept, however late.
abbrev timeless : RawHeaders
timeless = record {
  agent_id = some 8;
  timestamp_ms = some 900;
  nonce = some 70;
  body_sha256 = some 44;
  signature = some (900 + 70 + 44 + 3 + 5);
}

timeless_taken_again :
    (verify_agent_request settings 3 false timeless 9000000 (
      run settings
        (sweeps 500041 ∷ [])
        (verify_agent_request settings 3 false timeless 200040 gate).0)).1
    ≡ some (signed_by 8)
unfolding verify_agent_request extract_signed_headers accept_rate accept_agent accept_signature
    accept_nonce verify_signed_request exceeds verify_nonce check evict run step prune
timeless_taken_again = refl
