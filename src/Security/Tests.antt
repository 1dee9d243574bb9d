-- ===== src/Security/Tests.antt =====
-- The theorems on src/security at concrete inputs.
use edgecoder.Prelude.{ℕ, ◌≤◌, ◌≡◌, ◌≢◌, refl, some, List, [], ◌∷◌, arith, Ident}
use edgecoder.Security.RateLimiter.{RateLimitConfig, fresh_limiter}
use edgecoder.Security.RateLimiter.Limit.{admitted, admitted_limited, between, count}
use edgecoder.Security.Nonce.{
  NonceCheckParams, whole, exceeds, valid, verify_nonce, verifies, prunes, run,
  never_accepted_twice,
}

abbrev two_in_ten : RateLimitConfig
two_in_ten = record { max_requests = 2; window_ms = 10 }

abbrev burst : List (Ident × ℕ)
burst = (1, 3) ∷ (1, 4) ∷ (2, 5) ∷ (1, 6) ∷ (1, 14) ∷ (1, 15) ∷ []

admitted_limited_example : count (between 4 10) (admitted 1 burst (fresh_limiter two_in_ten)) ≤ 2
admitted_limited_example = admitted_limited two_in_ten 1 burst 4 (omega arith)

abbrev message : NonceCheckParams
message = record {
  nonce = 6;
  source_id = 1;
  timestamp_ms = whole 1000;
  max_skew_ms = 60;
  ttl_ms = some 120;
}

message_accepted : (verify_nonce message 1010 []).1 ≡ valid
unfolding verify_nonce exceeds
message_accepted = refl

never_accepted_twice_example :
    (verify_nonce message 1200
      (run (verifies message 1020 ∷ prunes 1190 ∷ []) (verify_nonce message 1010 []).0)).1
    ≢ valid
never_accepted_twice_example =
    never_accepted_twice message 1010 1200 [] (verifies message 1020 ∷ prunes 1190 ∷ []) (λ e. cc e)
      (omega arith) (omega arith) message_accepted
