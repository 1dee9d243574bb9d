-- ===== src/Security/RateLimiter.antt =====
-- src/security/agent-rate-limiter.ts: the class `AgentRateLimiter`. The clock is an argument, and
-- `timestamp < now - windowMs` is written `timestamp + window_ms < now`.
pub mod Limit
use edgecoder.Prelude.{
  ℕ, ◌+◌, ◌≤◌, ◌≡◌, ◌≢◌, refl, Bool, true, false, ◌&&◌, List, [], ◌∷◌, ◌++◌, Ident, ◌==◌,
  if◌then◌else◌, arith, Bool-cases, ltb, leb, length, Dict, lookup, insert, erase, or_else, inl,
  inr, lookup-insert, filter, append-nil, append_assoc, ==_refl, ◌∙◌,
}

pub record RateLimitConfig : Type 0 where
  pub max_requests : ℕ
  pub window_ms : ℕ

pub record AgentRateLimiter : Type 0 where
  pub config : RateLimitConfig
  pub windows : Dict (List ℕ)

-- The loop that evicts the timestamps that have left the window.
unfoldable pub evict : ℕ → ℕ → List ℕ → List ℕ
evict window now [] = []
evict window now (t ∷ ts) =
    let rest = evict window now ts in if ltb (t + window) now then rest else t ∷ ts

unfoldable pub check : Ident → ℕ → AgentRateLimiter → AgentRateLimiter × Bool
unfolding evict
check agent_id now l =
    let kept = evict l.config.window_ms now (or_else (lookup agent_id l.windows) []) in
    if leb l.config.max_requests (length kept)
    then (record l { windows = insert agent_id kept l.windows }, false)
    else (record l { windows = insert agent_id (kept ++ now ∷ []) l.windows }, true)

pub reset : Ident → AgentRateLimiter → AgentRateLimiter
reset agent_id l = record l { windows = erase agent_id l.windows }

abbrev pub fresh_limiter : RateLimitConfig → AgentRateLimiter
fresh_limiter config = record { config = config; windows = [] }
