-- ===== src/Security.antt =====
-- src/security: rate limits, nonces, behaviour rules and the blacklist.
pub mod RateLimiter
pub mod Nonce
pub mod Signing
pub mod Behavior
pub mod BehaviorTracker
pub mod AnomalyDetector
pub mod AutoBlacklister
pub mod Blacklist
pub mod Envelope
mod Tests
