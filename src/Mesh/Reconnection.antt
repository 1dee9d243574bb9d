-- ===== src/Mesh/Reconnection.antt =====
-- src/mesh/ble/reconnection-manager.ts: the class `ReconnectionManager`. The result of `Math.random`
-- is an argument, as the fraction it stands for, and the jitter is computed exactly.
pub mod Attempts
pub mod Jitter
mod Tests
use edgecoder.Prelude.{
  ℕ, suc, ◌+◌, ◌*◌, ◌/◌, ◌^◌, ◌<◌, Bool, true, false, not, Option, none, some, List, [], ◌∷◌, ltb,
  leb, if◌then◌else◌, Ident, or_else, min, Dict, lookup, insert, erase,
}

pub record ReconnectionState : Type 0 where
  pub peer_id : Ident
  pub attempt : ℕ
  pub next_retry_ms : ℕ
  pub max_attempts : ℕ
  pub gave_up : Bool

pub record ReconnectionManager : Type 0 where
  pub states : Dict ReconnectionState
  pub base_delay_ms : ℕ
  pub max_delay_ms : ℕ
  pub default_max_attempts : ℕ

abbrev default_base_delay_ms : ℕ
default_base_delay_ms = 500

abbrev default_max_delay_ms : ℕ
default_max_delay_ms = 30000

abbrev pub default_attempts : ℕ
default_attempts = 8

unfoldable pub init : Option ℕ → Option ℕ → Option ℕ → ReconnectionManager
init base_delay max_delay attempts = record {
  states = [];
  base_delay_ms = or_else base_delay default_base_delay_ms;
  max_delay_ms = or_else max_delay default_max_delay_ms;
  default_max_attempts = or_else attempts default_attempts;
}

-- The state of a peer, or that of a peer that was not seen before.
abbrev pub get_or_create : Ident → ReconnectionManager → ReconnectionState
get_or_create peer_id m = or_else (lookup peer_id m.states) (record {
  peer_id = peer_id;
  attempt = 0;
  next_retry_ms = 0;
  max_attempts = m.default_max_attempts;
  gave_up = false;
})

pub compute_base_delay : ℕ → ReconnectionManager → ℕ
compute_base_delay attempt m = min (m.base_delay_ms * 2 ^ attempt) m.max_delay_ms

-- A draw of `Math.random`: `num / den`, at least 0 and less than 1.
pub record Draw : Type 0 where
  pub num : ℕ
  pub den : ℕ

abbrev pub IsDraw : Draw → Type 0
IsDraw r = r.num < r.den

-- `Math.round(delay + (r * 2 - 1) * (delay / 10))` over the common denominator `20 * den`.
pub apply_jitter : Draw → ℕ → ℕ
apply_jitter r delay = (2 * (delay * (9 * r.den + 2 * r.num)) + 10 * r.den) / (20 * r.den)

-- The state after one more attempt.
abbrev pub tried : Draw → ReconnectionManager → ReconnectionState → ReconnectionState
tried r m state = record state {
  next_retry_ms = apply_jitter r (compute_base_delay state.attempt m);
  attempt = suc state.attempt;
  gave_up = if leb state.max_attempts (suc state.attempt) then true else state.gave_up;
}

-- `none` is the result -1.
pub schedule_reconnect : Ident → Draw → ReconnectionManager → ReconnectionManager × Option ℕ
schedule_reconnect peer_id r m =
    let state = get_or_create peer_id m in
    if state.gave_up then (record m { states = insert peer_id state m.states }, none) else (
      record m { states = insert peer_id (tried r m state) m.states },
      some (apply_jitter r (compute_base_delay state.attempt m)),
    )

pub should_retry : Ident → ReconnectionManager → Bool
should_retry peer_id m = elim (lookup peer_id m.states) [
  | none ↦ true
  | some state ↦ not state.gave_up
]

pub record_success : Ident → ReconnectionManager → ReconnectionManager
record_success peer_id m = record m { states = erase peer_id m.states }

unfoldable pub get_backoff_ms : Ident → ReconnectionManager → ℕ
get_backoff_ms peer_id m = elim (lookup peer_id m.states) [
  | none ↦ 0
  | some state ↦ state.next_retry_ms
]

pub get_attempt_count : Ident → ReconnectionManager → ℕ
get_attempt_count peer_id m = elim (lookup peer_id m.states) [
  | none ↦ 0
  | some state ↦ state.attempt
]

unfoldable pub get_state : Ident → ReconnectionManager → Option ReconnectionState
get_state peer_id m = lookup peer_id m.states

pub reset_all : ReconnectionManager → ReconnectionManager
reset_all m = record m { states = [] }
