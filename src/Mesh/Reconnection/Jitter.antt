-- ===== src/Mesh/Reconnection/Jitter.antt =====
-- src/mesh/ble/reconnection-manager.ts: the bounds of the delay.
use edgecoder.Prelude.{
  ℕ, ◌+◌, ◌*◌, ◌/◌, ◌^◌, ◌≤◌, ◌<◌, ◌≡◌, arith, Bool, false, Option, none, some, Ident, min, inl,
  inr, lookup, Option-cases,
}
use edgecoder.Mesh.Reconnection.{
  Draw, IsDraw, apply_jitter, ReconnectionManager, schedule_reconnect, compute_base_delay,
  should_retry, get_attempt_count,
}
use native.Mathlib.Nat.{native_laws}

-- A sum and a product rounded at a common positive factor.
rounded-le : (a b q den : ℕ) → 0 < den → q * (20 * den) ≤ a → a ≤ b * den → 20 * q ≤ b
rounded-le a b q den pos h k =
    native_laws.le_of_mul-le-mul_right {m = 20 * q} {n = b} {k = den} (omega (arith, h, k)) pos

lt-rounded :
    (a b q den : ℕ) → 0 < den → a < q * (20 * den) + 20 * den → b * den ≤ a → b ≤ 20 * q + 20
lt-rounded a b q den pos h k =
    native_laws.le_of_mul-le-mul_right {m = b} {n = 20 * q + 20} {k = den} (omega (arith, h, k)) pos

-- The jitter keeps the delay within a tenth, up to the rounding to a whole millisecond.
pub jitter_within_tenth :
    (r : Draw) (delay : ℕ)
    → IsDraw r
    → (9 * delay ≤ 10 * apply_jitter r delay + 5) × (10 * apply_jitter r delay ≤ 11 * delay + 5)
unfolding apply_jitter
jitter_within_tenth r delay h =
    let a = 2 * (delay * (9 * r.den + 2 * r.num)) + 10 * r.den in
    let q = a / (20 * r.den) in
    let up = native_laws.div-mul-le_self a (20 * r.den) in
    let down = native_laws.lt-div-mul-add {a = a} {b = 20 * r.den} (omega (arith, h)) in
    let near : delay * r.num ≤ delay * r.den =
      native_laws.mul-le-mul_left delay (omega (arith, h)) in
    let low =
      lt-rounded a (18 * delay + 10) q r.den (omega (arith, h)) down (omega (arith, near)) in
    let high = rounded-le a (22 * delay + 10) q r.den (omega (arith, h)) up (omega (arith, near)) in
    (omega (arith, low), omega (arith, high))

-- What a reconnection answers, by the delay before jitter and by whether the peer is tried again.
abbrev pub BacksOff : ℕ → Bool → Option ℕ → Type 0
BacksOff base again none = again ≡ false
BacksOff base again (some delay) = (9 * base ≤ 10 * delay + 5) × (10 * delay ≤ 11 * base + 5)

-- A reconnection of a peer that is not given up waits within a tenth, up to rounding, of the base
-- delay doubled once for each attempt before, but of no more than the greatest delay; one of a peer
-- that is given up is refused with -1.
pub delay_bounded :
    (peer : Ident) (r : Draw) (m : ReconnectionManager)
    → IsDraw r
    → BacksOff
        (min (m.base_delay_ms * 2 ^ get_attempt_count peer m) m.max_delay_ms)
        (should_retry peer m)
        (schedule_reconnect peer r m).1
unfolding schedule_reconnect should_retry get_attempt_count compute_base_delay
delay_bounded peer r m h =
    let base = min (m.base_delay_ms * 2 ^ get_attempt_count peer m) m.max_delay_ms in
    let j = jitter_within_tenth r base h in
    elim (Option-cases (lookup peer m.states)) [ inl e ↦ ground arith | inr (s, e) ↦ ground arith ]
