-- ===== src/Swarm/SubtaskDeps/Decimal.antt =====
-- src/swarm/subtask-deps.ts: the numbers that `${i + 1}` prints read back as themselves.
use Prim.Native.Char.{code}
use Prim.Native.String.{String, ◌++◌}
use text.Mathlib.TextLemmas.{cons-append, nil-append}
use native.Mathlib.Nat.{native_laws}
use edgecoder.Prelude.{
  ℕ, zero, suc, ◌+◌, ◌-◌, ◌*◌, ◌/◌, ◌%◌, ◌<◌, ◌≤◌, ◌≡◌, refl, ap, ◌∙◌, inl, inr, arith, ltb,
  Bool-cases,
}
use edgecoder.Swarm.SubtaskDeps.{decimal, digit}

-- The number that a text of digits stands for, read from the left.
pub value_from : ℕ → String → ℕ
value_from n String.[] = n
value_from n (String.◌∷◌ c s) = value_from (10 * n + (code c - 48)) s

value_from-append : (n : ℕ) (s t : String) → value_from n (s ++ t) ≡ value_from (value_from n s) t
unfolding value_from
value_from-append n String.[] t = ap (value_from n) (nil-append t)
value_from-append n (String.◌∷◌ c s) t =
    ap (value_from n) (cons-append c s t) ∙ value_from-append (10 * n + (code c - 48)) s t

value-digit : (n d : ℕ) → d < 10 → value_from n (digit d) ≡ 10 * n + d
unfolding value_from
value-digit n zero h = refl
value-digit n (suc zero) h = refl
value-digit n (suc (suc zero)) h = refl
value-digit n (suc (suc (suc zero))) h = refl
value-digit n (suc (suc (suc (suc zero)))) h = refl
value-digit n (suc (suc (suc (suc (suc zero))))) h = refl
value-digit n (suc (suc (suc (suc (suc (suc zero)))))) h = refl
value-digit n (suc (suc (suc (suc (suc (suc (suc zero))))))) h = refl
value-digit n (suc (suc (suc (suc (suc (suc (suc (suc zero)))))))) h = refl
value-digit n (suc (suc (suc (suc (suc (suc (suc (suc (suc zero))))))))) h = refl
value-digit n (suc (suc (suc (suc (suc (suc (suc (suc (suc (suc d)))))))))) h = absurd (omega arith)

pub value-decimal : (fuel n : ℕ) → n < fuel → value_from 0 (decimal fuel n) ≡ n
unfolding decimal
value-decimal zero n h = absurd (omega arith)
value-decimal (suc fuel) n h = elim (Bool-cases (ltb n 10)) [
  | inl small ↦ rw (small, decimal) (value-digit 0 n (ground arith) ∙ omega arith)
  | inr large ↦
      let ten : 10 ≤ n = ground arith in
      let ih = value-decimal fuel (n / 10) (omega arith) in
      rw (large, decimal)
        (value_from-append 0 (decimal fuel (n / 10)) (digit (n % 10))
          ∙ ap (λ m. value_from m (digit (n % 10))) ih
          ∙ value-digit (n / 10) (n % 10) (omega arith)
          ∙ native_laws.div-add-mod n 10)
]
