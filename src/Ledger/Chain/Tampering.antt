-- ===== src/Ledger/Chain/Tampering.antt =====
-- src/ledger/verify.ts: a chain that passes cannot be rewritten without changing its last hash.
use native.Mathlib.Decide.{ℕ_discrete}
use edgecoder.Prelude.{
  ℕ, ◌+◌, ◌≡◌, refl, ◌⊎◌, inl, inr, ◌≢◌, none, List, [], ◌∷◌, Ident, length, arith, ap, sym, ◌∙◌,
}
use edgecoder.Ledger.Crypto.{Crypto}
use edgecoder.Ledger.Chain.{
  Payload, QueueEventType, QueueEventRecord, genesis, last_or, hashes, verify_ordering_chain,
}
use edgecoder.Ledger.Chain.Validity.{IsChain, verify_iff}

QueueEventType-discrete : Discrete QueueEventType
QueueEventType-discrete = hlevel

Payload-discrete : Discrete Payload
Payload-discrete = hlevel (ℕ_discrete, QueueEventType-discrete)

abbrev pub payloads : List QueueEventRecord → List Payload
payloads [] = []
payloads (r ∷ rs) = r.payload ∷ payloads rs

-- Two different payloads of one hash.
abbrev pub Collision : (Payload → Ident) → Type 0
Collision digest = (p : Payload) × (p' : Payload) × (p ≢ p') × (digest p ≡ digest p')

module _ (c : Crypto) (digest : Payload → Ident) where
  same_or_Collision : (p p' : Payload) → digest p ≡ digest p' → (p ≡ p') ⊎ Collision digest
  same_or_Collision p p' e = elim (Payload-discrete p p') [
    | yes h ↦ inl h
    | no h ↦ inr (p, p', h, e)
  ]

  -- Backwards from the last hash: equal hashes have equal payloads, which name equal hashes.
  IsChain-unique :
      (i j : ℕ) (prev prev' key key' : Ident) (rs ss : List QueueEventRecord)
      → IsChain c digest i prev key rs
      → IsChain c digest j prev' key' ss
      → length rs ≡ length ss
      → last_or prev (hashes rs) ≡ last_or prev' (hashes ss)
      → ((payloads rs ≡ payloads ss) × (prev ≡ prev')) ⊎ Collision digest
  IsChain-unique i j prev prev' key key' [] [] h k n e = inl (refl, e)
  IsChain-unique i j prev prev' key key' [] (s ∷ ss) h k n e = absurd (omega arith)
  IsChain-unique i j prev prev' key key' (r ∷ rs) [] h k n e = absurd (omega arith)
  IsChain-unique i j prev prev' key key' (r ∷ rs) (s ∷ ss) h k n e =
      elim (IsChain-unique (i + 1) (j + 1) r.hash s.hash key key' rs ss h.4 k.4 (omega arith) e) [
        | inr x ↦ inr x
        | inl (tails, heads) ↦
            elim (same_or_Collision r.payload s.payload (h.2 ∙ heads ∙ sym k.2)) [
              | inr x ↦ inr x
              | inl same ↦
                  inl (ground arith, sym h.1 ∙ ap (λ (p : Payload). p.prev_hash) same ∙ k.1)
            ]
      ]

  -- Two lists of records that pass the verifier, as long as each other and with one last hash, hold
  -- the same events in the same order, under whatever keys they were signed; or else two different
  -- payloads with one SHA-256 hash are at hand.
  pub tamper_evident :
      (rs ss : List QueueEventRecord) (key key' : Ident)
      → verify_ordering_chain c digest rs key ≡ none
      → verify_ordering_chain c digest ss key' ≡ none
      → length rs ≡ length ss
      → last_or genesis (hashes rs) ≡ last_or genesis (hashes ss)
      → (payloads rs ≡ payloads ss) ⊎ Collision digest
  tamper_evident rs ss key key' e f n h =
      elim (IsChain-unique 0 0 genesis genesis key key' rs ss ((verify_iff c digest rs key).0 e)
        ((verify_iff c digest ss key').0 f) n h) [ inl (same, _) ↦ inl same | inr x ↦ inr x ]
