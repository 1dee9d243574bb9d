-- ===== src/Ledger/Chain/Validity.antt =====
-- src/ledger/verify.ts: what it means that a chain passes, and that `append` keeps it passing.
use edgecoder.Prelude.{ℕ, ◌+◌, ◌≡◌, refl, ◌↔◌, true, none, List, [], ◌∷◌, Ident, arith}
use edgecoder.Ledger.Crypto.{Crypto, verify_payload}
use edgecoder.Ledger.Chain.{
  Payload, QueueEventRecord, genesis, check_record, verify_from, verify_ordering_chain,
}

module _ (c : Crypto) (digest : Payload → Ident) where
  -- The records number from `i + 1`, each names the hash before it, has the hash of its payload, and
  -- is signed by the key.
  abbrev pub IsChain : ℕ → Ident → Ident → List QueueEventRecord → Type 0
  IsChain i prev public_key [] = Unit
  IsChain i prev public_key (r ∷ rs) =
      (r.payload.sequence ≡ i + 1)
      × (r.payload.prev_hash ≡ prev)
      × (digest r.payload ≡ r.hash)
      × (verify_payload c r.hash r.signature public_key ≡ true)
      × IsChain (i + 1) r.hash public_key rs

  verify_from_sound :
      (i : ℕ) (prev key : Ident) (rs : List QueueEventRecord)
      → verify_from c digest i prev key rs ≡ none
      → IsChain i prev key rs
  unfolding verify_from check_record
  verify_from_sound i prev key [] e = tt
  verify_from_sound i prev key (r ∷ rs) e = ground (arith, verify_from_sound (i + 1) r.hash key rs)

  verify_from_complete :
      (i : ℕ) (prev key : Ident) (rs : List QueueEventRecord)
      → IsChain i prev key rs
      → verify_from c digest i prev key rs ≡ none
  unfolding verify_from check_record
  verify_from_complete i prev key [] h = refl
  verify_from_complete i prev key (r ∷ rs) h =
      ground (arith, verify_from_complete (i + 1) r.hash key rs)

  -- The verifier accepts a list of records exactly when it is a chain from the genesis text on.
  pub verify_iff :
      (rs : List QueueEventRecord) (key : Ident)
      → (verify_ordering_chain c digest rs key ≡ none) ↔ IsChain 0 genesis key rs
  unfolding verify_ordering_chain
  verify_iff rs key = (verify_from_sound 0 genesis key rs, verify_from_complete 0 genesis key rs)
