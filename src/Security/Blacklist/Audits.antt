-- ===== src/Security/Blacklist/Audits.antt =====
-- src/bootstrap/verify-blacklist-audit.ts: which audit logs are accepted.
use edgecoder.Prelude.{
  ◌≡◌, ◌≢◌, ◌↔◌, inl, inr, refl, ◌∙◌, true, false, none, some, List, [], ◌∷◌, ◌++◌, arith, ◌==◌,
  ==→eq, Ident, Dict, lookup, Bool-cases, Option-cases,
}
use edgecoder.Ledger.Crypto.{Crypto, verify_payload}
use edgecoder.Security.Blacklist.{
  BlacklistRecord, HashInput, hash_input_of, check_event, verify_events,
}

module _ (crypto : Crypto) (event_hash : HashInput → Ident) (keys : Dict Ident) where
  -- The record has its hash, and the signature of the coordinator that it names, whose key is known.
  abbrev pub IsSigned : BlacklistRecord → Type 0
  IsSigned r =
      (event_hash (hash_input_of r) ≡ r.event_hash)
      × ((key : Ident) × (lookup r.source_coordinator_id keys ≡ some key)
          × (key ≢ 0)
          × (verify_payload crypto r.event_hash r.coordinator_signature key ≡ true))

  -- Every record is signed and links to the hash before it, and the head is the last hash.
  abbrev pub IsAuditChain : Ident → Ident → List BlacklistRecord → Type 0
  IsAuditChain head previous [] = head ≡ previous
  IsAuditChain head previous (r ∷ rs) =
      (r.prev_event_hash ≡ previous) × IsSigned r × IsAuditChain head r.event_hash rs

  check_event_sound :
      (previous : Ident) (r : BlacklistRecord)
      → check_event crypto event_hash keys previous r ≡ none
      → (r.prev_event_hash ≡ previous) × IsSigned r
  unfolding check_event
  check_event_sound previous r h = elim (Option-cases (lookup r.source_coordinator_id keys)) [
    | inl missing ↦ ground arith
    | inr (key, known) ↦ elim (Bool-cases (r.prev_event_hash == previous)) [
      | inr bad ↦ ground arith
      | inl linked ↦ elim (Bool-cases (event_hash (hash_input_of r) == r.event_hash)) [
        | inr bad ↦ ground arith
        | inl hashed ↦
            let rest = rw (linked, hashed, known) at h in
            (
              ==→eq r.prev_event_hash previous linked,
              (
                ==→eq (event_hash (hash_input_of r)) r.event_hash hashed,
                (key, known, (λ zero. ground arith), ground arith),
              ),
            )
      ]
    ]
  ]

  check_event_complete :
      (previous : Ident) (r : BlacklistRecord)
      → r.prev_event_hash ≡ previous
      → IsSigned r
      → check_event crypto event_hash keys previous r ≡ none
  unfolding check_event
  check_event_complete previous r linked signed =
      let (hashed, (key, known, there, verified)) = signed in
      let a : (r.prev_event_hash == previous) ≡ true = ground arith in
      let b : (event_hash (hash_input_of r) == r.event_hash) ≡ true = ground arith in
      let c : (key == 0) ≡ false = ground arith in rw (a, b, known, c, verified) refl

  verify_events_sound :
      (head previous : Ident) (rs : List BlacklistRecord)
      → verify_events crypto event_hash keys head previous rs ≡ none
      → IsAuditChain head previous rs
  unfolding verify_events
  verify_events_sound head previous [] h = ground arith
  verify_events_sound head previous (r ∷ rs) h =
      elim (Option-cases (check_event crypto event_hash keys previous r)) [
        | inl n ↦
            let (linked, signed) = check_event_sound previous r n in
            (linked, signed, verify_events_sound head r.event_hash rs (rw (n, verify_events) at h))
        | inr (fault, n) ↦ let no = rw (n, verify_events) at h in cc
      ]

  verify_events_complete :
      (head previous : Ident) (rs : List BlacklistRecord)
      → IsAuditChain head previous rs
      → verify_events crypto event_hash keys head previous rs ≡ none
  unfolding verify_events
  verify_events_complete head previous [] h = ground arith
  verify_events_complete head previous (r ∷ rs) h =
      rw (check_event_complete previous r h.0 h.1, verify_events)
        (verify_events_complete head r.event_hash rs h.2)

  -- The audit accepts a log exactly when its first record links to the given hash, each further one
  -- to the hash before it, every record has its hash and the signature of the coordinator that it
  -- names under the known key, and the head is the last hash.
  pub verify_events_iff :
      (head previous : Ident) (rs : List BlacklistRecord)
      → (verify_events crypto event_hash keys head previous rs ≡ none)
        ↔ IsAuditChain head previous rs
  verify_events_iff head previous rs =
      (verify_events_sound head previous rs, verify_events_complete head previous rs)

  -- A record that links to the head may be appended.
  pub IsAuditChain-append :
      (head previous : Ident) (rs : List BlacklistRecord) (r : BlacklistRecord)
      → IsAuditChain head previous rs
      → r.prev_event_hash ≡ head
      → IsSigned r
      → IsAuditChain r.event_hash previous (rs ++ r ∷ [])
  IsAuditChain-append head previous [] r h linked signed = (linked ∙ h, signed, refl)
  IsAuditChain-append head previous (x ∷ xs) r h linked signed =
      (h.0, h.1, IsAuditChain-append head x.event_hash xs r h.2 linked signed)
