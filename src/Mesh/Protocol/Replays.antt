-- ===== src/Mesh/Protocol/Replays.antt =====
-- src/mesh/protocol.ts: messages that are made pass once, and what bounds the memory of them.
use edgecoder.Prelude.{
  ℕ, suc, ◌+◌, ◌≤◌, ◌<◌, ◌≡◌, ◌↔◌, ◌⊎◌, inl, inr, refl, true, false, ◌||◌, List, [], ◌∷◌, ◌++◌,
  append_assoc, ap, ◌∙◌, ltb, ◌==◌, arith, Ident, length, contains, Bool-cases, length-append,
}
use edgecoder.Ledger.Crypto.{Crypto, IsKeyPair, verify_payload, verify_payload-sign_payload}
use edgecoder.Mesh.Protocol.{
  MeshMessageType, Unsigned, MeshMessage, MeshProtocol, valid_message, duplicate_message,
  seen_cache_limit, add_id, drop_first, remember, create_message, validate_message,
}

module _ (c : Crypto) (canonicalize_message : Unsigned → Ident) where
  -- A message that is made with a private key is accepted under its public key by whoever has not
  -- seen its identifier and gets it before its time to live has passed.
  pub created_accepted :
      (fresh : Ident) (kind : MeshMessageType) (peer payload private public : Ident)
      (ttl sent now : ℕ) (p : MeshProtocol)
      → IsKeyPair c private public
      → contains fresh p.seen_ids ≡ false
      → now ≤ sent + ttl
      → (validate_message c canonicalize_message
          (create_message c canonicalize_message fresh kind peer payload private ttl sent)
          public
          now
          p).1
        ≡ valid_message
  unfolding create_message validate_message
  created_accepted fresh kind peer payload private public ttl sent now p pair new early =
      let unsigned : Unsigned = record {
        id = fresh;
        kind = kind;
        from_peer_id = peer;
        issued_at_ms = sent;
        ttl_ms = ttl;
        payload = payload;
      } in
      let v = verify_payload-sign_payload c private public (canonicalize_message unsigned) pair in
      ground (arith, v)

  -- A message is accepted exactly when its identifier is not in memory, its time to live has not
  -- passed, and its signature verifies over its fields.
  pub accepted_iff :
      (message : MeshMessage) (public : Ident) (now : ℕ) (p : MeshProtocol)
      → ((validate_message c canonicalize_message message public now p).1 ≡ valid_message) ↔ (
          (contains message.fields.id p.seen_ids ≡ false)
          × (now ≤ message.fields.issued_at_ms + message.fields.ttl_ms)
          × (verify_payload c (canonicalize_message message.fields) message.signature public
              ≡ true))
  unfolding validate_message
  accepted_iff message public now p = ground arith

  unfoldable pub validate_all : List (MeshMessage × Ident × ℕ) → MeshProtocol → MeshProtocol
  validate_all [] p = p
  validate_all ((message, public, now) ∷ rest) p =
      validate_all rest (validate_message c canonicalize_message message public now p).0

contains-append :
    (id : Ident) (xs ys : List Ident) → contains id (xs ++ ys) ≡ (contains id xs || contains id ys)
contains-append id [] ys = refl
contains-append id (x ∷ xs) ys = ground (arith, contains-append id xs ys)

-- The identifier is in memory, and at most `n` identifiers came after it.
abbrev Remembered : ℕ → Ident → List Ident → Type 0
Remembered n id seen = (front back : List Ident) × (seen ≡ front ++ id ∷ back) × (length back ≤ n)

contains-Remembered :
    (n : ℕ) (id : Ident) (seen : List Ident) → Remembered n id seen → contains id seen ≡ true
contains-Remembered n id seen (front, back, e, l) =
    rw (e, contains-append id front (id ∷ back)) (ground arith)

drop_first-Remembered :
    (n : ℕ) (id : Ident) (seen : List Ident)
    → suc n < length seen
    → Remembered n id seen
    → Remembered n id (drop_first seen)
drop_first-Remembered n id seen long ([], back, e, l) =
    let c : length seen ≡ suc (length back) = ap length e in
    let no : ⊥ = omega (arith, long, c, l) in elim no [ ]
drop_first-Remembered n id seen long (x ∷ front, back, e, l) = elim (Bool-cases (x == 0)) [
  | inl z ↦ (x ∷ front, back, rw (e, drop_first, z) refl, l)
  | inr z ↦ (front, back, rw (e, drop_first, z) refl, l)
]

add_id-Remembered :
    (n : ℕ) (id new : Ident) (seen : List Ident)
    → Remembered n id seen
    → Remembered (suc n) id (add_id new seen)
add_id-Remembered n id new seen (front, back, e, l) = elim (Bool-cases (contains new seen)) [
  | inl h ↦ (front, back, rw h e, omega (arith, l))
  | inr h ↦ (
    front,
    back ++ new ∷ [],
    rw (h, e) (append_assoc front (id ∷ back) (new ∷ [])),
    omega (arith, l, length-append back (new ∷ [])),
  )
]

remember-Remembered :
    (n : ℕ) (id new : Ident) (seen : List Ident)
    → suc n < seen_cache_limit
    → Remembered n id seen
    → Remembered (suc n) id (remember new seen)
unfolding remember
remember-Remembered n id new seen few h =
    let added = add_id-Remembered n id new seen h in
    elim (Bool-cases (ltb seen_cache_limit (length (add_id new seen)))) [
      | inl e ↦
          rw (remember, e) (drop_first-Remembered (suc n) id (add_id new seen) (ground arith) added)
      | inr e ↦ rw (remember, e) added
    ]

first-Remembered :
    (id : Ident) (seen : List Ident) → contains id seen ≡ false → Remembered 0 id (remember id seen)
unfolding remember
first-Remembered id [] new = ([], [], ground arith, omega arith)
first-Remembered id (x ∷ xs) new =
    elim (Bool-cases (ltb seen_cache_limit (length (add_id id (x ∷ xs))))) [
      | inl e ↦ elim (Bool-cases (x == 0)) [
        | inl z ↦ (x ∷ xs, [], rw (remember, e, new, z) refl, omega arith)
        | inr z ↦ (xs, [], rw (remember, e, new, z) refl, omega arith)
      ]
      | inr e ↦ (x ∷ xs, [], rw (remember, e, new) refl, omega arith)
    ]

module _ (c : Crypto) (canonicalize_message : Unsigned → Ident) where
  validate-seen :
      (message : MeshMessage) (public : Ident) (now : ℕ) (p : MeshProtocol)
      → ((validate_message c canonicalize_message message public now p).0.seen_ids ≡ p.seen_ids)
        ⊎ ((validate_message c canonicalize_message message public now p).0.seen_ids
            ≡ remember message.fields.id p.seen_ids)
  unfolding validate_message
  validate-seen message public now p = ground arith

  accepted-seen :
      (message : MeshMessage) (public : Ident) (now : ℕ) (p : MeshProtocol)
      → (validate_message c canonicalize_message message public now p).1 ≡ valid_message
      → (validate_message c canonicalize_message message public now p).0.seen_ids
        ≡ remember message.fields.id p.seen_ids
  unfolding validate_message
  accepted-seen message public now p ok = ground arith

  seen-refused :
      (message : MeshMessage) (public : Ident) (now : ℕ) (p : MeshProtocol)
      → contains message.fields.id p.seen_ids ≡ true
      → (validate_message c canonicalize_message message public now p).1 ≡ duplicate_message
  unfolding validate_message
  seen-refused message public now p e = rw e refl

  validate-Remembered :
      (n : ℕ) (id : Ident) (message : MeshMessage) (public : Ident) (now : ℕ) (p : MeshProtocol)
      → suc n < seen_cache_limit
      → Remembered n id p.seen_ids
      → Remembered
          (suc n)
          id
          (validate_message c canonicalize_message message public now p).0.seen_ids
  unfolding validate_message
  validate-Remembered n id message public now p few (front, back, e, l) =
      elim (validate-seen message public now p) [
        | inl q ↦ (front, back, q ∙ e, omega (arith, l))
        | inr q ↦
            let (f, b, h, k) =
              remember-Remembered n id message.fields.id p.seen_ids few (front, back, e, l) in
            (f, b, q ∙ h, k)
      ]

  validate_all-Remembered :
      (n : ℕ) (id : Ident) (rest : List (MeshMessage × Ident × ℕ)) (p : MeshProtocol)
      → n + length rest < seen_cache_limit
      → Remembered n id p.seen_ids
      → Remembered (n + length rest) id (validate_all c canonicalize_message rest p).seen_ids
  unfolding validate_all
  validate_all-Remembered n id [] p few (front, back, e, l) = (front, back, e, omega (arith, l))
  validate_all-Remembered n id ((message, public, now) ∷ rest) p few h =
      let one = validate-Remembered n id message public now p (omega (arith, few)) h in
      let p' = (validate_message c canonicalize_message message public now p).0 in
      let (front, back, e, l) =
        validate_all-Remembered (suc n) id rest p' (omega (arith, few)) one in
      (front, back, e, omega (arith, l))

  -- A message that was accepted is refused as a duplicate as long as fewer than 5000 messages were
  -- checked since.
  pub accepted_once :
      (message : MeshMessage) (public again : Ident) (now later : ℕ)
      (rest : List (MeshMessage × Ident × ℕ)) (p : MeshProtocol)
      → (validate_message c canonicalize_message message public now p).1 ≡ valid_message
      → length rest < seen_cache_limit
      → (validate_message c canonicalize_message message again later (
          validate_all c canonicalize_message rest
            (validate_message c canonicalize_message message public now p).0)).1
        ≡ duplicate_message
  accepted_once message public again now later rest p ok few =
      let id = message.fields.id in
      let p' = (validate_message c canonicalize_message message public now p).0 in
      let new = ((accepted_iff c canonicalize_message message public now p).0 ok).0 in
      let (f, b, e, l) = first-Remembered id p.seen_ids new in
      let q = accepted-seen message public now p ok in
      let last = validate_all c canonicalize_message rest p' in
      let kept = validate_all-Remembered 0 id rest p' (omega (arith, few)) (f, b, q ∙ e, l) in
      seen-refused message again later last
        (contains-Remembered (0 + length rest) id last.seen_ids kept)
