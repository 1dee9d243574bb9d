-- ===== src/Security/Envelope/Exchange.antt =====
-- src/security/envelope.ts: a task and its result come through, under what node:crypto and JSON
-- document.
use edgecoder.Prelude.{
  ◌-◌, ◌≡◌, refl, sym, ap, ◌∙◌, some, [], ◌∷◌, ◌++◌, arith, Ident, length, length-append, drop,
}
use edgecoder.Security.Envelope.{
  Buffer, EnvelopeMetadata, EnvelopeTask, EnvelopeResult, TaskEnvelope, x25519_pkcs8_prefix,
  x25519_spki_prefix, Platform, last_32, generate_x25519_key_pair, derive_shared_key,
  create_task_envelope, decrypt_task_envelope, encrypt_result, decrypt_result, envelope_key,
}

pub drop-append : (xs ys : Buffer) → drop (length xs) (xs ++ ys) ≡ ys
drop-append [] ys = refl
drop-append (x ∷ xs) ys = drop-append xs ys

last_32-append : (xs raw : Buffer) → length raw ≡ 32 → last_32 (xs ++ raw) ≡ raw
last_32-append xs raw h =
    let n : length (xs ++ raw) - 32 ≡ length xs = omega (arith, length-append xs raw, h) in
    rw n (drop-append xs raw)

module _ {Base64 Hex : Type 0} where
  -- What the platform documents: the DER form of X25519 keys, that both sides of a Diffie-Hellman
  -- exchange agree, and that decryption, decoding and parsing undo what they are named after.
  pub record IsPlatform (p : Platform Base64 Hex) : Type 0 where
    pub der :
        (seed : Ident)
        → (public : Buffer) × (private : Buffer) × (p.generate seed
            ≡ (x25519_spki_prefix ++ public, x25519_pkcs8_prefix ++ private))
          × (length public ≡ 32)
          × (length private ≡ 32)
    pub agree :
        (s t : Ident)
        → p.diffie_hellman (p.generate s).1 (p.generate t).0
          ≡ p.diffie_hellman (p.generate t).1 (p.generate s).0
    pub decrypts :
        (key nonce plaintext : Buffer)
        → p.decrypt key (p.encrypt key nonce plaintext).0 nonce (p.encrypt key nonce plaintext).1
          ≡ some plaintext
    pub base64 : (b : Buffer) → p.from_base64 (p.to_base64 b) ≡ b
    pub hex : (b : Buffer) → p.from_hex (p.to_hex b) ≡ b
    pub task_json : (t : EnvelopeTask) → p.parse_task (p.stringify_task t) ≡ some t
    pub result_json : (r : EnvelopeResult) → p.parse_result (p.stringify_result r) ≡ some r

module _ {Base64 Hex : Type 0} (p : Platform Base64 Hex) (h : IsPlatform p) where
  -- The halves of a pair, with their prefixes, are what was drawn.
  public-der :
      (seed : Ident)
      → x25519_spki_prefix ++ (generate_x25519_key_pair p seed).public_key ≡ (p.generate seed).0
  unfolding generate_x25519_key_pair
  public-der seed =
      let (public, private, e, n, m) = h.der seed in
      rw (e, last_32-append x25519_spki_prefix public n) refl

  private-der :
      (seed : Ident)
      → x25519_pkcs8_prefix ++ (generate_x25519_key_pair p seed).private_key ≡ (p.generate seed).1
  unfolding generate_x25519_key_pair
  private-der seed =
      let (public, private, e, n, m) = h.der seed in
      rw (e, last_32-append x25519_pkcs8_prefix private m) refl

  shared_key-agree :
      (s t salt : Ident)
      → derive_shared_key p
          (generate_x25519_key_pair p s).private_key
          (generate_x25519_key_pair p t).public_key
          salt
        ≡ derive_shared_key p
            (generate_x25519_key_pair p t).private_key
            (generate_x25519_key_pair p s).public_key
            salt
  unfolding derive_shared_key
  shared_key-agree s t salt =
      ap (λ k. p.hkdf k salt)
        (ap
            (λ k.
              p.diffie_hellman k (x25519_spki_prefix ++ (generate_x25519_key_pair p t).public_key))
            (private-der s)
          ∙ ap (λ k. p.diffie_hellman (p.generate s).1 k) (public-der t)
          ∙ h.agree s t
          ∙ ap (λ k. p.diffie_hellman k (p.generate s).0) (sym (private-der t))
          ∙ ap
              (λ k.
                p.diffie_hellman (x25519_pkcs8_prefix ++ (generate_x25519_key_pair p t).private_key)
                  k)
              (sym (public-der s)))

  create_key :
      (task : EnvelopeTask) (subtask_id agent seed : Ident) (metadata : EnvelopeMetadata)
      (nonce : Buffer)
      → let pair = generate_x25519_key_pair p agent in
        let (envelope, key) =
          create_task_envelope p task pair.public_key subtask_id metadata seed nonce in
        envelope_key p envelope pair.private_key ≡ key
  unfolding create_task_envelope
  create_key task subtask_id agent seed metadata nonce =
      let pair = generate_x25519_key_pair p agent in
      ap (λ k. derive_shared_key p pair.private_key k subtask_id)
        (h.base64 (generate_x25519_key_pair p seed).public_key)
      ∙ shared_key-agree agent seed subtask_id

  task_comes_through :
      (task : EnvelopeTask) (subtask_id agent seed : Ident) (metadata : EnvelopeMetadata)
      (nonce : Buffer)
      → let pair = generate_x25519_key_pair p agent in
        decrypt_task_envelope p
          (create_task_envelope p task pair.public_key subtask_id metadata seed nonce).0
          pair.private_key
        ≡ some task
  unfolding decrypt_task_envelope create_task_envelope
  task_comes_through task subtask_id agent seed metadata nonce =
      let pair = generate_x25519_key_pair p agent in
      let key = (create_task_envelope p task pair.public_key subtask_id metadata seed nonce).1 in
      let text = p.stringify_task task in
      rw
        (
          create_key task subtask_id agent seed metadata nonce,
          h.base64 (p.encrypt key nonce text).0,
          h.hex nonce,
          h.hex (p.encrypt key nonce text).1,
          h.decrypts key nonce text,
        )
        (h.task_json task)

  result_comes_through :
      (result : EnvelopeResult) (envelope : TaskEnvelope Base64 Hex) (private key nonce : Buffer)
      → envelope_key p envelope private ≡ key
      → decrypt_result p (encrypt_result p result envelope private nonce) key ≡ some result
  unfolding decrypt_result encrypt_result
  result_comes_through result envelope private key nonce e =
      let text = p.stringify_result result in
      rw
        (
          e,
          h.base64 (p.encrypt key nonce text).0,
          h.hex nonce,
          h.hex (p.encrypt key nonce text).1,
          h.decrypts key nonce text,
        )
        (h.result_json result)

  -- An agent reads from its envelope the task that was put into it, and the coordinator reads from
  -- the encrypted result, with the key that it kept, the result that the agent put into it.
  pub exchange :
      (task : EnvelopeTask) (result : EnvelopeResult) (subtask_id agent seed : Ident)
      (metadata : EnvelopeMetadata) (nonce nonce' : Buffer)
      → let pair = generate_x25519_key_pair p agent in
        let (envelope, key) =
          create_task_envelope p task pair.public_key subtask_id metadata seed nonce in
        (decrypt_task_envelope p envelope pair.private_key ≡ some task)
        × (decrypt_result p (encrypt_result p result envelope pair.private_key nonce') key
            ≡ some result)
  exchange task result subtask_id agent seed metadata nonce nonce' =
      let pair = generate_x25519_key_pair p agent in
      let made = create_task_envelope p task pair.public_key subtask_id metadata seed nonce in
      (
        task_comes_through task subtask_id agent seed metadata nonce,
        result_comes_through result made.0 pair.private_key made.1 nonce'
            (create_key task subtask_id agent seed metadata nonce),
      )
