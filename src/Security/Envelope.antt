-- ===== src/Security/Envelope.antt =====
-- src/security/envelope.ts: the encryption of tasks for agents and of their results. node:crypto and
-- JSON are parameters; a Buffer is the list of its bytes.
pub mod Exchange
mod Tests
use edgecoder.Prelude.{ℕ, ◌-◌, Bool, Option, none, some, List, [], ◌∷◌, ◌++◌, Ident, length, drop}

abbrev pub Buffer : Type 0
Buffer = List ℕ

pub record X25519KeyPair : Type 0 where
  pub public_key : Buffer
  pub private_key : Buffer

pub record EnvelopeMetadata : Type 0 where
  pub resource_class : Option Ident
  pub priority : Option ℕ
  pub language : Option Ident
  pub timeout_ms : Option ℕ

-- `Base64` and `Hex` are the types of encoded texts.
pub record TaskEnvelope (Base64 Hex : Type 0) : Type 0 where
  pub subtask_id : Ident
  pub ephemeral_public_key : Base64
  pub encrypted_payload : Base64
  pub nonce : Hex
  pub tag : Hex
  pub metadata : EnvelopeMetadata

pub record EncryptedResult (Base64 Hex : Type 0) : Type 0 where
  pub subtask_id : Ident
  pub encrypted_payload : Base64
  pub nonce : Hex
  pub tag : Hex

pub record EnvelopeTask : Type 0 where
  pub input : Ident
  pub snapshot_ref : Ident
  pub kind : Ident

pub record EnvelopeResult : Type 0 where
  pub is_ok : Bool
  pub output : Ident
  pub error : Option Ident
  pub duration_ms : ℕ

abbrev pub x25519_pkcs8_prefix : Buffer
x25519_pkcs8_prefix = 48 ∷ 46 ∷ 2 ∷ 1 ∷ 0 ∷ 48 ∷ 5 ∷ 6 ∷ 3 ∷ 43 ∷ 101 ∷ 110 ∷ 4 ∷ 34 ∷ 4 ∷ 32 ∷ []

abbrev pub x25519_spki_prefix : Buffer
x25519_spki_prefix = 48 ∷ 42 ∷ 48 ∷ 5 ∷ 6 ∷ 3 ∷ 43 ∷ 101 ∷ 110 ∷ 3 ∷ 33 ∷ 0 ∷ []

-- What the code calls. `generate` gives the DER exports of the public and the private key that are
-- drawn; `decrypt` and the parsers throw (`none`) on what they cannot read.
pub record Platform (Base64 Hex : Type 0) : Type 0 where
  pub generate : Ident → Buffer × Buffer
  pub diffie_hellman : Buffer → Buffer → Buffer
  pub hkdf : Buffer → Ident → Buffer
  pub encrypt : Buffer → Buffer → Buffer → Buffer × Buffer
  pub decrypt : Buffer → Buffer → Buffer → Buffer → Option Buffer
  pub to_base64 : Buffer → Base64
  pub from_base64 : Base64 → Buffer
  pub to_hex : Buffer → Hex
  pub from_hex : Hex → Buffer
  pub stringify_task : EnvelopeTask → Buffer
  pub parse_task : Buffer → Option EnvelopeTask
  pub stringify_result : EnvelopeResult → Buffer
  pub parse_result : Buffer → Option EnvelopeResult

-- `buffer.subarray(-32)`
abbrev pub last_32 : Buffer → Buffer
last_32 b = drop (length b - 32) b

infixl 5 ◌>>=◌
-- What throws ends the function.
abbrev pub ◌>>=◌ : {A B : Type 0} → Option A → (A → Option B) → Option B
none >>= f = none
some a >>= f = f a

module _ {Base64 Hex : Type 0} (p : Platform Base64 Hex) where
  unfoldable pub generate_x25519_key_pair : Ident → X25519KeyPair
  generate_x25519_key_pair seed = record {
    public_key = last_32 (p.generate seed).0;
    private_key = last_32 (p.generate seed).1;
  }

  unfoldable pub derive_shared_key : Buffer → Buffer → Ident → Buffer
  derive_shared_key my_private_raw their_public_raw salt =
      p.hkdf
        (p.diffie_hellman (x25519_pkcs8_prefix ++ my_private_raw)
          (x25519_spki_prefix ++ their_public_raw))
        salt

  -- The envelope, and the key that the coordinator keeps. `seed` and `nonce` are drawn.
  unfoldable pub create_task_envelope :
      EnvelopeTask
      → Buffer
      → Ident
      → EnvelopeMetadata
      → Ident
      → Buffer
      → TaskEnvelope Base64 Hex × Buffer
  create_task_envelope task agent_public_key subtask_id metadata seed nonce =
      let ephemeral = generate_x25519_key_pair seed in
      let sym_key = derive_shared_key ephemeral.private_key agent_public_key subtask_id in
      let (ciphertext, tag) = p.encrypt sym_key nonce (p.stringify_task task) in
      (
        record {
          subtask_id = subtask_id;
          ephemeral_public_key = p.to_base64 ephemeral.public_key;
          encrypted_payload = p.to_base64 ciphertext;
          nonce = p.to_hex nonce;
          tag = p.to_hex tag;
          metadata = metadata;
        },
        sym_key,
      )

  abbrev pub envelope_key : TaskEnvelope Base64 Hex → Buffer → Buffer
  envelope_key envelope agent_private_key =
      derive_shared_key agent_private_key (p.from_base64 envelope.ephemeral_public_key)
        envelope.subtask_id

  unfoldable pub decrypt_task_envelope : TaskEnvelope Base64 Hex → Buffer → Option EnvelopeTask
  decrypt_task_envelope envelope agent_private_key = do
    plaintext ←
        p.decrypt (envelope_key envelope agent_private_key)
          (p.from_base64 envelope.encrypted_payload) (p.from_hex envelope.nonce)
          (p.from_hex envelope.tag)
    p.parse_task plaintext

  unfoldable pub encrypt_result :
      EnvelopeResult → TaskEnvelope Base64 Hex → Buffer → Buffer → EncryptedResult Base64 Hex
  encrypt_result result envelope agent_private_key nonce =
      let (ciphertext, tag) =
        p.encrypt (envelope_key envelope agent_private_key) nonce (p.stringify_result result) in
      record {
        subtask_id = envelope.subtask_id;
        encrypted_payload = p.to_base64 ciphertext;
        nonce = p.to_hex nonce;
        tag = p.to_hex tag;
      }

  unfoldable pub decrypt_result : EncryptedResult Base64 Hex → Buffer → Option EnvelopeResult
  decrypt_result enc_result shared_key = do
    plaintext ←
        p.decrypt shared_key (p.from_base64 enc_result.encrypted_payload)
          (p.from_hex enc_result.nonce) (p.from_hex enc_result.tag)
    p.parse_result plaintext
