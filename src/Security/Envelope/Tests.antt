-- ===== src/Security/Envelope/Tests.antt =====
-- The theorem on src/security/envelope.ts under a toy platform.
use edgecoder.Prelude.{
  ℕ, ◌+◌, ◌≡◌, refl, Bool, true, false, Option, none, some, [], ◌∷◌, ◌++◌, arith, Ident, length,
  drop, ◌==◌,
}
use edgecoder.Security.Envelope.{
  Buffer, EnvelopeMetadata, EnvelopeTask, EnvelopeResult, x25519_pkcs8_prefix, x25519_spki_prefix,
  Platform, generate_x25519_key_pair, create_task_envelope, decrypt_task_envelope, encrypt_result,
  decrypt_result,
}
use edgecoder.Security.Envelope.Exchange.{IsPlatform, exchange, drop-append}

-- A key of 32 bytes.
abbrev raw : Ident → Buffer
raw seed =
    seed ∷ 0 ∷ 0 ∷ 0 ∷ 0 ∷ 0 ∷ 0 ∷ 0 ∷ 0 ∷ 0 ∷ 0 ∷ 0 ∷ 0 ∷ 0 ∷ 0 ∷ 0 ∷ 0 ∷ 0 ∷ 0 ∷ 0 ∷ 0 ∷ 0 ∷ 0 ∷ 0
    ∷ 0 ∷ 0 ∷ 0 ∷ 0 ∷ 0 ∷ 0 ∷ 0 ∷ 0 ∷ []

abbrev head_or_0 : Buffer → ℕ
head_or_0 [] = 0
head_or_0 (b ∷ bs) = b

abbrev task_text : EnvelopeTask → Buffer
task_text t = t.input ∷ t.snapshot_ref ∷ t.kind ∷ []

abbrev read_task : Buffer → Option EnvelopeTask
read_task (i ∷ s ∷ k ∷ []) = some (record { input = i; snapshot_ref = s; kind = k })
read_task _ = none

abbrev error_text : Option Ident → Buffer
error_text none = []
error_text (some e) = e ∷ []

abbrev read_error : Buffer → Option Ident
read_error [] = none
read_error (e ∷ rest) = some e

abbrev flag : Bool → ℕ
flag true = 1
flag false = 0

abbrev result_text : EnvelopeResult → Buffer
result_text r = flag r.is_ok ∷ r.output ∷ r.duration_ms ∷ error_text r.error

abbrev read_result : Buffer → Option EnvelopeResult
read_result (f ∷ o ∷ d ∷ e) =
    some (record { is_ok = f == 1; output = o; error = read_error e; duration_ms = d })
read_result _ = none

read_error-error_text : (e : Option Ident) → read_error (error_text e) ≡ e
read_error-error_text none = refl
read_error-error_text (some e) = refl

flag_back : (b : Bool) → (flag b == 1) ≡ b
flag_back true = refl
flag_back false = refl

read_result-result_text : (r : EnvelopeResult) → read_result (result_text r) ≡ some r
read_result-result_text r = rw (flag_back r.is_ok, read_error-error_text r.error) refl

-- The shared secret is the sum of the seeds, and a ciphertext is the key and the text.
abbrev toy : Platform Buffer Buffer
toy = record {
  generate = λ seed. (x25519_spki_prefix ++ raw seed, x25519_pkcs8_prefix ++ raw seed);
  diffie_hellman =
      λ private public. (head_or_0 (drop 16 private) + head_or_0 (drop 12 public)) ∷ [];
  hkdf = λ secret salt. salt ∷ secret;
  encrypt = λ key nonce text. (key ++ text, nonce);
  decrypt = λ key ciphertext nonce tag. some (drop (length key) ciphertext);
  to_base64 = λ b. b;
  from_base64 = λ b. b;
  to_hex = λ b. b;
  from_hex = λ b. b;
  stringify_task = task_text;
  parse_task = read_task;
  stringify_result = result_text;
  parse_result = read_result;
}

sum_comm : (a b : ℕ) → ◌≡◌ {A = Buffer} ((a + b) ∷ []) ((b + a) ∷ [])
sum_comm a b = let e : a + b ≡ b + a = omega arith in rw e refl

toy-IsPlatform : IsPlatform toy
toy-IsPlatform = record {
  der = λ seed. (raw seed, raw seed, refl, refl, refl);
  agree = λ s t. sum_comm s t;
  decrypts = λ key nonce text. (let e = drop-append key text in rw e refl);
  base64 = λ b. refl;
  hex = λ b. refl;
  task_json = λ t. refl;
  result_json = read_result-result_text;
}

abbrev task : EnvelopeTask
task = record { input = 20; snapshot_ref = 21; kind = 22 }

abbrev result : EnvelopeResult
result = record { is_ok = true; output = 30; error = none; duration_ms = 900 }

abbrev metadata : EnvelopeMetadata
metadata = record { resource_class = none; priority = some 3; language = none; timeout_ms = none }

exchange_example :
    let pair = generate_x25519_key_pair toy 5 in
    let (envelope, key) = create_task_envelope toy task pair.public_key 11 metadata 6 (1 ∷ []) in
    (decrypt_task_envelope toy envelope pair.private_key ≡ some task)
    × (decrypt_result toy (encrypt_result toy result envelope pair.private_key (2 ∷ [])) key
        ≡ some result)
exchange_example = exchange toy toy-IsPlatform task result 11 5 6 metadata (1 ∷ []) (2 ∷ [])
