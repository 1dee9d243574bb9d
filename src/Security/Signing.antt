-- ===== src/Security/Signing.antt =====
-- src/security/request-signing.ts. A text is a number here, so what JavaScript makes of texts is a
-- parameter: the text of a number, the number of a text, and the text that is joined for signing.
use edgecoder.Prelude.{ℕ, ◌≡◌, Bool, not, ◌&&◌, Option, none, some, if◌then◌else◌, Ident, truthy}
use edgecoder.Ledger.Crypto.{Crypto}
use edgecoder.Security.Nonce.{JsNumber, whole, exceeds}

pub record SignedHeaders : Type 0 where
  pub agent_id : Ident
  pub timestamp_ms : Ident
  pub nonce : Ident
  pub body_sha256 : Ident
  pub signature : Ident

-- The parts of the text that is signed.
pub record Canonical : Type 0 where
  pub timestamp_ms : Ident
  pub nonce : Ident
  pub method : Ident
  pub path : Ident
  pub body_hash : Ident

-- `String(n)`, and `Number(text)`, which reads back the text of a number.
pub record JsTexts : Type 0 where
  pub string : ℕ → Ident
  pub number : Ident → JsNumber

abbrev pub ReadsBack : JsTexts → Type 0
ReadsBack js = (n : ℕ) → js.number (js.string n) ≡ whole n

pub data VerifyResult : Type 0 where
  missing_headers timestamp_skew invalid_signature : VerifyResult
  verified : Ident → Ident → VerifyResult

abbrev pub headers_complete : SignedHeaders → Bool
headers_complete h =
    truthy (some h.timestamp_ms)
    && (truthy (some h.nonce)
        && (truthy (some h.body_sha256) && (truthy (some h.signature) && truthy (some h.agent_id))))

module _ (crypto : Crypto) (js : JsTexts) (canonicalize : Canonical → Ident) where
  unfoldable pub sign_request : Ident → Ident → Ident → Ident → Ident → ℕ → Ident → SignedHeaders
  sign_request method path body_hash private_key_pem agent_id now fresh = record {
    agent_id = agent_id;
    timestamp_ms = js.string now;
    nonce = fresh;
    body_sha256 = body_hash;
    signature =
        crypto.sign
          (canonicalize (record {
            timestamp_ms = js.string now;
            nonce = fresh;
            method = method;
            path = path;
            body_hash = body_hash;
          }))
          private_key_pem;
  }

  -- `none` is the error that the platform throws on a key it cannot read.
  unfoldable pub verify_signed_request :
      Ident → Ident → SignedHeaders → Ident → ℕ → ℕ → Option VerifyResult
  verify_signed_request method path h public_key_pem max_skew_ms now =
      if not (headers_complete h)
      then some missing_headers
      else if exceeds max_skew_ms now (js.number h.timestamp_ms)
      then some timestamp_skew
      else elim (crypto.verify
          (canonicalize (record {
            timestamp_ms = h.timestamp_ms;
            nonce = h.nonce;
            method = method;
            path = path;
            body_hash = h.body_sha256;
          }))
          public_key_pem h.signature) [
            | none ↦ none
            | some ok ↦ if ok then some (verified h.agent_id h.nonce) else some invalid_signature
          ]
