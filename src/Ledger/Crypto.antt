-- ===== src/Ledger/Crypto.antt =====
-- src/mesh/peer.ts: `signPayload` and `verifyPayload`, over the signatures of node:crypto.
use edgecoder.Prelude.{◌≡◌, Bool, true, false, Option, some, Ident, or_else}

-- What node:crypto gives: `sign(null, payload, key)`, and `verify(null, payload, key, signature)`,
-- which may throw (`none`). Texts and keys are identifiers, since they are only handed on.
pub record Crypto : Type 0 where
  pub sign : Ident → Ident → Ident
  pub verify : Ident → Ident → Ident → Option Bool

-- A private key and its public key: what the one signs the other accepts.
abbrev pub IsKeyPair : Crypto → Ident → Ident → Type 0
IsKeyPair c private public =
    (payload : Ident) → c.verify payload public (c.sign payload private) ≡ some true

unfoldable pub sign_payload : Crypto → Ident → Ident → Ident
sign_payload c payload private = c.sign payload private

unfoldable pub verify_payload : Crypto → Ident → Ident → Ident → Bool
verify_payload c payload signature public = or_else (c.verify payload public signature) false

pub verify_payload-sign_payload :
    (c : Crypto) (private public payload : Ident)
    → IsKeyPair c private public
    → verify_payload c payload (sign_payload c payload private) public ≡ true
unfolding sign_payload verify_payload
verify_payload-sign_payload c private public payload pair = rw (pair payload)
