-- ===== src/Mesh/Protocol/Tests.antt =====
-- The theorems on mesh messages at concrete inputs.
use edgecoder.Prelude.{◌+◌, ◌≡◌, refl, some, [], ◌∷◌, ◌==◌, Ident, arith}
use edgecoder.Ledger.Crypto.{Crypto, verify_payload}
use edgecoder.Mesh.Protocol.{
  MeshMessage, Unsigned, task_claim, task_offer, valid_message, duplicate_message, fresh_protocol,
  create_message, validate_message,
}
use edgecoder.Mesh.Protocol.Replays.{created_accepted, accepted_once, validate_all}

-- Signatures that add the key to the payload; a key is its own public key.
abbrev adding : Crypto
adding = record {
  sign = λ payload key. payload + key;
  verify = λ payload key signature. some (signature == payload + key);
}

abbrev text : Unsigned → Ident
text m = m.id + m.issued_at_ms + m.payload

abbrev claim_message : MeshMessage
claim_message = record {
  fields = record {
    id = 4;
    kind = task_claim;
    from_peer_id = 2;
    issued_at_ms = 1000;
    ttl_ms = 30000;
    payload = 9;
  };
  signature = 1020;
}

abbrev offer_message : MeshMessage
offer_message = record {
  fields = record {
    id = 5;
    kind = task_offer;
    from_peer_id = 2;
    issued_at_ms = 1000;
    ttl_ms = 30000;
    payload = 9;
  };
  signature = 1021;
}

created_accepted_example :
    (validate_message adding text
      (create_message adding text 4 task_claim 2 9 7 30000 1000)
      7
      1500
      fresh_protocol).1
    ≡ valid_message
created_accepted_example =
    created_accepted adding text 4 task_claim 2 9 7 7 30000 1000 1500 fresh_protocol
      (λ payload. ground arith) refl (omega arith)

claim_accepted :
    (validate_message adding text claim_message 7 1500 fresh_protocol).1 ≡ valid_message
unfolding validate_message verify_payload
claim_accepted = refl

accepted_once_example :
    (validate_message adding text claim_message 7 1700 (
      validate_all adding text
        ((offer_message, 7, 1600) ∷ [])
        (validate_message adding text claim_message 7 1500 fresh_protocol).0)).1
    ≡ duplicate_message
accepted_once_example =
    accepted_once adding text claim_message 7 7 1500 1700 ((offer_message, 7, 1600) ∷ [])
      fresh_protocol claim_accepted (omega arith)
