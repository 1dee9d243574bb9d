-- ===== src/Mesh/Protocol.antt =====
-- src/mesh/protocol.ts: the class `MeshProtocol`, which makes and checks the messages of src/common/
-- types.ts. The clock and `randomUUID` are arguments; `canonicalizeMessage` of src/mesh/peer.ts, the
-- JSON text of the fields, is a parameter, since the payload is any JSON object.
pub mod Replays
mod Tests
use edgecoder.Prelude.{
  ℕ, ◌+◌, Bool, true, false, not, List, [], ◌∷◌, ◌++◌, ltb, ◌==◌, if◌then◌else◌, Ident, length,
  contains,
}
use edgecoder.Ledger.Crypto.{Crypto, sign_payload, verify_payload}

pub data MeshMessageType : Type 0 where
  peer_announce queue_summary task_offer task_claim result_announce : MeshMessageType
  ordering_snapshot blacklist_update issuance_proposal issuance_vote issuance_commit :
      MeshMessageType
  issuance_checkpoint capability_summary peer_exchange capability_announce : MeshMessageType

-- A message without its signature; the payload is carried as a text.
pub record Unsigned : Type 0 where
  pub id : Ident
  pub kind : MeshMessageType
  pub from_peer_id : Ident
  pub issued_at_ms : ℕ
  pub ttl_ms : ℕ
  pub payload : Ident

pub record MeshMessage : Type 0 where
  pub fields : Unsigned
  pub signature : Ident

-- The `Set` of identifiers seen, in insertion order.
pub record MeshProtocol : Type 0 where
  pub seen_ids : List Ident

pub data ValidationReason : Type 0 where
  valid_message duplicate_message message_expired invalid_signature : ValidationReason

abbrev pub seen_cache_limit : ℕ
seen_cache_limit = 5000

abbrev pub fresh_protocol : MeshProtocol
fresh_protocol = record { seen_ids = [] }

-- `seenIds.add(id)`
abbrev pub add_id : Ident → List Ident → List Ident
add_id id seen = if contains id seen then seen else seen ++ id ∷ []

-- `const [first] = seenIds; if (first) seenIds.delete(first);`
abbrev pub drop_first : List Ident → List Ident
drop_first [] = []
drop_first (first ∷ seen) = if first == 0 then first ∷ seen else seen

pub remember : Ident → List Ident → List Ident
remember id seen =
    let added = add_id id seen in
    if ltb seen_cache_limit (length added) then drop_first added else added

module _ (c : Crypto) (canonicalize_message : Unsigned → Ident) where
  unfoldable pub create_message :
      Ident → MeshMessageType → Ident → Ident → Ident → ℕ → ℕ → MeshMessage
  create_message fresh kind from_peer_id payload private_key ttl_ms now =
      let unsigned : Unsigned = record {
        id = fresh;
        kind = kind;
        from_peer_id = from_peer_id;
        issued_at_ms = now;
        ttl_ms = ttl_ms;
        payload = payload;
      } in
      record {
        fields = unsigned;
        signature = sign_payload c (canonicalize_message unsigned) private_key;
      }

  unfoldable pub validate_message :
      MeshMessage → Ident → ℕ → MeshProtocol → MeshProtocol × ValidationReason
  validate_message message public_key now p =
      if contains message.fields.id p.seen_ids
      then (p, duplicate_message)
      else if ltb (message.fields.issued_at_ms + message.fields.ttl_ms) now
      then (p, message_expired)
      else if not
          (verify_payload c (canonicalize_message message.fields) message.signature public_key)
      then (p, invalid_signature)
      else (record { seen_ids = remember message.fields.id p.seen_ids }, valid_message)
