-- ===== src/Ledger/Chain.antt =====
-- src/ledger/record.ts, src/ledger/chain.ts and src/ledger/verify.ts: the ordering chain of a
-- coordinator. `digest` is the SHA-256 hash of the JSON text of a payload, as an identifier; the
-- clock and `randomUUID` are arguments.
pub mod Validity
pub mod Tampering
use edgecoder.Prelude.{
  ℕ, suc, ◌+◌, Bool, true, false, not, Option, none, some, List, [], ◌∷◌, ◌++◌, Ident, ◌==◌,
  if◌then◌else◌, length,
}
use edgecoder.Ledger.Crypto.{Crypto, sign_payload, verify_payload}

pub data QueueEventType : Type 0 where
  task_enqueue task_claim task_complete task_requeue node_approval node_validation : QueueEventType
  earnings_accrual stats_checkpoint_proposal stats_checkpoint_signature : QueueEventType
  stats_checkpoint_commit : QueueEventType

-- What is hashed, in the order of the JSON text.
pub record Payload : Type 0 where
  pub event_type : QueueEventType
  pub task_id : Ident
  pub subtask_id : Option Ident
  pub actor_id : Ident
  pub sequence : ℕ
  pub issued_at_ms : ℕ
  pub prev_hash : Ident
  pub coordinator_id : Option Ident
  pub checkpoint_height : Option ℕ
  pub checkpoint_hash : Option Ident
  pub payload_json : Option Ident

pub record QueueEventRecord : Type 0 where
  pub id : Ident
  pub payload : Payload
  pub hash : Ident
  pub signature : Ident

-- The argument of `append`.
pub record Event : Type 0 where
  pub event_type : QueueEventType
  pub task_id : Ident
  pub subtask_id : Option Ident
  pub actor_id : Ident
  pub coordinator_id : Option Ident
  pub checkpoint_height : Option ℕ
  pub checkpoint_hash : Option Ident
  pub payload_json : Option Ident

pub record OrderingChain : Type 0 where
  pub records : List QueueEventRecord
  pub signer_peer_id : Ident
  pub signer_private_key : Ident

pub data Reason : Type 0 where
  invalid_sequence invalid_prev_hash hash_mismatch invalid_signature : Reason

-- The text "GENESIS"; which number it has does not matter.
abbrev pub genesis : Ident
genesis = 7

abbrev pub last_or {ℓ} : {A : Type ℓ} → A → List A → A
last_or d [] = d
last_or d (x ∷ xs) = last_or x xs

abbrev pub hashes : List QueueEventRecord → List Ident
hashes [] = []
hashes (r ∷ rs) = r.hash ∷ hashes rs

module _ (c : Crypto) (digest : Payload → Ident) where
  pub create_record : Ident → Payload → Ident → QueueEventRecord
  create_record id payload private_key = record {
    id = id;
    payload = payload;
    hash = digest payload;
    signature = sign_payload c (digest payload) private_key;
  }

  pub next_payload : Event → ℕ → List QueueEventRecord → Payload
  next_payload event now records = record {
    event_type = event.event_type;
    task_id = event.task_id;
    subtask_id = event.subtask_id;
    actor_id = event.actor_id;
    sequence = length records + 1;
    issued_at_ms = now;
    prev_hash = last_or genesis (hashes records);
    coordinator_id = event.coordinator_id;
    checkpoint_height = event.checkpoint_height;
    checkpoint_hash = event.checkpoint_hash;
    payload_json = event.payload_json;
  }

  pub append : Event → Ident → ℕ → OrderingChain → OrderingChain × QueueEventRecord
  unfolding create_record next_payload
  append event fresh now chain =
      let r = create_record fresh (next_payload event now chain.records) chain.signer_private_key in
      (record chain { records = chain.records ++ r ∷ [] }, r)

  -- The tests of one round of the loop, in their order.
  unfoldable pub check_record : ℕ → Ident → Ident → QueueEventRecord → Option Reason
  check_record expected prev_hash public_key r =
      if not (r.payload.sequence == expected)
      then some invalid_sequence
      else if not (r.payload.prev_hash == prev_hash)
      then some invalid_prev_hash
      else if not (digest r.payload == r.hash)
      then some hash_mismatch
      else if not (verify_payload c r.hash r.signature public_key)
      then some invalid_signature
      else none

  -- The loop from place `i` on.
  pub verify_from : ℕ → Ident → Ident → List QueueEventRecord → Option Reason
  verify_from i prev_hash public_key [] = none
  verify_from i prev_hash public_key (r ∷ rs) = elim (check_record (i + 1) prev_hash public_key r) [
    | some reason ↦ some reason
    | none ↦ verify_from (i + 1) r.hash public_key rs
  ]

  -- `none` stands for `{ ok: true }`.
  unfoldable pub verify_ordering_chain : List QueueEventRecord → Ident → Option Reason
  unfolding verify_from
  verify_ordering_chain records public_key = verify_from 0 genesis public_key records

pub record Proof : Type 0 where
  pub record_id : Ident
  pub hash : Ident
  pub prev_hash : Ident
  pub sequence : ℕ
  pub signer_peer_id : Ident

abbrev last? {ℓ} : {A : Type ℓ} → List A → Option A
last? [] = none
last? (x ∷ xs) = some (last_or x xs)

pub latest_proof : OrderingChain → Option Proof
latest_proof chain = elim (last? chain.records) [
  | none ↦ none
  | some latest ↦ some (record {
    record_id = latest.id;
    hash = latest.hash;
    prev_hash = latest.payload.prev_hash;
    sequence = latest.payload.sequence;
    signer_peer_id = chain.signer_peer_id;
  })
]
