-- ===== src/Coordinator/Register/AuditLog.antt =====
-- src/swarm/coordinator.ts: the audit log that a coordinator writes passes the audit of
-- src/bootstrap/verify-blacklist-audit.ts.
use edgecoder.Prelude.{
  ℕ, ◌≡◌, ◌≢◌, inl, inr, refl, Bool, not, ◌&&◌, none, some, List, [], ◌∷◌, Ident, Dict, lookup,
  Bool-cases, Option-cases,
}
use edgecoder.Ledger.Crypto.{IsKeyPair, verify_payload-sign_payload}
use edgecoder.Security.AutoBlacklister.{BlacklistAction}
use edgecoder.Security.Blacklist.{
  BlacklistRecord, verify_events, verify_reporter_evidence_signature,
}
use edgecoder.Security.Blacklist.Audits.{
  IsSigned, IsAuditChain, verify_events_iff, IsAuditChain-append,
}
use edgecoder.Coordinator.Register.{
  Register, Identity, PostBody, new_register, active_blacklist_record, append_blacklist_record,
  is_expired, action_record, on_blacklist, post_record, post_blacklist, evidence_of,
  is_manual_review,
}

-- What a coordinator does of its own to its register, each with the identifier drawn and the clock.
pub data LocalCall : Type 0 where
  acts : BlacklistAction → Ident → ℕ → LocalCall
  posts : PostBody → Ident → ℕ → LocalCall
  looks_up : Ident → ℕ → LocalCall

module _ (me : Identity) where
  unfoldable pub step : LocalCall → Register → Register
  step (acts action event_id now) s = on_blacklist me action event_id now s
  step (posts body event_id now) s = (post_blacklist me body event_id now s).0
  step (looks_up agent_id now) s = (active_blacklist_record agent_id now s).0

  unfoldable pub run : List LocalCall → Register → Register
  run [] s = s
  run (c ∷ cs) s = run cs (step c s)

module _ (me : Identity) (keys : Dict Ident) (public : Ident)
    (known : lookup me.peer_id keys ≡ some public) (there : public ≢ 0)
    (pair : IsKeyPair me.crypto me.private_key_pem public) where
  action-IsSigned :
      (action : BlacklistAction) (event_id : Ident) (now : ℕ) (s : Register)
      → IsSigned me.crypto me.event_hash keys (action_record me action event_id now s)
  unfolding action_record
  action-IsSigned action event_id now s = (
    refl,
    (
      public,
      known,
      there,
      verify_payload-sign_payload me.crypto me.private_key_pem public
          (action_record me action event_id now s).event_hash pair,
    ),
  )

  post-IsSigned :
      (body : PostBody) (verified : Bool) (event_id : Ident) (now : ℕ) (s : Register)
      → IsSigned me.crypto me.event_hash keys (post_record me body verified event_id now s)
  unfolding post_record
  post-IsSigned body verified event_id now s = (
    refl,
    (
      public,
      known,
      there,
      verify_payload-sign_payload me.crypto me.private_key_pem public
          (post_record me body verified event_id now s).event_hash pair,
    ),
  )

  abbrev IsAudited : Ident → Register → Type 0
  IsAudited genesis s =
      IsAuditChain me.crypto me.event_hash keys s.last_blacklist_event_hash genesis
        s.blacklist_audit_log

  append-IsAudited :
      (genesis : Ident) (r : BlacklistRecord) (s : Register)
      → IsAudited genesis s
      → r.prev_event_hash ≡ s.last_blacklist_event_hash
      → IsSigned me.crypto me.event_hash keys r
      → IsAudited genesis (append_blacklist_record r s)
  unfolding append_blacklist_record
  append-IsAudited genesis r s h linked signed =
      IsAuditChain-append me.crypto me.event_hash keys s.last_blacklist_event_hash genesis
        s.blacklist_audit_log r h linked signed

  post-IsAudited :
      (genesis : Ident) (body : PostBody) (event_id : Ident) (now : ℕ) (s : Register)
      → IsAudited genesis s
      → IsAudited genesis (post_blacklist me body event_id now s).0
  unfolding post_blacklist post_record
  post-IsAudited genesis body event_id now s h =
      let verified =
        verify_reporter_evidence_signature me.crypto me.json (evidence_of body now)
          body.reporter_public_key_pem body.reporter_signature in
      let appended =
        append-IsAudited genesis (post_record me body verified event_id now s) s h refl
          (post-IsSigned body verified event_id now s) in
      elim (Bool-cases (not verified && not (is_manual_review body.reason_code))) [
        | inl e ↦ rw (e, post_blacklist) h
        | inr e ↦ rw (e, post_blacklist) appended
      ]

  lookup-IsAudited :
      (genesis agent_id : Ident) (now : ℕ) (s : Register)
      → IsAudited genesis s
      → IsAudited genesis (active_blacklist_record agent_id now s).0
  unfolding active_blacklist_record
  lookup-IsAudited genesis agent_id now s h =
      elim (Option-cases (lookup agent_id s.blacklist_by_agent)) [
        | inl e ↦ rw (e, active_blacklist_record) h
        | inr (r, e) ↦ elim (Bool-cases (is_expired now r)) [
          | inl x ↦ rw (e, x, active_blacklist_record) h
          | inr x ↦ rw (e, x, active_blacklist_record) h
        ]
      ]

  step-IsAudited :
      (genesis : Ident) (c : LocalCall) (s : Register)
      → IsAudited genesis s
      → IsAudited genesis (step me c s)
  unfolding step action_record
  step-IsAudited genesis (acts action event_id now) s h =
      append-IsAudited genesis (action_record me action event_id now s) s h refl
        (action-IsSigned action event_id now s)
  step-IsAudited genesis (posts body event_id now) s h =
      post-IsAudited genesis body event_id now s h
  step-IsAudited genesis (looks_up agent_id now) s h = lookup-IsAudited genesis agent_id now s h

  run-IsAudited :
      (genesis : Ident) (cs : List LocalCall) (s : Register)
      → IsAudited genesis s
      → IsAudited genesis (run me cs s)
  unfolding run
  run-IsAudited genesis [] s h = h
  run-IsAudited genesis (c ∷ cs) s h =
      run-IsAudited genesis cs (step me c s) (step-IsAudited genesis c s h)

  -- Whatever a coordinator records of its own, the audit accepts its log and the head that it serves,
  -- if the audit knows the public key of the coordinator, which is that of its private key.
  pub local_log_accepted :
      (genesis : Ident) (cs : List LocalCall)
      → let s = run me cs (new_register genesis) in
        verify_events me.crypto me.event_hash keys s.last_blacklist_event_hash genesis
          s.blacklist_audit_log
        ≡ none
  local_log_accepted genesis cs =
      let s = run me cs (new_register genesis) in
      (verify_events_iff me.crypto me.event_hash keys s.last_blacklist_event_hash genesis
          s.blacklist_audit_log).1
        (run-IsAudited genesis cs (new_register genesis) refl)
