-- ===== src/Credits/Engine/Histories.antt =====
-- src/credits/engine.ts: balances and reports over histories of calls.
use edgecoder.Prelude.{
  ℕ, ◌+◌, ◌≤◌, ◌≡◌, inl, inr, refl, ap, ◌∙◌, true, Option, none, some, List, [], ◌∷◌, ◌++◌, arith,
  ltb, ltb→le, ◌==◌, ==→eq, ==_refl, if◌then◌else◌, Ident, or_else, contains, lookup-insert, err,
  Bool-cases,
}
use edgecoder.Credits.Engine.{
  LoadSnapshot, ComputeContributionReport, CreditTransaction, TxType, earn, spends, TxReason,
  compute_contribution, given, CreditEngine, new_engine, history, earned_in, spent_in, balance,
  add_tx, duplicate_contribution_report, earned_credits, accrue, spend, adjust, gain,
}

-- The calls of an engine but for adjustments by a negative number.
pub data Call : Type 0 where
  accrues : ComputeContributionReport → LoadSnapshot → Ident → ℕ → Call
  pays : Ident → ℕ → Ident → Option Ident → Ident → ℕ → Call
  grants : Ident → ℕ → Ident → Ident → ℕ → Call

module _ (to_fixed : ℕ → ℕ → ℕ → ℕ → ℕ) where
  unfoldable pub step : Call → CreditEngine → CreditEngine
  step (accrues report load fresh now) e = (accrue to_fixed report load fresh now e).0
  step (pays account credits reason task fresh now) e =
      (spend account credits reason task fresh now e).0
  step (grants account credits reason fresh now) e =
      (adjust account (gain credits) reason fresh now e).0

  unfoldable pub run : List Call → CreditEngine → CreditEngine
  run [] e = e
  run (c ∷ cs) e = run cs (step c e)

  earned-append :
      (txs : List CreditTransaction) (tx : CreditTransaction)
      → earned_in (txs ++ tx ∷ []) ≡ earned_in txs + earned_in (tx ∷ [])
  earned-append [] tx = omega arith
  earned-append (x ∷ txs) tx = ground (arith, earned-append txs tx)

  spent-append :
      (txs : List CreditTransaction) (tx : CreditTransaction)
      → spent_in (txs ++ tx ∷ []) ≡ spent_in txs + spent_in (tx ∷ [])
  spent-append [] tx = omega arith
  spent-append (x ∷ txs) tx = ground (arith, spent-append txs tx)

  module _ (account : Ident) (credits : ℕ) (reason : TxReason) (task : Option Ident) (fresh : Ident)
      (now : ℕ) (e : CreditEngine) where
    history-add_tx :
        (type : TxType) (a : Ident)
        → history a (add_tx account type credits reason task fresh now e).0 ≡ (
            if account == a
            then history account e ++ (add_tx account type credits reason task fresh now e).1 ∷ []
            else history a e)
    unfolding add_tx
    history-add_tx type a =
        let tx = (add_tx account type credits reason task fresh now e).1 in
        elim (Bool-cases (account == a)) [
          | inl same ↦ rw same (
              ap (λ o. or_else o [])
                (lookup-insert account a (history account e ++ tx ∷ []) e.tx_by_account)
              ∙ rw same refl)
          | inr apart ↦ rw apart (
              ap (λ o. or_else o [])
                (lookup-insert account a (history account e ++ tx ∷ []) e.tx_by_account)
              ∙ rw apart refl)
        ]

    balance-earn :
        (a : Ident)
        → ((balance a (add_tx account earn credits reason task fresh now e).0).0
            ≡ (balance a e).0 + (if account == a then credits else 0))
          × ((balance a (add_tx account earn credits reason task fresh now e).0).1
              ≡ (balance a e).1)
    unfolding add_tx
    balance-earn a =
        let tx = (add_tx account earn credits reason task fresh now e).1 in
        let h = history-add_tx earn a in
        let i = earned-append (history account e) tx in
        let s = spent-append (history account e) tx in
        elim (Bool-cases (account == a)) [
          | inl same ↦
              let id = ==→eq account a same in
              (
                ap earned_in h ∙ rw same (i ∙ rw id (omega arith)),
                ap spent_in h ∙ rw same (s ∙ rw id (omega arith)),
              )
          | inr apart ↦
              (ap earned_in h ∙ rw apart (omega arith), ap spent_in h ∙ rw apart (omega arith))
        ]

    balance-spends :
        (a : Ident)
        → ((balance a (add_tx account spends credits reason task fresh now e).0).0
            ≡ (balance a e).0)
          × ((balance a (add_tx account spends credits reason task fresh now e).0).1
              ≡ (balance a e).1 + (if account == a then credits else 0))
    unfolding add_tx
    balance-spends a =
        let tx = (add_tx account spends credits reason task fresh now e).1 in
        let h = history-add_tx spends a in
        let i = earned-append (history account e) tx in
        let s = spent-append (history account e) tx in
        elim (Bool-cases (account == a)) [
          | inl same ↦
              let id = ==→eq account a same in
              (
                ap earned_in h ∙ rw same (i ∙ rw id (omega arith)),
                ap spent_in h ∙ rw same (s ∙ rw id (omega arith)),
              )
          | inr apart ↦
              (ap earned_in h ∙ rw apart (omega arith), ap spent_in h ∙ rw apart (omega arith))
        ]

  -- No account has spent more than it earned.
  abbrev IsCovered : CreditEngine → Type 0
  IsCovered e = (a : Ident) → (balance a e).1 ≤ (balance a e).0

  earns-IsCovered :
      (account : Ident) (credits : ℕ) (reason : TxReason) (task : Option Ident) (fresh : Ident)
      (now : ℕ) (e : CreditEngine)
      → IsCovered e
      → IsCovered (add_tx account earn credits reason task fresh now e).0
  earns-IsCovered account credits reason task fresh now e h a =
      let (i, s) = balance-earn account credits reason task fresh now e a in
      omega (arith, h a, i, s)

  spends-IsCovered :
      (account : Ident) (credits : ℕ) (reason : TxReason) (task : Option Ident) (fresh : Ident)
      (now : ℕ) (e : CreditEngine)
      → IsCovered e
      → (balance account e).1 + credits ≤ (balance account e).0
      → IsCovered (add_tx account spends credits reason task fresh now e).0
  spends-IsCovered account credits reason task fresh now e h enough a =
      let (i, s) = balance-spends account credits reason task fresh now e a in
      elim (Bool-cases (account == a)) [
        | inl same ↦
            let id = ==→eq account a same in
            let enough' : (balance a e).1 + credits ≤ (balance a e).0 = rw id at enough in
            let k : (if account == a then credits else 0) ≡ credits = rw same refl in
            omega (arith, i, s, k, enough')
        | inr apart ↦
            let k : (if account == a then credits else 0) ≡ 0 = rw apart refl in
            omega (arith, h a, i, s, k)
      ]

  accrue-IsCovered :
      (report : ComputeContributionReport) (load : LoadSnapshot) (fresh : Ident) (now : ℕ)
      (e : CreditEngine)
      → IsCovered e
      → IsCovered (accrue to_fixed report load fresh now e).0
  unfolding accrue
  accrue-IsCovered report load fresh now e h =
      elim (Bool-cases (contains report.report_id e.seen_reports)) [
        | inl seen ↦ rw (seen, accrue) h
        | inr new ↦
            rw (new, accrue)
              (earns-IsCovered report.agent_id (earned_credits to_fixed report load)
                compute_contribution (some report.task_id) fresh now
                (record e { seen_reports = report.report_id ∷ e.seen_reports }) h)
      ]

  spend-IsCovered :
      (account : Ident) (credits : ℕ) (reason : Ident) (task : Option Ident) (fresh : Ident)
      (now : ℕ) (e : CreditEngine)
      → IsCovered e
      → IsCovered (spend account credits reason task fresh now e).0
  unfolding spend
  spend-IsCovered account credits reason task fresh now e h =
      let b = balance account e in
      elim (Bool-cases (ltb b.0 (b.1 + credits))) [
        | inl short ↦ rw (short, spend) h
        | inr enough ↦
            rw (enough, spend)
              (spends-IsCovered account credits (given reason) task fresh now e h
                (ltb→le b.0 (b.1 + credits) enough))
      ]

  step-IsCovered : (c : Call) (e : CreditEngine) → IsCovered e → IsCovered (step c e)
  unfolding step adjust
  step-IsCovered (accrues report load fresh now) e h = accrue-IsCovered report load fresh now e h
  step-IsCovered (pays account credits reason task fresh now) e h =
      spend-IsCovered account credits reason task fresh now e h
  step-IsCovered (grants account credits reason fresh now) e h =
      earns-IsCovered account credits (given reason) none fresh now e h

  run-IsCovered : (cs : List Call) (e : CreditEngine) → IsCovered e → IsCovered (run cs e)
  unfolding run
  run-IsCovered [] e h = h
  run-IsCovered (c ∷ cs) e h = run-IsCovered cs (step c e) (step-IsCovered c e h)

  -- Over any history of accruals, payments and adjustments that are not negative, no account has
  -- spent more than it earned.
  pub never_overdrawn :
      (cs : List Call) (account : Ident)
      → (balance account (run cs new_engine)).1 ≤ (balance account (run cs new_engine)).0
  never_overdrawn cs account = run-IsCovered cs new_engine (λ a. omega arith) account

  -- Reports that were seen are never forgotten.
  step-seen :
      (id : Ident) (c : Call) (e : CreditEngine)
      → contains id e.seen_reports ≡ true
      → contains id (step c e).seen_reports ≡ true
  unfolding step accrue spend adjust add_tx
  step-seen id (accrues report load fresh now) e h = ground arith
  step-seen id (pays account credits reason task fresh now) e h = ground arith
  step-seen id (grants account credits reason fresh now) e h = h

  run-seen :
      (id : Ident) (cs : List Call) (e : CreditEngine)
      → contains id e.seen_reports ≡ true
      → contains id (run cs e).seen_reports ≡ true
  unfolding run
  run-seen id [] e h = h
  run-seen id (c ∷ cs) e h = run-seen id cs (step c e) (step-seen id c e h)

  accrue-seen :
      (report : ComputeContributionReport) (load : LoadSnapshot) (fresh : Ident) (now : ℕ)
      (e : CreditEngine)
      → contains report.report_id (accrue to_fixed report load fresh now e).0.seen_reports ≡ true
  unfolding accrue add_tx
  accrue-seen report load fresh now e = ground (arith, ==_refl report.report_id)

  accrue_refuses :
      (report : ComputeContributionReport) (load : LoadSnapshot) (fresh : Ident) (now : ℕ)
      (e : CreditEngine)
      → contains report.report_id e.seen_reports ≡ true
      → accrue to_fixed report load fresh now e ≡ (e, err duplicate_contribution_report)
  unfolding accrue
  accrue_refuses report load fresh now e seen = rw seen refl

  -- A contribution that was reported is refused under its identifier ever after, whatever it says and
  -- whatever calls come in between, and changes nothing.
  pub credited_once :
      (report again : ComputeContributionReport) (load load' : LoadSnapshot)
      (fresh fresh' now now' : ℕ) (cs : List Call) (e : CreditEngine)
      → again.report_id ≡ report.report_id
      → let later = run cs (accrue to_fixed report load fresh now e).0 in
        accrue to_fixed again load' fresh' now' later ≡ (later, err duplicate_contribution_report)
  credited_once report again load load' fresh fresh' now now' cs e same =
      let later = run cs (accrue to_fixed report load fresh now e).0 in
      accrue_refuses again load' fresh' now' later (
        rw same (
          run-seen report.report_id cs (accrue to_fixed report load fresh now e).0
            (accrue-seen report load fresh now e)))
