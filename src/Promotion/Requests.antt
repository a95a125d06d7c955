-- ===== src/Promotion/Requests.antt =====
-- A request of the coordinator is accepted, and advances the proposal if it can
-- (loop_engine/promoter.py).
use shadows.Prelude.{
  if◌then◌else◌, Bool-cases, ◌==◌, number_eq, text_eq, eqb_refl, contains, ℕ, ◌+◌, ◌≤◌, ◌<◌, String,
  ◌≡◌, refl, ◌∙◌, subst, inl, inr, true, false, some, arith, eq_iff,
}
use shadows.Outcome.{Result, raise, ok, or_else}
use shadows.Kernel.State.{State, state_eq, is_legal}
use shadows.Kernel.Records.{VerificationReceipt, KernelDatabase}
use shadows.Kernel.Database.{
  get_proposal_state, raw_transition_proposal_state, execute_privileged_state_transition,
}
use shadows.Kernel.Database.Rows.{HasKey}
use shadows.Kernel.Database.Transitions.{
  raw_transition_effect, raw_transition_iff, raw_transition_state,
}
use shadows.Kernel.Authority.{Tcb, verify, issue_proof_witness, verify-issue}
use shadows.Kernel.Transition.{TransitionRequest, Verdict, Engine, is_accepted, claim_of, commit}
use shadows.Kernel.Transition.Verdicts.{passes_guards, accepted_commit}
use shadows.Promotion.{is_in, promotion_digest, signed_request, request_transition}
use shadows.Promotion.Steps.{advance, on_some, unmoved, is_in_iff, witness_name, Fresh, Moves}

module _ (tcb : Tcb) where
  module _ (gov token : String) (clock : ℕ → ℕ) (t : String) (from to : State)
      (receipt : VerificationReceipt) (e : Engine) where
    abbrev signed : TransitionRequest
    signed = signed_request tcb gov token clock e.drawn t from to receipt

    abbrev issued : Engine
    issued = record e { drawn = e.drawn + 1 }

    issued_name : signed.witness.witness_id ≡ witness_name tcb e.drawn
    unfolding issue_proof_witness
    issued_name = refl

    signed-verifies : verify tcb signed.witness (claim_of tcb signed) "PROMOTION" ≡ true
    signed-verifies =
        let digest = promotion_digest tcb gov token clock t from to receipt in
        rw (
          verify-issue tcb e.drawn (clock e.drawn) "loop_engine.promoter" digest "PROMOTION" digest
              "PROMOTION",
          eqb_refl digest,
        )

    not_spent :
        (count : ℕ)
        → Fresh tcb (count + 2) e
        → contains signed.witness.witness_id e.spent_witness_ids ≡ false
    not_spent count fresh = rw issued_name (fresh e.drawn (omega arith) (omega arith)).0

    signed-passes :
        (count : ℕ)
        → Fresh tcb (count + 2) e
        → is_legal from to ≡ true
        → passes_guards tcb gov token (clock (e.drawn + 1)) signed issued ≡ true
    signed-passes count fresh legal =
        rw (legal, not_spent count fresh, eqb_refl gov, signed-verifies)

    committed : Verdict × Engine
    committed = commit tcb gov token (clock (e.drawn + 1)) signed issued

    request_transition-eq :
        (count : ℕ)
        → Fresh tcb (count + 2) e
        → is_legal from to ≡ true
        → request_transition tcb gov token clock t from to receipt e
          ≡ (is_accepted committed.0, committed.1)
    unfolding request_transition committed
    request_transition-eq count fresh legal =
        rw
          (accepted_commit tcb gov token (clock (e.drawn + 1)) signed issued
            (signed-passes count fresh legal))
          refl

    Fresh-committed : (count : ℕ) → Fresh tcb (count + 2) e → Fresh tcb count committed.1
    unfolding committed
    Fresh-committed count fresh k later soon =
        let drawn_two : e.drawn + 1 + 1 ≤ k = later in
        let before : k < (e.drawn + 1 + 1) + count = soon in
        let (unspent, distinct) = fresh k (omega (arith, drawn_two)) (omega (arith, before)) in
        (
          rw (issued_name, unspent, distinct e.drawn (omega arith) (omega (arith, drawn_two))) refl,
          λ j from below.
              distinct j (let passed : e.drawn + 1 + 1 ≤ j = from in omega (arith, passed)) below,
        )

    abbrev step : Result KernelDatabase
    step = raw_transition_proposal_state (clock (e.drawn + 1)) t from to e.kernel_db

    committed-db : committed.1.kernel_db ≡ or_else step e.kernel_db
    unfolding committed execute_privileged_state_transition
    committed-db = rw (eqb_refl token)

    Advances : KernelDatabase → Type 0
    Advances db =
        HasKey db.proposals
        × ((j : String)
            → get_proposal_state j db ≡ (
                if t == j
                then on_some (advance from to) (get_proposal_state j e.kernel_db)
                else get_proposal_state j e.kernel_db))

    Advances-there :
        (db : KernelDatabase)
        → HasKey e.kernel_db.proposals
        → get_proposal_state t e.kernel_db ≡ some from
        → step ≡ ok db
        → Advances db
    unfolding Advances
    Advances-there db key at_from done = (
      (raw_transition_effect _ t from to e.kernel_db db key done).0,
      λ j. raw_transition_state _ t from to e.kernel_db db key done j ∙ reached j,
    )
      where
        reached :
            (j : String)
            → (if t == j then some to else get_proposal_state j e.kernel_db) ≡ (
                if t == j
                then on_some (advance from to) (get_proposal_state j e.kernel_db)
                else get_proposal_state j e.kernel_db)
        reached j = elim (Bool-cases (t == j)) [
          | inl same ↦
              rw
                (
                  same,
                  subst (λ k. get_proposal_state k e.kernel_db ≡ some from) ((eq_iff t j).0 same)
                      at_from,
                  (state_eq.eqb_iff from from).1 refl,
                )
                refl
          | inr other ↦ rw other
        ]

    Advances-elsewhere :
        HasKey e.kernel_db.proposals
        → is_in from (get_proposal_state t e.kernel_db) ≡ false
        → Advances e.kernel_db
    unfolding Advances
    Advances-elsewhere key elsewhere = (
      key,
      λ j. elim (Bool-cases (t == j)) [
        | inl same ↦
            rw
              (
                same,
                unmoved from to (get_proposal_state j e.kernel_db) (
                    subst (λ k. is_in from (get_proposal_state k e.kernel_db) ≡ false)
                      ((eq_iff t j).0 same) elsewhere),
              )
              refl
        | inr other ↦ rw other
      ],
    )

    Advances-committed :
        HasKey e.kernel_db.proposals → is_legal from to ≡ true → Advances committed.1.kernel_db
    Advances-committed key legal =
        rw committed-db (elim (Bool-cases (is_in from (get_proposal_state t e.kernel_db))) [
          | inl there ↦
              let at_from = (is_in_iff from (get_proposal_state t e.kernel_db)).0 there in
              let (db, done) =
                (raw_transition_iff (clock (e.drawn + 1)) t from to e.kernel_db key).1
                  (legal, at_from) in
              rw done (Advances-there db key at_from done)
          | inr elsewhere ↦ refused step refl elsewhere
        ])
      where
        refused :
            (m : Result KernelDatabase)
            → step ≡ m
            → is_in from (get_proposal_state t e.kernel_db) ≡ false
            → Advances (or_else m e.kernel_db)
        refused (raise _) done elsewhere = Advances-elsewhere key elsewhere
        refused (ok db) done elsewhere =
            let (_, at_from) =
              (raw_transition_iff (clock (e.drawn + 1)) t from to e.kernel_db key).0 (db, done) in
            cc ((is_in_iff from (get_proposal_state t e.kernel_db)).1 at_from, elsewhere)

    -- The request is accepted, and the proposal of `t` advances.
    pub request_transition-Moves :
        (count : ℕ)
        → HasKey e.kernel_db.proposals
        → Fresh tcb (count + 2) e
        → is_legal from to ≡ true
        → ((request_transition tcb gov token clock t from to receipt e).0 ≡ true)
          × Moves tcb count t
              (advance from to)
              e
              (request_transition tcb gov token clock t from to receipt e).1
    unfolding Advances committed
    request_transition-Moves count key fresh legal =
        let (key', at) = Advances-committed key legal in
        rw (request_transition-eq count fresh legal)
          (refl, record { key = key'; fresh = Fresh-committed count fresh; at = at })
