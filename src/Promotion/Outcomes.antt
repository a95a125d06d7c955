-- ===== src/Promotion/Outcomes.antt =====
-- What `promote` returns and where it leaves the proposal, on every branch.
use shadows.Prelude.{
  if◌then◌else◌, Bool-cases, ◌==◌, number_eq, text_eq, eqb_refl, contains, ℕ, String, ◌≡◌, refl, ap,
  ◌∙◌, subst, ◌≢◌, inl, inr, Bool, true, false, not, ◌&&◌, some, arith, eq_iff,
}
use shadows.Outcome.{ok}
use shadows.Kernel.State.{
  State, verified, rejected, promotion_pending, promoted, post_promotion_verified, state_eq,
}
use shadows.Kernel.Records.{ProposalManifest, VerificationReceipt}
use shadows.Kernel.Database.{get_proposal, get_proposal_state, moved}
use shadows.Kernel.Database.Rows.{HasKey}
use shadows.Kernel.Ledger.{get_verified_receipt}
use shadows.Kernel.Authority.{Tcb}
use shadows.Kernel.Transition.{Engine}
use shadows.Promotion.{
  Repository, number, run_post_promotion_verification, stands_on_base, log_step, request_transition,
  confirm, merge_forward, enter_pending, promote_number, promote,
}
use shadows.Promotion.Steps.{advance, Fresh, Fresh-fewer, Moves, Moves-trans, Moves-log}
use shadows.Kernel.Database.Transitions.{get_proposal_state-eq_state_of}
use shadows.Promotion.Requests.{request_transition-Moves}
use shadows.Promotion.Journey.{
  settle, forward, destination, forward-destination, bystanders, stands_by,
}

module _ {A : Type 0} (a b : Bool) (x y : A) where
  unless_both : (a && b) ≡ false → (if not a then x else if not b then x else y) ≡ x
  unless_both h = ground arith

  when_both : (a && b) ≡ true → (if not a then x else if not b then x else y) ≡ y
  when_both h = ground arith

module _ (repo : Repository) where
  -- The candidate is checked out and merged.
  unfoldable pub is_merged : VerificationReceipt → Bool
  is_merged receipt = repo.checks_out && repo.merges receipt.candidate_commit_sha

  abbrev pub confirmed : State → State
  confirmed = settle (run_post_promotion_verification repo)

  abbrev pub forwarded : VerificationReceipt → State → State
  forwarded receipt = forward (is_merged receipt) (run_post_promotion_verification repo)

  -- Where the steps of a promotion lead a proposal from the state that it is in.
  abbrev pub journey : VerificationReceipt → State → State
  journey receipt s = forwarded receipt (advance verified promotion_pending s)

  abbrev pub succeeds : VerificationReceipt → Bool
  succeeds receipt = is_merged receipt && run_post_promotion_verification repo

  module _ (tcb : Tcb) (gov token : String) (clock : ℕ → ℕ) (t : String)
      (receipt : VerificationReceipt) where
    confirm-Moves :
        (e : Engine)
        → HasKey e.kernel_db.proposals
        → Fresh tcb 2 e
        → ((confirm tcb gov token clock repo t receipt e).0 ≡ run_post_promotion_verification repo)
          × Moves tcb 0 t confirmed e (confirm tcb gov token clock repo t receipt e).1
    unfolding confirm
    confirm-Moves e key fresh = elim (Bool-cases (run_post_promotion_verification repo)) [
      | inr fails ↦
          let (_, m) =
            request_transition-Moves tcb gov token clock t promoted rejected receipt e 0 key fresh
              refl in
          rw fails (refl, m)
      | inl runs ↦
          let (moved, m) =
            request_transition-Moves tcb gov token clock t promoted post_promotion_verified receipt
              e 0 key fresh refl in
          rw (runs, moved)
            (
              refl,
              Moves-log tcb 0 clock repo.target_branch t receipt.candidate_commit_sha
                  post_promotion_verified t _ e _ m,
            )
    ]

    not_merged :
        (e : Engine)
        → is_merged receipt ≡ false
        → merge_forward tcb gov token clock repo t receipt e ≡ (
          false,
          (request_transition tcb gov token clock t promotion_pending verified receipt e).1,
        )
    unfolding merge_forward is_merged
    not_merged e h = unless_both repo.checks_out (repo.merges receipt.candidate_commit_sha) _ _ h

    merged :
        (e : Engine)
        → is_merged receipt ≡ true
        → merge_forward tcb gov token clock repo t receipt e ≡ (
            let (moved, e') =
              request_transition tcb gov token clock t promotion_pending promoted receipt e in
            if not moved
            then (false, e')
            else confirm tcb gov token clock repo t receipt
                (log_step clock repo.target_branch t receipt.candidate_commit_sha promoted e'))
    unfolding merge_forward is_merged
    merged e h = when_both repo.checks_out (repo.merges receipt.candidate_commit_sha) _ _ h

    merge_forward-Moves :
        (e : Engine)
        → HasKey e.kernel_db.proposals
        → Fresh tcb 4 e
        → ((merge_forward tcb gov token clock repo t receipt e).0 ≡ succeeds receipt)
          × Moves tcb 0 t
              (forwarded receipt)
              e
              (merge_forward tcb gov token clock repo t receipt e).1
    merge_forward-Moves e key fresh = elim (Bool-cases (is_merged receipt)) [
      | inr fails ↦
          let (_, back) =
            request_transition-Moves tcb gov token clock t promotion_pending verified receipt e 0
              key (Fresh-fewer tcb 2 e fresh) refl in
          rw (not_merged e fails, fails) (refl, back)
      | inl goes ↦
          let (moved, m) =
            request_transition-Moves tcb gov token clock t promotion_pending promoted receipt e 2
              key fresh refl in
          let logged =
            Moves-log tcb 2 clock repo.target_branch t receipt.candidate_commit_sha promoted t
              (advance promotion_pending promoted) e _ m in
          let (result, n) = confirm-Moves _ logged.key logged.fresh in
          rw (merged e goes, moved, goes) (result, Moves-trans tcb 2 0 t _ confirmed e _ _ logged n)
    ]

    enter_pending-Moves :
        (e : Engine)
        → HasKey e.kernel_db.proposals
        → Fresh tcb 6 e
        → ((enter_pending tcb gov token clock repo t receipt e).0 ≡ succeeds receipt)
          × Moves tcb 0 t (journey receipt) e (enter_pending tcb gov token clock repo t receipt e).1
    unfolding enter_pending
    enter_pending-Moves e key fresh =
        let (moved, m) =
          request_transition-Moves tcb gov token clock t verified promotion_pending receipt e 4 key
            fresh refl in
        let logged =
          Moves-log tcb 4 clock repo.target_branch t receipt.candidate_commit_sha promotion_pending
            t (advance verified promotion_pending) e _ m in
        let (result, n) = merge_forward-Moves _ logged.key logged.fresh in
        rw moved (result, Moves-trans tcb 4 0 t _ (forwarded receipt) e _ _ logged n)

    module _ (n : ℕ) (proposal : ProposalManifest) (e : Engine) where
      -- What is stored: a VERIFIED receipt of the task under the number, and the proposal.
      pub record IsReady : Type 0 where
        pub key : HasKey e.kernel_db.proposals
        pub fresh : Fresh tcb 6 e
        pub stored : get_verified_receipt n e.kernel_db ≡ some receipt
        pub of_task : (receipt.task_id == t) ≡ true
        pub is_verified : (receipt.status == verified) ≡ true
        pub found : get_proposal t e.kernel_db ≡ some proposal
        pub on_base : stands_on_base repo proposal ≡ true

      state_found : IsReady → get_proposal_state t e.kernel_db ≡ some proposal.state
      state_found ready = rw (get_proposal_state-eq_state_of t e.kernel_db, ready.found)

      not_final : (s : State) → s ≢ post_promotion_verified → (s == post_promotion_verified) ≡ false
      not_final s other = elim (Bool-cases (s == post_promotion_verified)) [
        | inl same ↦ absurd (other ((state_eq.eqb_iff s post_promotion_verified).0 same))
        | inr differs ↦ differs
      ]

      promote-enter :
          IsReady
          → proposal.state ≢ post_promotion_verified
          → promote tcb gov token clock repo t (number n) e
            ≡ ok (enter_pending tcb gov token clock repo t receipt e)
      unfolding promote promote_number
      promote-enter ready not_yet = rw (
        promote,
        promote_number,
        ready.stored,
        ready.of_task,
        ready.is_verified,
        ready.found,
        state_found ready,
        not_final proposal.state not_yet,
        ready.on_base,
      )

      promote-Moves :
          IsReady
          → proposal.state ≢ post_promotion_verified
          → (e' : Engine) × (promote tcb gov token clock repo t (number n) e
              ≡ ok (succeeds receipt, e'))
            × Moves tcb 0 t (journey receipt) e e'
      promote-Moves ready not_yet =
          let (result, m) = enter_pending-Moves e ready.key ready.fresh in
          (
            (enter_pending tcb gov token clock repo t receipt e).1,
            promote-enter ready not_yet
                ∙ ap (λ (b : Bool). ok (b, (enter_pending tcb gov token clock repo t receipt e).1))
                    result,
            m,
          )

      -- If there is one row for a task, the next six tokens name different witnesses and
      -- none that is spent, a VERIFIED receipt of the task is stored under the number, its
      -- proposal is VERIFIED and the clean target branch stands on the verified base, then
      -- `promote` returns whether the candidate was merged and passed the check after it:
      -- there is no test file, or pytest succeeds on the first one. The proposal ends
      -- POST_PROMOTION_VERIFIED if both hold, REJECTED if only the check failed, VERIFIED
      -- if it was not merged; no other proposal changes its state.
      pub promote_verified :
          IsReady
          → proposal.state ≡ verified
          → (e' : Engine) × (promote tcb gov token clock repo t (number n) e
              ≡ ok (succeeds receipt, e'))
            × ((j : String)
                → get_proposal_state j e'.kernel_db ≡ (
                    if t == j
                    then some
                        (destination (is_merged receipt) (run_post_promotion_verification repo))
                    else get_proposal_state j e.kernel_db))
      promote_verified ready at =
          let (e', done, m) = promote-Moves ready (λ final. cc (at, final)) in
          (
            e',
            done,
            λ j. m.at j ∙ (elim (Bool-cases (t == j)) [
              | inl same ↦
                  rw
                    (
                      same,
                      subst (λ k. get_proposal_state k e.kernel_db ≡ some verified)
                          ((eq_iff t j).0 same) (state_found ready ∙ ap some at),
                      forward-destination (is_merged receipt)
                          (run_post_promotion_verification repo),
                    )
                    refl
              | inr other ↦ rw other
            ]),
          )

      -- If there is one row for a task, the next six tokens name different witnesses and
      -- none that is spent, a VERIFIED receipt of the task is stored under the number, the
      -- clean target branch stands on the verified base, but the proposal is
      -- CANDIDATE_SEALED, VERIFYING, REJECTED or BLOCKED, then `promote` still returns
      -- whether the candidate was merged and passed the check after it (there is no test
      -- file, or pytest succeeds on the first one), and the proposal stays in its state.
      pub promote_bystander :
          IsReady
          → contains proposal.state bystanders ≡ true
          → (e' : Engine) × (promote tcb gov token clock repo t (number n) e
              ≡ ok (succeeds receipt, e'))
            × (get_proposal_state t e'.kernel_db ≡ some proposal.state)
      promote_bystander ready at =
          let (e', done, m) =
            promote-Moves ready
              (λ final. cc (subst (λ s. contains s bystanders ≡ true) final at)) in
          (
            e',
            done,
            m.at t
                ∙ rw
                    (
                      eqb_refl t,
                      state_found ready,
                      stands_by (is_merged receipt) (run_post_promotion_verification repo)
                          proposal.state at,
                    )
                    refl,
          )
