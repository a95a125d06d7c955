-- ===== src/Promotion.antt =====
-- PromotionCoordinator (loop_engine/promoter.py). The coordinator's state is that of its transition
-- engine. What git and pytest return is `Repository`, a parameter: the coordinator reads it and the
-- theorems hold for each. The clock is read at each token that is drawn.
pub mod Steps
pub mod Requests
pub mod Journey
pub mod Outcomes
pub mod Reconcile
use shadows.Prelude.{
  if◌then◌else◌, ◌==◌, number_eq, text_eq, ℕ, ◌+◌, String, Bool, true, false, not, ◌||◌, Option,
  none, some, List, [], ◌∷◌,
}
use shadows.Outcome.{receipt_not_found, receipt_mismatch, Result, raise, ok, ◌>>=◌, ◌>>◌, guard}
use shadows.Kernel.State.{
  State, rejected, promotion_pending, promoted, post_promotion_verified, state_eq,
}
use shadows.Kernel.Records.{ProposalManifest, VerificationReceipt}
use shadows.Kernel.Database.{get_proposal, get_proposal_state, moved}
use shadows.Kernel.Ledger.{get_verified_receipt, record_promotion_wal_step}
use shadows.Kernel.Authority.{Tcb, ProofWitness, issue_proof_witness}
use shadows.Kernel.Transition.{
  TransitionRequest, Engine, is_accepted, compute_complete_claim_digest, execute_transition,
}

pub record Repository : Type 0 where
  pub target_branch : String
  -- `git status --porcelain` prints nothing
  pub is_clean : Bool
  -- what `git rev-parse target_branch` prints, if it succeeds
  pub target_head : Option String
  -- `git merge-base --is-ancestor` succeeds on these
  pub is_ancestor : String → String → Bool
  -- `git checkout target_branch` succeeds
  pub checks_out : Bool
  -- `git merge --ff-only` succeeds on this
  pub merges : String → Bool
  -- the test files, and whether pytest succeeds on one
  pub test_files : List String
  pub passes : String → Bool

-- What a caller may hand over for a receipt; an item of a tuple is an `int` or something else.
pub data ReceiptHandle : Type 0 where
  number : ℕ → ReceiptHandle
  with_receipt_id : Option ℕ → ReceiptHandle
  tuple_of : List (Option ℕ) → ReceiptHandle
  something_else : ReceiptHandle

abbrev pub receipt_number : ReceiptHandle → Result ℕ
receipt_number (number n) = ok n
receipt_number (with_receipt_id (some n)) = ok n
receipt_number (tuple_of (some n ∷ _)) = ok n
receipt_number _ = raise receipt_mismatch

-- `cur_state == state`
abbrev pub is_in : State → Option State → Bool
is_in state none = false
is_in state (some cur_state) = cur_state == state

-- `receipt.execution_trace or ""`
abbrev pub evidence_of : VerificationReceipt → String
evidence_of receipt = elim receipt.execution_trace [ none ↦ "" | some trace ↦ trace ]

module _ (repo : Repository) where
  unfoldable pub run_post_promotion_verification : Bool
  run_post_promotion_verification = elim repo.test_files [
    | [] ↦ true
    | test_target ∷ _ ↦ repo.passes test_target
  ]

  -- The clean target branch has not moved away from the verified base.
  unfoldable pub stands_on_base : ProposalManifest → Bool
  stands_on_base proposal = if not repo.is_clean then false else elim repo.target_head [
    | none ↦ false
    | some head ↦ head == proposal.base_commit_sha || repo.is_ancestor proposal.base_commit_sha head
  ]

abbrev pub log_step : (ℕ → ℕ) → String → String → String → State → Engine → Engine
log_step clock branch task_id sha state e = record e {
  kernel_db = (record_promotion_wal_step (clock e.drawn) task_id branch sha state e.kernel_db).1;
}

module _ (tcb : Tcb) (governance_digest internal_token : String) (clock : ℕ → ℕ) where
  abbrev pub unsigned_request :
      String → State → State → VerificationReceipt → ProofWitness → TransitionRequest
  unsigned_request task_id from_state to_state receipt witness = record {
    task_id = task_id;
    from_state = from_state;
    to_state = to_state;
    subject_identity = receipt.candidate_commit_sha;
    candidate_tree_sha = receipt.candidate_tree_sha;
    spec_hash = receipt.spec_hash;
    acceptance_test_digest = receipt.acceptance_test_digest;
    evidence_digest = evidence_of receipt;
    authority_scope = "PROMOTION";
    witness = witness;
    governance_hash = governance_digest;
  }

  abbrev pub promotion_digest : String → State → State → VerificationReceipt → String
  promotion_digest task_id from_state to_state receipt =
      compute_complete_claim_digest tcb task_id from_state to_state receipt.candidate_commit_sha
        receipt.candidate_tree_sha receipt.spec_hash receipt.acceptance_test_digest
        (evidence_of receipt) "PROMOTION" governance_digest

  abbrev pub signed_request : ℕ → String → State → State → VerificationReceipt → TransitionRequest
  signed_request drawn task_id from_state to_state receipt =
      unsigned_request task_id from_state to_state receipt (
        issue_proof_witness tcb drawn (clock drawn) "loop_engine.promoter"
          (promotion_digest task_id from_state to_state receipt) "PROMOTION")

  unfoldable pub request_transition :
      String → State → State → VerificationReceipt → Engine → Bool × Engine
  request_transition task_id from_state to_state receipt e =
      let (verdict, e') =
        execute_transition tcb governance_digest internal_token (clock (e.drawn + 1))
          (signed_request e.drawn task_id from_state to_state receipt)
          (record e { drawn = e.drawn + 1 }) in
      (is_accepted verdict, e')

  module _ (repo : Repository) where
    -- Steps 6 and 7.
    unfoldable pub confirm : String → VerificationReceipt → Engine → Bool × Engine
    confirm task_id receipt e =
        if not (run_post_promotion_verification repo)
        then (false, (request_transition task_id promoted rejected receipt e).1)
        else let (moved, e') =
            request_transition task_id promoted post_promotion_verified receipt e in
          if not moved then (false, e') else (
            true,
            log_step clock repo.target_branch task_id receipt.candidate_commit_sha
                post_promotion_verified e',
          )

    -- Steps 4 and 5, and those after them.
    unfoldable pub merge_forward : String → VerificationReceipt → Engine → Bool × Engine
    merge_forward task_id receipt e =
        if not repo.checks_out
        then (false, (request_transition task_id promotion_pending State.verified receipt e).1)
        else if not (repo.merges receipt.candidate_commit_sha)
        then (false, (request_transition task_id promotion_pending State.verified receipt e).1)
        else let (moved, e') = request_transition task_id promotion_pending promoted receipt e in
          if not moved
          then (false, e')
          else confirm task_id receipt
              (log_step clock repo.target_branch task_id receipt.candidate_commit_sha promoted e')

    -- Step 3, and those after it.
    unfoldable pub enter_pending : String → VerificationReceipt → Engine → Bool × Engine
    enter_pending task_id receipt e =
        let (moved, e') = request_transition task_id State.verified promotion_pending receipt e in
        if not moved
        then (false, e')
        else merge_forward task_id receipt (
            log_step clock repo.target_branch task_id receipt.candidate_commit_sha promotion_pending
              e')

    -- `promote` from the receipt's number on.
    unfoldable pub promote_number : String → ℕ → Engine → Result (Bool × Engine)
    promote_number task_id rid e = elim (get_verified_receipt rid e.kernel_db) [
      | none ↦ raise receipt_not_found
      | some receipt ↦ do
        guard (receipt.task_id == task_id) receipt_mismatch
        ok (
            if not (receipt.status == State.verified)
            then (false, e)
            else elim (get_proposal task_id e.kernel_db) [
              | none ↦ (false, e)
              | some proposal ↦
                  if is_in post_promotion_verified (get_proposal_state task_id e.kernel_db)
                  then (true, e)
                  else if not (stands_on_base repo proposal)
                  then (false, e)
                  else enter_pending task_id receipt e
            ])
    ]

    unfoldable pub promote : String → ReceiptHandle → Engine → Result (Bool × Engine)
    promote task_id receipt_id e = do rid ← receipt_number receipt_id; promote_number task_id rid e
