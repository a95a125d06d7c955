-- ===== src/Kernel/Transition.antt =====
-- PrivilegedTransitionEngine (loop_engine/transition.py). The engine keeps the witnesses that were
-- spent and shares the kernel database; `drawn` counts the tokens drawn from the random source.
-- The digest of governance.yaml is `governance_digest`, and `internal_token` is the token that the
-- module shares with the database.
pub mod Verdicts
pub mod Replay
pub mod Digest
use shadows.Prelude.{
  if◌then◌else◌, ◌==◌, number_eq, text_eq, contains, concat, join, ℕ, ◌+◌, String, Bool, true,
  false, not, List, [], ◌∷◌,
}
use shadows.Outcome.{or_else}
use shadows.Epistemic.Status.{
  EpistemicDisposition, satisfied, semantic_binding_deficit, insufficient_evidence, unresolved,
  origin_eq, status_eq,
}
use shadows.Kernel.State.{
  State, candidate_sealed, verifying, rejected, blocked, promotion_pending, promoted,
  post_promotion_verified, state_eq, is_legal,
}
use shadows.Kernel.Records.{KernelDatabase}
use shadows.Kernel.Database.{execute_privileged_state_transition}
use shadows.Kernel.Authority.{Tcb, ProofWitness, verify}

-- `State.value`
abbrev pub value : State → String
value candidate_sealed = "CANDIDATE_SEALED"
value verifying = "VERIFYING"
value State.verified = "VERIFIED"
value rejected = "REJECTED"
value blocked = "BLOCKED"
value promotion_pending = "PROMOTION_PENDING"
value promoted = "PROMOTED"
value post_promotion_verified = "POST_PROMOTION_VERIFIED"

pub record TransitionRequest : Type 0 where
  pub task_id : String
  pub from_state : State
  pub to_state : State
  pub subject_identity : String
  pub candidate_tree_sha : String
  pub spec_hash : String
  pub acceptance_test_digest : String
  pub evidence_digest : String
  pub authority_scope : String
  pub witness : ProofWitness
  pub governance_hash : String

pub record TransitionReceipt : Type 0 where
  pub receipt_id : String
  pub task_id : String
  pub from_state : State
  pub to_state : State
  pub subject_identity : String
  pub candidate_tree_sha : String
  pub spec_hash : String
  pub acceptance_test_digest : String
  pub evidence_digest : String
  pub witness_id : String
  pub disposition : EpistemicDisposition
  pub timestamp : ℕ

pub record TransitionRejection : Type 0 where
  pub rejection_id : String
  pub task_id : String
  pub from_state : State
  pub requested_state : State
  pub reason : String
  pub disposition : EpistemicDisposition

pub data Verdict : Type 0 where
  accepted : TransitionReceipt → Verdict
  denied : TransitionRejection → Verdict

pub record Engine : Type 0 where
  pub kernel_db : KernelDatabase
  pub spent_witness_ids : List String
  pub drawn : ℕ

-- `not isinstance(res, TransitionRejection)`
abbrev pub is_accepted : Verdict → Bool
is_accepted (accepted _) = true
is_accepted (denied _) = false

module _ (tcb : Tcb) where
  unfoldable pub compute_complete_claim_digest :
      (task_id : String)
      → (from_state to_state : State)
      → (subject_identity candidate_tree_sha spec_hash acceptance_test_digest : String)
      → (evidence_digest authority_scope governance_hash : String) → String
  compute_complete_claim_digest task_id from_state to_state subject_identity candidate_tree_sha
        spec_hash acceptance_test_digest evidence_digest authority_scope governance_hash =
      tcb.sha256 (
        join ":" (
          task_id
          ∷ value from_state
          ∷ value to_state
          ∷ subject_identity
          ∷ candidate_tree_sha
          ∷ spec_hash
          ∷ acceptance_test_digest
          ∷ evidence_digest
          ∷ authority_scope
          ∷ governance_hash
          ∷ []))

  abbrev pub claim_of : TransitionRequest → String
  claim_of r =
      compute_complete_claim_digest r.task_id r.from_state r.to_state r.subject_identity
        r.candidate_tree_sha r.spec_hash r.acceptance_test_digest r.evidence_digest
        r.authority_scope r.governance_hash

abbrev pub illegal_reason : TransitionRequest → String
illegal_reason r = concat (
    "Illegal state transition from '"
    ∷ value r.from_state
    ∷ "' to '"
    ∷ value r.to_state
    ∷ "'."
    ∷ [])

abbrev pub replay_reason : TransitionRequest → String
replay_reason r = concat (
    "Replay attack detected: ProofWitness '" ∷ r.witness.witness_id ∷ "' has already been spent."
    ∷ [])

abbrev pub governance_reason : String
governance_reason =
    "Governance digest mismatch: request was signed under outdated or tampered governance configuration."

abbrev pub witness_reason : String
witness_reason =
    "ProofWitness cryptographic verification failed for complete claim digest and authority scope."

module _ (tcb : Tcb) (governance_digest internal_token : String) where
  abbrev pub deny : TransitionRequest → String → EpistemicDisposition → Engine → Verdict × Engine
  deny r reason disposition e = (
    denied (record {
      rejection_id = concat ("rej_" ∷ tcb.token_hex e.drawn ∷ []);
      task_id = r.task_id;
      from_state = r.from_state;
      requested_state = r.to_state;
      reason = reason;
      disposition = disposition;
    }),
    record e { drawn = e.drawn + 1 },
  )

  -- The witness is spent, and what the database raises is swallowed.
  abbrev pub commit : ℕ → TransitionRequest → Engine → Verdict × Engine
  commit now r e = (
    accepted (record {
      receipt_id = concat ("tr_" ∷ tcb.token_hex e.drawn ∷ []);
      task_id = r.task_id;
      from_state = r.from_state;
      to_state = r.to_state;
      subject_identity = r.subject_identity;
      candidate_tree_sha = r.candidate_tree_sha;
      spec_hash = r.spec_hash;
      acceptance_test_digest = r.acceptance_test_digest;
      evidence_digest = r.evidence_digest;
      witness_id = r.witness.witness_id;
      disposition = satisfied;
      timestamp = now;
    }),
    record {
      kernel_db =
          or_else
            (execute_privileged_state_transition internal_token internal_token now r.task_id
              r.from_state r.to_state e.kernel_db)
            e.kernel_db;
      spent_witness_ids = r.witness.witness_id ∷ e.spent_witness_ids;
      drawn = e.drawn + 1;
    },
  )

  unfoldable pub execute_transition : ℕ → TransitionRequest → Engine → Verdict × Engine
  execute_transition now r e =
      if not (is_legal r.from_state r.to_state)
      then deny r (illegal_reason r) semantic_binding_deficit e
      else if contains r.witness.witness_id e.spent_witness_ids
      then deny r (replay_reason r) insufficient_evidence e
      else if not (r.governance_hash == governance_digest)
      then deny r governance_reason semantic_binding_deficit e
      else if not (verify tcb r.witness (claim_of tcb r) r.authority_scope)
      then deny r witness_reason unresolved e
      else commit now r e
