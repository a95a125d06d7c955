-- ===== src/Kernel/Records.antt =====
-- The records of loop_engine/schema.py and the tables of KernelDatabase (loop_engine/kernel_db.py).
-- A table is the list of its rows in the order of insertion. A JSON column holds the value that is
-- read back from it.
use shadows.Prelude.{ℕ, String, Option, List, []}
use shadows.Kernel.State.{State, FailureClassification}

pub record EnvironmentFingerprint : Type 0 where
  pub python_version : String
  pub platform_system : String
  pub platform_release : String
  pub architecture : String
  pub env_hash : String

pub record ProposalManifest : Type 0 where
  pub task_id : String
  pub spec_hash : String
  pub base_commit_sha : String
  pub candidate_commit_sha : String
  pub candidate_tree_sha : String
  pub verifier_version : String
  pub acceptance_test_digest : String
  pub env_fingerprint : EnvironmentFingerprint
  pub state : State
  pub timestamp : Option ℕ

pub record VerificationReceipt : Type 0 where
  pub receipt_id : Option ℕ
  pub task_id : String
  pub spec_hash : String
  pub base_commit_sha : String
  pub candidate_commit_sha : String
  pub candidate_tree_sha : String
  pub physical_tree_hash : String
  pub verifier_version : String
  pub acceptance_test_digest : String
  pub env_fingerprint : EnvironmentFingerprint
  pub status : State
  pub failure_classification : Option FailureClassification
  pub failure_signature : Option String
  pub execution_trace : Option String
  pub epistemic_disposition : Option String
  pub timestamp : Option ℕ

pub record QuarantineRecord : Type 0 where
  pub quarantine_id : Option ℕ
  pub task_id : String
  pub quarantine_dir : String
  pub candidate_commit_sha : String
  pub failure_classification : FailureClassification
  pub failure_signature : String
  pub execution_trace : String
  pub timestamp : ℕ

-- The rows of `proposals`. The JSON column holds the fingerprint that is read back from it.
pub record ProposalRow : Type 0 where
  pub task_id : String
  pub spec_hash : String
  pub base_commit_sha : String
  pub candidate_commit_sha : String
  pub candidate_tree_sha : String
  pub verifier_version : String
  pub acceptance_test_digest : String
  pub env_fingerprint : EnvironmentFingerprint
  pub state : State
  pub created_at : ℕ
  pub updated_at : ℕ

-- The rows of `verified_receipts`, which has no column for the base commit.
pub record ReceiptRow : Type 0 where
  pub receipt_id : ℕ
  pub task_id : String
  pub spec_hash : String
  pub candidate_commit_sha : String
  pub candidate_tree_sha : String
  pub physical_tree_hash : String
  pub verifier_version : String
  pub acceptance_test_digest : String
  pub env_fingerprint : EnvironmentFingerprint
  pub status : State
  pub failure_classification : Option FailureClassification
  pub failure_signature : Option String
  pub execution_trace : Option String
  pub created_at : ℕ

pub record QuarantineRow : Type 0 where
  pub quarantine_id : ℕ
  pub entry : QuarantineRecord

pub record StrikeRow : Type 0 where
  pub strike_id : ℕ
  pub task_id : String
  pub failure_classification : FailureClassification
  pub failure_signature : String
  pub created_at : ℕ

pub record PromotionRow : Type 0 where
  pub wal_id : ℕ
  pub task_id : String
  pub target_branch : String
  pub candidate_commit_sha : String
  pub state : State
  pub created_at : ℕ

pub record KernelDatabase : Type 0 where
  pub proposals : List ProposalRow
  pub verified_receipts : List ReceiptRow
  pub quarantine_log : List QuarantineRow
  pub strike_log : List StrikeRow
  pub promotion_wal : List PromotionRow

abbrev pub empty : KernelDatabase
empty = record {
  proposals = [];
  verified_receipts = [];
  quarantine_log = [];
  strike_log = [];
  promotion_wal = [];
}
