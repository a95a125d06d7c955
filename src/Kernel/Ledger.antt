-- ===== src/Kernel/Ledger.antt =====
-- The methods of KernelDatabase on receipts, strikes, the quarantine log and the promotion log
-- (loop_engine/kernel_db.py). Their tables only grow, so the key that SQLite assigns to a row is
-- one more than the number of rows.
use shadows.Prelude.{
  nat_beq, length, ◌==◌, number_eq, text_eq, select, select_one, count_where, ℕ, ◌+◌, String, Bool,
  not, Option, none, some, List, [], ◌∷◌, ◌++◌, map,
}
use shadows.Outcome.{integrity_error, Result, ok, ◌>>◌, guard}
use shadows.Kernel.State.{State, promotion_pending, state_eq, FailureClassification}
use shadows.Kernel.Records.{
  VerificationReceipt, QuarantineRecord, ProposalRow, ReceiptRow, StrikeRow, KernelDatabase,
}
use shadows.Kernel.Database.{has_task}

abbrev pub row_of_receipt : ℕ → ℕ → VerificationReceipt → ReceiptRow
row_of_receipt id now r = record {
  receipt_id = id;
  task_id = r.task_id;
  spec_hash = r.spec_hash;
  candidate_commit_sha = r.candidate_commit_sha;
  candidate_tree_sha = r.candidate_tree_sha;
  physical_tree_hash = r.physical_tree_hash;
  verifier_version = r.verifier_version;
  acceptance_test_digest = r.acceptance_test_digest;
  env_fingerprint = r.env_fingerprint;
  status = r.status;
  failure_classification = r.failure_classification;
  failure_signature = r.failure_signature;
  execution_trace = r.execution_trace;
  created_at = now;
}

abbrev pub receipt_of_row : ReceiptRow → VerificationReceipt
receipt_of_row row = record {
  receipt_id = some row.receipt_id;
  task_id = row.task_id;
  spec_hash = row.spec_hash;
  base_commit_sha = "";
  candidate_commit_sha = row.candidate_commit_sha;
  candidate_tree_sha = row.candidate_tree_sha;
  physical_tree_hash = row.physical_tree_hash;
  verifier_version = row.verifier_version;
  acceptance_test_digest = row.acceptance_test_digest;
  env_fingerprint = row.env_fingerprint;
  status = row.status;
  failure_classification = row.failure_classification;
  failure_signature = row.failure_signature;
  execution_trace = row.execution_trace;
  epistemic_disposition = some "SATISFIED";
  timestamp = some row.created_at;
}

-- The foreign key refuses a receipt for a task that has no proposal.
unfoldable pub record_verified_receipt :
    ℕ → VerificationReceipt → KernelDatabase → Result (ℕ × KernelDatabase)
record_verified_receipt now receipt db =
    let id = length db.verified_receipts + 1 in
    do
      guard (not (nat_beq (count_where (has_task receipt.task_id) db.proposals) 0)) integrity_error
      ok (
        id,
        record db {
          verified_receipts = db.verified_receipts ++ row_of_receipt id now receipt ∷ [];
        },
      )

abbrev pub has_receipt_id : ℕ → ReceiptRow → Bool
has_receipt_id id row = row.receipt_id == id

unfoldable pub get_verified_receipt : ℕ → KernelDatabase → Option VerificationReceipt
get_verified_receipt receipt_id db =
    elim (select_one (has_receipt_id receipt_id) db.verified_receipts) [
      | none ↦ none
      | some row ↦ some (receipt_of_row row)
    ]

abbrev pub struck : String → StrikeRow → Bool
struck task_id row = row.task_id == task_id

unfoldable pub record_strike :
    ℕ → String → FailureClassification → String → KernelDatabase → KernelDatabase
record_strike now task_id classification signature db = record db {
  strike_log =
      db.strike_log
      ++ (record {
        strike_id = length db.strike_log + 1;
        task_id = task_id;
        failure_classification = classification;
        failure_signature = signature;
        created_at = now;
      })
        ∷ [];
}

unfoldable pub get_strikes : String → KernelDatabase → ℕ
get_strikes task_id db = count_where (struck task_id) db.strike_log

unfoldable pub get_failure_signatures : String → KernelDatabase → List String
get_failure_signatures task_id db =
    map (λ row. row.failure_signature) (select (struck task_id) db.strike_log)

unfoldable pub record_quarantine_entry : QuarantineRecord → KernelDatabase → ℕ × KernelDatabase
record_quarantine_entry entry db =
    let id = length db.quarantine_log + 1 in
    (
      id,
      record db {
        quarantine_log = db.quarantine_log ++ (record { quarantine_id = id; entry = entry }) ∷ [];
      },
    )

unfoldable pub record_promotion_wal_step :
    ℕ → String → String → String → State → KernelDatabase → ℕ × KernelDatabase
record_promotion_wal_step now task_id target_branch candidate_commit_sha state db =
    let id = length db.promotion_wal + 1 in
    (
      id,
      record db {
        promotion_wal =
            db.promotion_wal
            ++ (record {
              wal_id = id;
              task_id = task_id;
              target_branch = target_branch;
              candidate_commit_sha = candidate_commit_sha;
              state = state;
              created_at = now;
            })
              ∷ [];
      },
    )

abbrev pub is_pending : ProposalRow → Bool
is_pending row = row.state == promotion_pending

unfoldable pub get_pending_promotions : KernelDatabase → List ProposalRow
get_pending_promotions db = select is_pending db.proposals
