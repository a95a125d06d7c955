-- ===== src/Kernel/Operations.antt =====
-- The methods of KernelDatabase that write (loop_engine/kernel_db.py), as the calls of a client.
use shadows.Prelude.{ℕ, String, List, [], ◌∷◌}
use shadows.Outcome.{Result, ok, ◌>>=◌, or_else}
use shadows.Kernel.Ledger.{
  record_verified_receipt, record_strike, record_quarantine_entry, record_promotion_wal_step,
}
use shadows.Kernel.State.{State, FailureClassification}
use shadows.Kernel.Records.{ProposalManifest, VerificationReceipt, QuarantineRecord, KernelDatabase}
use shadows.Kernel.Database.{
  record_proposal, execute_privileged_state_transition, transition_proposal_state, update_state,
}

pub data Operation : Type 0 where
  seal : ℕ → ProposalManifest → Operation
  transition : ℕ → String → State → State → Operation
  privileged : (auth_token : String) → ℕ → String → State → State → Operation
  update : ℕ → String → State → Operation
  receipt : ℕ → VerificationReceipt → Operation
  strike : ℕ → String → FailureClassification → String → Operation
  quarantine : QuarantineRecord → Operation
  wal_step : ℕ → String → String → String → State → Operation

module _ (internal_token : String) where
  unfoldable pub perform : Operation → KernelDatabase → Result KernelDatabase
  perform (seal now m) db = record_proposal now m db
  perform (transition now t from to) db = transition_proposal_state now t from to db
  perform (privileged token now t from to) db =
      execute_privileged_state_transition internal_token token now t from to db
  perform (update now t to) db = update_state now t to db
  perform (receipt now r) db = do (_, db') ← record_verified_receipt now r db; ok db'
  perform (strike now t c signature) db = ok (record_strike now t c signature db)
  perform (quarantine r) db = ok (record_quarantine_entry r db).1
  perform (wal_step now t branch sha s) db = ok (record_promotion_wal_step now t branch sha s db).1

  -- A client that catches what a call raises goes on from the database as it was.
  unfoldable pub perform_all : List Operation → KernelDatabase → KernelDatabase
  perform_all [] db = db
  perform_all (op ∷ ops) db = perform_all ops (or_else (perform op db) db)
