-- ===== src/Kernel/Database.antt =====
-- The methods of KernelDatabase on proposals (loop_engine/kernel_db.py). `now` is the reading of
-- `time.time()`. A method that raises has written nothing, so it returns the new database or the
-- exception.
pub mod Rows
pub mod Transitions
use shadows.Prelude.{
  nat_beq, ◌==◌, number_eq, text_eq, select_one, count_where, update_where, ℕ, String, Bool, not,
  ◌&&◌, Option, none, some, [], ◌∷◌, ◌++◌,
}
use shadows.Outcome.{
  proposal_already_sealed, illegal_state_transition, privileged_state_mutation_prohibited, Result,
  raise, ok, ◌>>◌, guard,
}
use shadows.Kernel.State.{State, state_eq, is_legal, is_privileged}
use shadows.Kernel.Records.{ProposalManifest, ProposalRow, KernelDatabase}

-- WHERE task_id = ?
abbrev pub has_task : String → ProposalRow → Bool
has_task task_id row = row.task_id == task_id

-- WHERE task_id = ? AND state = ?
abbrev pub is_at : String → State → ProposalRow → Bool
is_at task_id state row = row.task_id == task_id && row.state == state

abbrev pub row_of_manifest : ℕ → ProposalManifest → ProposalRow
row_of_manifest now m = record {
  task_id = m.task_id;
  spec_hash = m.spec_hash;
  base_commit_sha = m.base_commit_sha;
  candidate_commit_sha = m.candidate_commit_sha;
  candidate_tree_sha = m.candidate_tree_sha;
  verifier_version = m.verifier_version;
  acceptance_test_digest = m.acceptance_test_digest;
  env_fingerprint = m.env_fingerprint;
  state = m.state;
  created_at = now;
  updated_at = now;
}

abbrev pub manifest_of_row : ProposalRow → ProposalManifest
manifest_of_row row = record {
  task_id = row.task_id;
  spec_hash = row.spec_hash;
  base_commit_sha = row.base_commit_sha;
  candidate_commit_sha = row.candidate_commit_sha;
  candidate_tree_sha = row.candidate_tree_sha;
  verifier_version = row.verifier_version;
  acceptance_test_digest = row.acceptance_test_digest;
  env_fingerprint = row.env_fingerprint;
  state = row.state;
  timestamp = some row.created_at;
}

-- The primary key refuses a second row for a task.
unfoldable pub record_proposal : ℕ → ProposalManifest → KernelDatabase → Result KernelDatabase
record_proposal now manifest db = do
  guard (nat_beq (count_where (has_task manifest.task_id) db.proposals) 0) proposal_already_sealed
  ok (record db { proposals = db.proposals ++ row_of_manifest now manifest ∷ [] })

unfoldable pub get_proposal : String → KernelDatabase → Option ProposalManifest
get_proposal task_id db = elim (select_one (has_task task_id) db.proposals) [
  | none ↦ none
  | some row ↦ some (manifest_of_row row)
]

unfoldable pub get_proposal_state : String → KernelDatabase → Option State
get_proposal_state task_id db = elim (select_one (has_task task_id) db.proposals) [
  | none ↦ none
  | some row ↦ some row.state
]

-- SET state = ?, updated_at = ?
abbrev pub moved : ℕ → State → ProposalRow → ProposalRow
moved now to_state row = record row { state = to_state; updated_at = now }

unfoldable pub raw_transition_proposal_state :
    ℕ → String → State → State → KernelDatabase → Result KernelDatabase
raw_transition_proposal_state now task_id from_state to_state db = do
  guard (is_legal from_state to_state) illegal_state_transition
  guard (not (nat_beq (count_where (is_at task_id from_state) db.proposals) 0))
      illegal_state_transition
  ok (record db {
    proposals = update_where (is_at task_id from_state) (moved now to_state) db.proposals;
  })

-- The token is the secret that transition.py draws when it is loaded.
unfoldable pub execute_privileged_state_transition :
    (internal_token auth_token : String)
    → ℕ
    → String
    → State
    → State
    → KernelDatabase
    → Result KernelDatabase
execute_privileged_state_transition internal_token auth_token now task_id from_state to_state db =
    do
      guard (auth_token == internal_token) privileged_state_mutation_prohibited
      raw_transition_proposal_state now task_id from_state to_state db

unfoldable pub transition_proposal_state :
    ℕ → String → State → State → KernelDatabase → Result KernelDatabase
transition_proposal_state now task_id from_state to_state db = do
  guard (not (is_privileged to_state)) privileged_state_mutation_prohibited
  raw_transition_proposal_state now task_id from_state to_state db

unfoldable pub update_state : ℕ → String → State → KernelDatabase → Result KernelDatabase
update_state now task_id to_state db = elim (get_proposal_state task_id db) [
  | none ↦ raise illegal_state_transition
  | some cur_state ↦ transition_proposal_state now task_id cur_state to_state db
]
