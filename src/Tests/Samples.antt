-- ===== src/Tests/Samples.antt =====
-- A trusted base, a proposal and a database to run the model on.
use shadows.Prelude.{
  ◌==◌, number_eq, text_eq, concat, ℕ, zero, suc, String, refl, true, none, some, [], ◌∷◌,
}
use shadows.Kernel.State.{State, verified, state_eq}
use shadows.Kernel.Records.{
  EnvironmentFingerprint, ProposalManifest, VerificationReceipt, KernelDatabase, empty,
}
use shadows.Kernel.Database.{row_of_manifest}
use shadows.Kernel.Database.Rows.{HasKey}
use shadows.Kernel.Authority.{Tcb, ProofWitness, issue_proof_witness}
use shadows.Kernel.Transition.{TransitionRequest, Engine, claim_of}
use shadows.Kernel.Ledger.{row_of_receipt}
use shadows.Promotion.{Repository}

-- One more digit for each token that was drawn before.
abbrev pub tally : ℕ → String
tally zero = ""
tally (suc n) = concat ("1" ∷ tally n ∷ [])

-- A stand-in for the library's digests, under which a run can be followed.
abbrev pub base : Tcb
base = record {
  sha256 = λ s. s;
  hmac_sha256 = λ key payload. concat (key ∷ payload ∷ []);
  session_secret = "secret";
  token_hex = tally;
  time_text = λ t. "now";
}

abbrev pub fingerprint : EnvironmentFingerprint
fingerprint = record {
  python_version = "3.12";
  platform_system = "Linux";
  platform_release = "6";
  architecture = "x86_64";
  env_hash = "e";
}

abbrev pub manifest : State → ProposalManifest
manifest s = record {
  task_id = "task";
  spec_hash = "spec";
  base_commit_sha = "base";
  candidate_commit_sha = "commit";
  candidate_tree_sha = "tree";
  verifier_version = "2.0.0";
  acceptance_test_digest = "tests";
  env_fingerprint = fingerprint;
  state = s;
  timestamp = some 5;
}

abbrev pub sealed_in : State → KernelDatabase
sealed_in s = record empty { proposals = row_of_manifest 5 (manifest s) ∷ [] }

pub sealed_in-HasKey : (s : State) → HasKey (sealed_in s).proposals
sealed_in-HasKey s t = (λ hit. refl, tt)

abbrev pub engine : State → Engine
engine s = record { kernel_db = sealed_in s; spent_witness_ids = []; drawn = 1 }

-- A request whose witness was issued for its own claim.
abbrev pub unsigned : State → State → ProofWitness → TransitionRequest
unsigned from to w = record {
  task_id = "task";
  from_state = from;
  to_state = to;
  subject_identity = "commit";
  candidate_tree_sha = "tree";
  spec_hash = "spec";
  acceptance_test_digest = "tests";
  evidence_digest = "trace";
  authority_scope = "PROMOTION";
  witness = w;
  governance_hash = "gov";
}

abbrev pub blank : ProofWitness
blank = record {
  witness_id = "";
  issuer = "";
  target_digest = "";
  scope = "";
  timestamp = 0;
  signature = "";
}

abbrev pub request : State → State → TransitionRequest
request from to = unsigned from to (
    issue_proof_witness base 0 7 "loop_engine.promoter" (claim_of base (unsigned from to blank))
      "PROMOTION")

abbrev pub receipt : VerificationReceipt
receipt = record {
  receipt_id = some 1;
  task_id = "task";
  spec_hash = "spec";
  base_commit_sha = "";
  candidate_commit_sha = "commit";
  candidate_tree_sha = "tree";
  physical_tree_hash = "tree";
  verifier_version = "2.0.0";
  acceptance_test_digest = "tests";
  env_fingerprint = fingerprint;
  status = verified;
  failure_classification = none;
  failure_signature = none;
  execution_trace = some "trace";
  epistemic_disposition = some "SATISFIED";
  timestamp = some 6;
}

-- The proposal and its receipt are stored.
abbrev pub reviewed_in : State → Engine
reviewed_in s = record (engine s) {
  kernel_db = record (sealed_in s) { verified_receipts = row_of_receipt 1 6 receipt ∷ [] };
}

abbrev pub repository : Repository
repository = record {
  target_branch = "main";
  is_clean = true;
  target_head = some "base";
  is_ancestor = λ commit head. commit == "base";
  checks_out = true;
  merges = λ commit. commit == "commit";
  test_files = "test_a.py" ∷ [];
  passes = λ file. true;
}
