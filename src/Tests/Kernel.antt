-- ===== src/Tests/Kernel.antt =====
-- The theorems on the kernel database and the transition engine at concrete inputs.
use shadows.Prelude.{count_where, ◌≤◌, ◌≡◌, refl, ◌≢◌, ◌↔◌, true, some, List, [], ◌∷◌}
use shadows.Outcome.{ok}
use shadows.Kernel.State.{
  State, candidate_sealed, verifying, verified, rejected, promotion_pending, promoted,
  post_promotion_verified, is_legal,
}
use shadows.Kernel.Records.{ProposalManifest, KernelDatabase, empty}
use shadows.Kernel.Database.{
  record_proposal, get_proposal, get_proposal_state, raw_transition_proposal_state,
  execute_privileged_state_transition, transition_proposal_state, update_state,
}
use shadows.Kernel.Database.Transitions.{raw_transition_iff}
use shadows.Kernel.Operations.{Operation, transition, privileged, update, perform, perform_all}
use shadows.Kernel.Custody.{IsSuccessor, perform_all-IsSuccessor, perform_all-terminal}
use shadows.Kernel.Minting.{perform_all-MintsNothing, record_proposal_state}
use shadows.Kernel.Authority.{verify, issue_proof_witness}
use shadows.Kernel.Transition.{is_accepted, compute_complete_claim_digest, execute_transition}
use shadows.Kernel.Transition.Verdicts.{
  passes_guards, accepts-eq-passes, accepted_moves, accepted_stale,
}
use shadows.Kernel.Transition.Replay.{is_spending, submit_all, replay_bound}
use shadows.Tests.Samples.{base, manifest, sealed_in, sealed_in-HasKey, engine, request}
use shadows.Kernel.Transition.Digest.{verify-shifted}

abbrev calls : List Operation
calls =
    transition 8 "task" candidate_sealed verifying
    ∷ privileged "token" 9 "task" verifying verified
    ∷ update 10 "task" rejected
    ∷ privileged "guess" 11 "task" verified promotion_pending
    ∷ []

calls_end :
    get_proposal_state "task" (perform_all "token" calls (sealed_in candidate_sealed))
    ≡ some verified
unfolding perform_all perform transition_proposal_state execute_privileged_state_transition
    update_state raw_transition_proposal_state get_proposal_state
calls_end = refl

raw_transition_iff_example :
    ((db' : KernelDatabase) × (raw_transition_proposal_state 8 "task" verified rejected
          (sealed_in verified)
        ≡ ok db'))
    ↔ ((is_legal verified rejected ≡ true)
        × (get_proposal_state "task" (sealed_in verified) ≡ some verified))
raw_transition_iff_example =
    raw_transition_iff 8 "task" verified rejected (sealed_in verified) (sealed_in-HasKey verified)

found_manifest : (s : State) → get_proposal "task" (sealed_in s) ≡ some (manifest s)
unfolding get_proposal
found_manifest s = refl

perform_all-IsSuccessor_example :
    (q : ProposalManifest) × (get_proposal "task"
        (perform_all "token" calls (sealed_in candidate_sealed))
      ≡ some q)
    × IsSuccessor (manifest candidate_sealed) q
perform_all-IsSuccessor_example =
    perform_all-IsSuccessor "token" calls (sealed_in candidate_sealed) "task"
      (manifest candidate_sealed) (sealed_in-HasKey candidate_sealed)
      (found_manifest candidate_sealed)

perform_all-terminal_example :
    get_proposal "task" (perform_all "token" calls (sealed_in post_promotion_verified))
    ≡ some (manifest post_promotion_verified)
perform_all-terminal_example =
    perform_all-terminal "token" calls (sealed_in post_promotion_verified) "task"
      (manifest post_promotion_verified) (sealed_in-HasKey post_promotion_verified)
      (found_manifest post_promotion_verified) refl

abbrev public_calls : List Operation
public_calls =
    transition 8 "other" verified verifying
    ∷ privileged "guess" 9 "task" verified promotion_pending
    ∷ []

still_verified :
    get_proposal_state "task" (perform_all "token" public_calls (sealed_in verified))
    ≡ some verified
unfolding perform_all perform transition_proposal_state execute_privileged_state_transition
    raw_transition_proposal_state get_proposal_state
still_verified = refl

perform_all-MintsNothing_example : get_proposal_state "task" (sealed_in verified) ≡ some verified
perform_all-MintsNothing_example =
    perform_all-MintsNothing "token" public_calls (sealed_in verified) (sealed_in-HasKey verified)
      (refl, (refl, tt)) "task" verified refl still_verified

record_proposal_state_example :
    (db' : KernelDatabase) × (record_proposal 6 (manifest promoted) empty ≡ ok db')
    × (get_proposal_state "task" db' ≡ some promoted)
unfolding get_proposal_state
record_proposal_state_example = record_proposal_state 6 (manifest promoted) empty refl

state_of : (s : State) → get_proposal_state "task" (sealed_in s) ≡ some s
unfolding get_proposal_state
state_of s = refl

not_there : get_proposal_state "task" (sealed_in rejected) ≢ some verified
unfolding get_proposal_state
not_there h = cc h

accepts-eq-passes_example :
    is_accepted
      (execute_transition base "gov" "token" 8
        (request verified promotion_pending)
        (engine verified)).0
    ≡ passes_guards base "gov" "token" 8 (request verified promotion_pending) (engine verified)
accepts-eq-passes_example =
    accepts-eq-passes base "gov" "token" 8 (request verified promotion_pending) (engine verified)

passes :
    (s : State)
    → passes_guards base "gov" "token" 8 (request verified promotion_pending) (engine s) ≡ true
unfolding verify compute_complete_claim_digest issue_proof_witness
passes s = refl

accepted_moves_example :
    get_proposal_state "task"
      (execute_transition base "gov" "token" 8
        (request verified promotion_pending)
        (engine verified)).1.kernel_db
    ≡ some promotion_pending
accepted_moves_example =
    accepted_moves base "gov" "token" 8 (request verified promotion_pending) (engine verified)
      (sealed_in-HasKey verified) (passes verified) (state_of verified) "task"

accepted_stale_example :
    (is_accepted
        (execute_transition base "gov" "token" 8
          (request verified promotion_pending)
          (engine rejected)).0
      ≡ true)
    × ((execute_transition base "gov" "token" 8
          (request verified promotion_pending)
          (engine rejected)).1.kernel_db
        ≡ sealed_in rejected)
accepted_stale_example =
    accepted_stale base "gov" "token" 8 (request verified promotion_pending) (engine rejected)
      (sealed_in-HasKey rejected) (passes rejected) not_there

replay_bound_example :
    count_where (is_spending "wit_00") (
      submit_all base "gov" "token"
        ((8, request verified promotion_pending) ∷ (9, request verified promotion_pending) ∷ [])
        (engine verified))
    ≤ 1
replay_bound_example =
    replay_bound base "gov" "token" "wit_00"
      ((8, request verified promotion_pending) ∷ (9, request verified promotion_pending) ∷ [])
      (engine verified)

verify-shifted_example :
    verify base
      (issue_proof_witness base 0 7 "promoter"
        (compute_complete_claim_digest base "task" verified promotion_pending "commit:x" "tree"
          "spec" "tests" "trace" "PROMOTION" "gov")
        "PROMOTION")
      (compute_complete_claim_digest base "task" verified promotion_pending "commit" "x:tree" "spec"
        "tests" "trace" "PROMOTION" "gov")
      "PROMOTION"
    ≡ true
verify-shifted_example =
    verify-shifted base "task" verified promotion_pending "spec" "tests" "trace" "PROMOTION" "gov" 0
      7 "promoter" "commit" "x" "tree"
