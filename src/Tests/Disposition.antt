-- ===== src/Tests/Disposition.antt =====
-- The theorems on dispositions at concrete inputs.
use shadows.Prelude.{String, ◌≡◌, refl, true, false, none, some, [], ◌∷◌}
use shadows.Kernel.Authority.{
  verify, issue_proof_witness, VerificationContractWitness, is_valid,
  create_verification_contract_witness,
}
use shadows.Disposition.{
  reuse, build, Spec, task, has_grounding, is_informational, is_generative, reuse_by_contract,
  reuse_by_name, missing_from, deficit, evaluate_build, build_or_direct,
  evaluate_execution_disposition,
}
use shadows.Disposition.Contracts.{
  CapabilityContract, is_compatible_with_objective, evaluate_capability_applicability,
}
use shadows.Disposition.Earned.{IsForRequired, is_earned_by, build-earned, reuse-IsForRequired}
use shadows.Tests.Samples.{base}

abbrev spec_for : String → Spec
spec_for intent_type = task (record {
  intent_type = intent_type;
  required_capabilities = "parse" ∷ [];
  has_grounded_requirements = true;
  domain = some "code";
  available_capabilities = [];
})

abbrev parser : CapabilityContract
parser = record {
  capability_id = "parse";
  domain = "general";
  supported_objective_types = "all" ∷ [];
  is_deprecated = false;
}

abbrev contract : VerificationContractWitness
contract = create_verification_contract_witness base 0 7 "objective" "tests"

built :
    (evaluate_execution_disposition base (spec_for "build") (some contract) []).disposition ≡ build
unfolding evaluate_execution_disposition is_informational reuse_by_contract reuse_by_name deficit
    missing_from is_generative build_or_direct evaluate_build is_valid
    create_verification_contract_witness verify issue_proof_witness has_grounding
built = refl

build-earned_example :
    (is_informational "build" ≡ false)
    × ((is_generative "build" ≡ true)
        × (is_earned_by base (spec_for "build") (some contract) ≡ true))
build-earned_example = build-earned base (spec_for "build") (some contract) [] built

reused :
    (evaluate_execution_disposition base (spec_for "planning") none (parser ∷ [])).disposition
    ≡ reuse
unfolding evaluate_execution_disposition is_informational reuse_by_contract
    evaluate_capability_applicability is_compatible_with_objective
reused = refl

reuse-IsForRequired_example :
    IsForRequired
      ("parse" ∷ [])
      (evaluate_execution_disposition base (spec_for "planning") none (parser ∷ []))
reuse-IsForRequired_example =
    reuse-IsForRequired base (spec_for "planning") none (parser ∷ []) reused
