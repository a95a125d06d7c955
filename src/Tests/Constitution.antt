-- ===== src/Tests/Constitution.antt =====
-- The theorems on objectives at concrete inputs.
use shadows.Prelude.{
  any, ◌==◌, number_eq, text_eq, ℕ, String, ◌≡◌, refl, ◌⊎◌, true, false, not, ◌&&◌, none, some,
  List, [], ◌∷◌,
}
use shadows.Outcome.{permission_error, raise, ok}
use shadows.Constitution.Records.{
  qualified, initial_creation, clarification, source_explicit, assumed, qualification_eq,
  revision_eq, Texts, RawClause, CanonicalRequirement, RawIntent, ProposedRequirement,
  ObjectiveRevisionAuthorization, VersionedObjectiveSpecification,
}
use shadows.Constitution.Lifecycle.{
  ObjectiveLifecycleManager, get_version, get_latest, is_valid_for, qualify_intent,
}
use shadows.Constitution.Lifecycle.Revisions.{
  or_new, revise, is_authorized, revise_cases, revised_twice,
}
use shadows.Constitution.Lifecycle.Candidates.{self_serving, self_qualified}
use shadows.Constitution.Evidence.{
  observed, epistemic_eq, applicability_eq, observation_eq, Json, QualifiedEvidence, EpistemicClaim,
  contradicts, supports, refusal, evaluate_one, evaluate_all, evaluate_claim,
}
use shadows.Constitution.Evidence.Verdicts.{
  is_supported, is_against, evaluate_claim_lem, as_falsified, falsification_hidden,
}
use shadows.Constitution.Capability.{
  OperatorType, compare, act, real_physical_adapter, candidate, authorized, operator_eq,
  ConditionalCapability, RequiredOperation, is_applicable, CapabilityDeficitEngine,
  register_capability, deficit_of, evaluate_required_operations,
}
use shadows.Constitution.Capability.Deficits.{Settles, evaluate_required_operations_lem}
use shadows.Constitution.Sufficiency.{mandatory_conjunction, Grounds, evaluate_specification}
use shadows.Constitution.Sufficiency.Law6.{is_met, lacks, law6}

-- A digest that keeps the first text of a dictionary.
abbrev first_text : List (String × Json) → String
first_text [] = ""
first_text (item ∷ items) = elim item.1 [ Json.text s ↦ s | _ ↦ "" ]

abbrev py : Texts
py = record {
  strip = λ s. s;
  lower = λ s. s;
  len = λ s. 7;
  number_text = λ n. "n";
  is_within = λ s t. s == t;
  digest = λ s. s;
}

abbrev the_claim : EpistemicClaim
the_claim = record {
  claim_id = "claim";
  subject = "parser";
  predicate = "works";
  required_scope = "unit";
  target_candidate_sha = some "sha";
  required_environment = none;
}

abbrev passing : QualifiedEvidence
passing = record {
  evidence_id = "evidence";
  specification = record {
    spec_id = "spec";
    target_claim_id = "claim";
    verification_modality = "DETERMINISTIC_TEST";
    expected_scope = "unit";
    target_candidate_sha = some "sha";
    required_environment_pattern = none;
    min_coverage_percentage = 80;
    explicit_non_claims = [];
    verifier_identity = "oracle";
  };
  observation = record {
    observation_id = "run";
    spec_digest = "spec";
    executed_command = "pytest";
    collector_type = "pytest";
    exit_code = 0;
    tests_collected = 3;
    tests_passed = 3;
    tests_failed = 0;
    coverage_percentage = 90;
    candidate_sha = "sha";
    environment_fingerprint = "env";
    observation_status = observed;
    is_falsified = false;
  };
}

evaluate_claim_lem_example :
    is_supported (evaluate_claim first_text the_claim none none (passing ∷ passing ∷ [])) ≡ (
      not (any (is_against first_text the_claim none none) (passing ∷ []))
      && any supports (passing ∷ []))
evaluate_claim_lem_example =
    evaluate_claim_lem first_text the_claim none none (passing ∷ passing ∷ [])

passing-supports :
    is_supported (evaluate_claim first_text the_claim none none (passing ∷ [])) ≡ true
unfolding evaluate_claim evaluate_all evaluate_one refusal contradicts supports
passing-supports = refl

falsification_hidden_example :
    is_supported (
      evaluate_claim first_text the_claim none none
        (passing ∷ as_falsified first_text the_claim none none passing ∷ []))
    ≡ true
falsification_hidden_example =
    falsification_hidden first_text the_claim none none passing passing-supports

abbrev grounds : Grounds
grounds = record {
  claims = ("requirement", the_claim) ∷ [];
  evidence_by_claim = ("claim", passing ∷ []) ∷ [];
  active_candidate_sha = none;
  active_environment_fingerprint = none;
  jtms_store = none;
}

abbrev a_requirement : CanonicalRequirement
a_requirement = record {
  requirement_id = "requirement";
  description = "parses";
  origin = source_explicit;
  source_clause_id = some "clause";
  is_blocking = true;
}

abbrev first_spec : VersionedObjectiveSpecification
first_spec = record {
  objective_id = "objective";
  version = 1;
  canonical_intent = "parse";
  intent_hash = "hash";
  requirements = a_requirement ∷ [];
  qualification_status = qualified;
  adequacy_contract = none;
  parent_version = none;
  revision_type = initial_creation;
  revision_authorization = none;
}

law6_example :
    (evaluate_specification first_text py grounds first_spec mandatory_conjunction
      none).is_satisfied
    ≡ (not (any (lacks first_text grounds) (a_requirement ∷ []))
        && any (is_met first_text grounds) (a_requirement ∷ []))
law6_example = law6 first_text grounds py first_spec mandatory_conjunction none refl

abbrev token : ObjectiveRevisionAuthorization
token = record {
  authorization_id = "authorization";
  authorizing_principal = "nobody";
  authority_proof_token = "x";
  target_objective_id = "objective";
  target_version = 1;
  authorized_revision_types = clarification ∷ [];
}

abbrev manager : ObjectiveLifecycleManager
manager = record { objectives = ("objective", first_spec ∷ []) ∷ [] }

revise_cases_example :
    ((is_authorized py first_spec clarification token ≡ false)
      × (revise py first_spec clarification token none [] manager ≡ raise permission_error))
    ⊎ ((new : VersionedObjectiveSpecification) × (after : ObjectiveLifecycleManager)
        × (is_authorized py first_spec clarification token ≡ true)
        × (revise py first_spec clarification token none [] manager ≡ ok (new, after))
        × (new.version ≡ 2)
        × (get_latest "objective" after ≡ some new)
        × ((j : String) (n : ℕ)
            → get_version j n after
              ≡ or_new (get_version j n manager) ("objective" == j && 2 == n) new))
revise_cases_example = revise_cases py first_spec clarification token none [] manager

token-IsAuthorized : is_authorized py first_spec clarification token ≡ true
unfolding is_valid_for
token-IsAuthorized = refl

no_second : get_version "objective" 2 manager ≡ none
unfolding get_version
no_second = refl

revised_twice_example :
    (first second : VersionedObjectiveSpecification) × (between after : ObjectiveLifecycleManager)
    × (revise py first_spec clarification token (some "parse all") [] manager ≡ ok (first, between))
    × (revise py first_spec clarification token (some "parse none") [] between ≡ ok (second, after))
    × (first.version ≡ second.version)
    × (get_version "objective" 2 after ≡ some first)
    × (get_latest "objective" after ≡ some second)
revised_twice_example =
    revised_twice py first_spec clarification token (some "parse all") (some "parse none") [] []
      manager token-IsAuthorized no_second

abbrev intent : RawIntent
intent = record { raw_text = "delete nothing"; source_identity = "OPERATOR"; intent_hash = "hash" }

abbrev own_clause : RawClause
own_clause = record {
  clause_id = "clause";
  text = "delete all";
  is_constraint = false;
  is_deliverable = true;
}

abbrev own_requirement : ProposedRequirement
own_requirement = record {
  proposal_id = "";
  raw_clause_id = "clause";
  description = "delete all";
  claimed_origin = assumed;
  is_blocking = true;
  proposer_identity = "untrusted_worker";
}

abbrev made : VersionedObjectiveSpecification × ObjectiveLifecycleManager
made =
    qualify_intent py (λ s. []) "objective" intent
      (self_serving "candidate" "untrusted_worker" own_clause own_requirement) manager

self_qualified_example :
    (made.0.qualification_status ≡ qualified)
    × (made.0.canonical_intent ≡ "delete nothing")
    × (get_latest "objective" made.1 ≡ some made.0)
self_qualified_example =
    self_qualified py (λ s. []) "objective" "candidate" "untrusted_worker" intent own_clause
      own_requirement manager refl refl

-- A capability that compares in one environment, and an operation that asks for a resource.
abbrev comparer : ConditionalCapability
comparer = record {
  capability_id = "cap";
  actor_id = "actor";
  operator_type = compare;
  supported_environments = "linux" ∷ [];
  supported_conditions = [];
  required_evidence_classes = [];
  kind = real_physical_adapter;
  lifecycle_state = candidate;
  epistemic_status = authorized;
  limitations = [];
}

abbrev operation : OperatorType → RequiredOperation
operation kind_of = record {
  operation_id = "op";
  operator = kind_of;
  semantic_responsibility = "rank";
  inputs = "table" ∷ [];
  outputs = [];
}

abbrev comparing : CapabilityDeficitEngine
comparing = register_capability comparer (record { registry = [] })

-- What it does is bound, what it does not is a deficit, and elsewhere nothing is bound.
settles_two :
    (evaluate_required_operations comparing "linux" (operation compare ∷ operation act ∷ [])
      ≡ (comparer ∷ [], deficit_of (operation act) ∷ []))
    × (evaluate_required_operations comparing "darwin" (operation compare ∷ [])
        ≡ ([], deficit_of (operation compare) ∷ []))
unfolding evaluate_required_operations register_capability is_applicable
settles_two = (refl, refl)

evaluate_required_operations_lem_example :
    Settles comparing "linux"
      (operation compare ∷ operation act ∷ [])
      (evaluate_required_operations comparing "linux" (operation compare ∷ operation act ∷ []))
evaluate_required_operations_lem_example =
    evaluate_required_operations_lem comparing "linux" (operation compare ∷ operation act ∷ [])
