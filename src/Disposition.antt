-- ===== src/Disposition.antt =====
-- What is to be done with an objective (loop_engine/disposition.py).
pub mod Contracts
pub mod Earned
use shadows.Prelude.{
  if◌then◌else◌, is_empty, number_eq, text_eq, contains, concat, join, String, Bool, true, false,
  not, ◌&&◌, ◌||◌, Option, none, some, List, [], ◌∷◌,
}
use shadows.Kernel.Authority.{Tcb, VerificationContractWitness, is_valid}
use shadows.Disposition.Contracts.{CapabilityContract, evaluate_capability_applicability}

pub data ActionDisposition : Type 0 where
  direct reuse acquire configure compose build expose_deficit : ActionDisposition

pub record DispositionEvaluation : Type 0 where
  pub disposition : ActionDisposition
  pub rationale : String
  pub target_capability : Option String
  pub deficit_details : Option String
  pub is_build_earned : Bool

-- What is read of a CanonicalObjective.
pub record Objective : Type 0 where
  pub objective_type : String
  pub allowed_capabilities : List String
  pub verified_evidence : List String
  pub source_documents : List String
  pub domain : Option String

-- What is read of a task specification; the intent is in lower case.
pub record TaskSpec : Type 0 where
  pub intent_type : String
  pub required_capabilities : List String
  pub has_grounded_requirements : Bool
  pub domain : Option String
  pub available_capabilities : List String

pub data Spec : Type 0 where
  canonical : Objective → Spec
  task : TaskSpec → Spec

abbrev pub intent_of : Spec → String
intent_of (canonical o) = o.objective_type
intent_of (task s) = s.intent_type

abbrev pub required_by : Spec → List String
required_by (canonical o) = o.allowed_capabilities
required_by (task s) = s.required_capabilities

unfoldable pub has_grounding : Spec → Bool
has_grounding (canonical o) =
    not (is_empty o.verified_evidence) || not (is_empty o.source_documents)
has_grounding (task s) = s.has_grounded_requirements

abbrev pub domain_of : Spec → Option String
domain_of (canonical o) = o.domain
domain_of (task s) = s.domain

unfoldable pub is_informational : String → Bool
is_informational intent_type =
    contains intent_type
      ("inquiry" ∷ "investigation" ∷ "analysis" ∷ "explanation" ∷ "general_execution" ∷ [])

unfoldable pub is_generative : String → Bool
is_generative intent_type =
    contains intent_type ("code_generation" ∷ "build" ∷ "implementation" ∷ [])

-- An evaluation that has not earned a build.
abbrev pub unearned :
    ActionDisposition → String → Option String → Option String → DispositionEvaluation
unearned disposition rationale target details = record {
  disposition = disposition;
  rationale = rationale;
  target_capability = target;
  deficit_details = details;
  is_build_earned = false;
}

-- The first contract that is required and applies.
unfoldable pub reuse_by_contract :
    String → Option String → List String → List CapabilityContract → Option DispositionEvaluation
reuse_by_contract intent_type domain required [] = none
reuse_by_contract intent_type domain required (contract ∷ contracts) =
    let rest = reuse_by_contract intent_type domain required contracts in
    let evaluation = evaluate_capability_applicability contract intent_type domain in
    if contains contract.capability_id required && evaluation.is_applicable
    then some (unearned reuse evaluation.rationale (some contract.capability_id) none)
    else rest

abbrev pub all_in : List String → List String → Bool
all_in [] available = true
all_in (c ∷ cs) available = contains c available && all_in cs available

abbrev pub reuse_named : List String → List String → Option DispositionEvaluation
reuse_named [] available = none
reuse_named (matched ∷ others) available =
    if all_in (matched ∷ others) available
    then some (
        unearned reuse
          (concat
            ("Authoritative capability '" ∷ matched ∷ "' is already available in the system." ∷ []))
          (some matched) none)
    else none

-- The fallback on names, when no contract is given.
unfoldable pub reuse_by_name : Spec → List CapabilityContract → Option DispositionEvaluation
reuse_by_name (task s) [] = reuse_named s.required_capabilities s.available_capabilities
reuse_by_name _ _ = none

unfoldable pub missing_from : List String → List String → List String
missing_from available [] = []
missing_from available (c ∷ cs) =
    let rest = missing_from available cs in if contains c available then rest else c ∷ rest

unfoldable pub deficit : Spec → Option DispositionEvaluation
deficit (canonical o) = none
deficit (task s) =
    let missing = missing_from s.available_capabilities s.required_capabilities in
    if not (is_empty missing) && not (is_generative s.intent_type)
    then some (
        unearned expose_deficit
          "Required domain capabilities are not available in current environment." none
          (some (concat ("Missing capabilities: " ∷ join ", " missing ∷ []))))
    else none

abbrev pub unearned_build : String → String → DispositionEvaluation
unearned_build rationale details = unearned expose_deficit rationale none (some details)

abbrev pub or_else_by : Option DispositionEvaluation → DispositionEvaluation → DispositionEvaluation
or_else_by none later = later
or_else_by (some evaluation) later = evaluation

module _ (tcb : Tcb) where
  -- Step 4, for the intents that generate code.
  unfoldable pub evaluate_build : Spec → Option VerificationContractWitness → DispositionEvaluation
  evaluate_build spec none =
      unearned_build
        "BUILD rejected (unearned): Caller supplied boolean claim without proof-bearing VerificationContractWitness."
        "UNEARNED_BUILD: Missing cryptographic VerificationContractWitness."
  evaluate_build spec (some contract) =
      if not (is_valid tcb contract)
      then unearned_build
          "BUILD rejected (unearned): VerificationContractWitness failed cryptographic validation."
          "UNEARNED_BUILD: Invalid VerificationContractWitness signature."
      else if not (has_grounding spec)
      then unearned_build "BUILD rejected (unearned): Objective lacks grounded requirements."
          "UNEARNED_BUILD: Missing grounded requirements or source evidence."
      else record {
        disposition = build;
        rationale =
            "BUILD earned: Objective possesses grounded requirements and an authentic VerificationContractWitness.";
        target_capability = none;
        deficit_details = none;
        is_build_earned = true;
      }

  -- Step 4 and the default.
  unfoldable pub build_or_direct : Spec → Option VerificationContractWitness → DispositionEvaluation
  build_or_direct spec contract =
      if is_generative (intent_of spec)
      then evaluate_build spec contract
      else unearned direct "Resolved directly under baseline cognitive evaluation." none none

  unfoldable pub evaluate_execution_disposition :
      Spec → Option VerificationContractWitness → List CapabilityContract → DispositionEvaluation
  evaluate_execution_disposition spec contract available_contracts =
      if is_informational (intent_of spec)
      then unearned direct
          "Informational inquiry: BUILD is not required; resolve directly via analysis." none none
      else or_else_by
          (reuse_by_contract (intent_of spec) (domain_of spec) (required_by spec)
            available_contracts)
          (or_else_by (reuse_by_name spec available_contracts)
            (or_else_by (deficit spec) (build_or_direct spec contract)))
