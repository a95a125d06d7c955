-- ===== src/Constitution/Capability.antt =====
-- Conditional capabilities, and the operations that no capability serves
-- (loop_engine/constitution/capability.py), with the records of Forge/core/substrate.py that it
-- takes. A registry is a dictionary in the order of insertion. Left out are the creation time, the
-- reliability score, the digest, and the fields of an operation that are not read here.
pub mod Deficits
use shadows.Prelude.{
  is_empty, any, nth, Comparable, ◌==◌, number_eq, text_eq, enum_eq, contains, select_one, concat,
  set_item, ℕ, String, ◌≡◌, refl, Bool, true, false, not, ◌&&◌, ◌||◌, Option, none, some, List, [],
  ◌∷◌,
}

pub data OperatorType : Type 0 where
  ingest extract compare transform decompose : OperatorType
  compose calculate retrieve test validate : OperatorType
  act decide escalate : OperatorType

pub data CapabilityKind : Type 0 where
  real_physical_adapter verified_external_adapter : CapabilityKind
  non_authoritative_test_double unavailable : CapabilityKind

pub data CapabilityLifecycleState : Type 0 where
  candidate syntactically_valid isolated_tested : CapabilityLifecycleState
  verified_for_task provisionally_available reuse_verified : CapabilityLifecycleState
  promoted : CapabilityLifecycleState

pub data EvidenceClass : Type 0 where
  verified_fact documented_metric direct_quote : EvidenceClass
  empirical_test source_provided unverified_model_prior : EvidenceClass

pub data CapabilityEpistemicStatus : Type 0 where
  hypothesis evidence_collected qualified applicable : CapabilityEpistemicStatus
  authorized contested deprecated : CapabilityEpistemicStatus

abbrev operator_position : OperatorType → ℕ
operator_position ingest = 0
operator_position extract = 1
operator_position compare = 2
operator_position transform = 3
operator_position decompose = 4
operator_position compose = 5
operator_position calculate = 6
operator_position retrieve = 7
operator_position test = 8
operator_position validate = 9
operator_position act = 10
operator_position decide = 11
operator_position escalate = 12

abbrev operators : List OperatorType
operators =
    ingest ∷ extract ∷ compare ∷ transform ∷ decompose ∷ compose ∷ calculate ∷ retrieve ∷ test
    ∷ validate ∷ act ∷ decide ∷ escalate ∷ []

abbrev operator_member : ℕ → OperatorType
operator_member n = nth ingest operators n

pub member-operator : (x : OperatorType) → operator_member (operator_position x) ≡ x
member-operator ingest = refl
member-operator _ = refl

instance abbrev pub operator_eq : Comparable OperatorType
operator_eq = enum_eq operator_position operator_member member-operator

-- `operator.value`
abbrev pub operator_text : OperatorType → String
operator_text ingest = "INGEST"
operator_text extract = "EXTRACT"
operator_text compare = "COMPARE"
operator_text transform = "TRANSFORM"
operator_text decompose = "DECOMPOSE"
operator_text compose = "COMPOSE"
operator_text calculate = "CALCULATE"
operator_text retrieve = "RETRIEVE"
operator_text test = "TEST"
operator_text validate = "VALIDATE"
operator_text act = "ACT"
operator_text decide = "DECIDE"
operator_text escalate = "ESCALATE"

pub record OperationalCondition : Type 0 where
  pub condition_id : String
  pub description : String
  pub required_environment : String
  pub required_resources : List String

pub record ConditionalCapability : Type 0 where
  pub capability_id : String
  pub actor_id : String
  pub operator_type : OperatorType
  pub supported_environments : List String
  pub supported_conditions : List OperationalCondition
  pub required_evidence_classes : List EvidenceClass
  pub kind : CapabilityKind
  pub lifecycle_state : CapabilityLifecycleState
  pub epistemic_status : CapabilityEpistemicStatus
  pub limitations : List String

pub record RequiredOperation : Type 0 where
  pub operation_id : String
  pub operator : OperatorType
  pub semantic_responsibility : String
  pub inputs : List String
  pub outputs : List String

pub record CapabilityDeficit : Type 0 where
  pub required_operation_id : String
  pub missing_capability : String
  pub consequence : String
  pub provisionable : Bool
  pub acquisition_route : String

-- `self.epistemic_status in (QUALIFIED, APPLICABLE, AUTHORIZED)`
abbrev pub is_established : CapabilityEpistemicStatus → Bool
is_established qualified = true
is_established applicable = true
is_established authorized = true
is_established _ = false

unfoldable pub is_met_in : String → List String → OperationalCondition → Bool
is_met_in environment resources c =
    (c.required_environment == environment || c.required_environment == "*")
    && not (any (λ r. not (contains r c.required_resources)) resources)

-- Capabilities without conditions pass the test of the conditions.
unfoldable pub is_applicable : String → List String → ConditionalCapability → Bool
is_applicable environment resources cap =
    is_established cap.epistemic_status
    && (contains environment cap.supported_environments
        && (is_empty cap.supported_conditions
            || any (is_met_in environment resources) cap.supported_conditions))

pub record CapabilityDeficitEngine : Type 0 where
  pub registry : List (String × ConditionalCapability)

unfoldable pub register_capability :
    ConditionalCapability → CapabilityDeficitEngine → CapabilityDeficitEngine
register_capability cap engine = record {
  registry = set_item cap.capability_id cap engine.registry;
}

abbrev pub serves : String → RequiredOperation → String × ConditionalCapability → Bool
serves environment op item =
    item.1.operator_type == op.operator && is_applicable environment op.inputs item.1

unfoldable pub deficit_of : RequiredOperation → CapabilityDeficit
deficit_of op = record {
  required_operation_id = op.operation_id;
  missing_capability =
      concat ("Operator_" ∷ operator_text op.operator ∷ "_for_" ∷ op.semantic_responsibility ∷ []);
  consequence = concat ("Cannot execute required transition: " ∷ op.semantic_responsibility ∷ []);
  provisionable = true;
  acquisition_route = "PROVISION";
}

-- `if matched: bound_caps.append(matched) else: deficits.append(...)`
abbrev pub settled :
    RequiredOperation
    → Option (String × ConditionalCapability)
    → List ConditionalCapability × List CapabilityDeficit
    → List ConditionalCapability × List CapabilityDeficit
settled op (some item) rest = (item.1 ∷ rest.0, rest.1)
settled op none rest = (rest.0, deficit_of op ∷ rest.1)

-- The bound capabilities and the deficits, in the order of the operations.
unfoldable pub evaluate_required_operations :
    CapabilityDeficitEngine
    → String
    → List RequiredOperation
    → List ConditionalCapability × List CapabilityDeficit
evaluate_required_operations engine environment [] = ([], [])
evaluate_required_operations engine environment (op ∷ required_ops) =
    settled op (select_one (serves environment op) engine.registry)
      (evaluate_required_operations engine environment required_ops)
