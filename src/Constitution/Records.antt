-- ===== src/Constitution/Records.antt =====
-- What objectives are made of (loop_engine/constitution/lifecycle.py), and what they take from
-- Forge (Forge/core/substrate.py). The functions on texts that Python brings are fields of `Texts`.
-- Timestamps, reasons and confidences are left out, and so are the fields of a requirement that
-- have their defaults here.
use shadows.Prelude.{
  nth, Comparable, ◌==◌, number_eq, text_eq, enum_eq, ℕ, String, ◌≡◌, refl, Bool, Option, List, [],
  ◌∷◌,
}

pub data SemanticQualificationStatus : Type 0 where
  qualified ambiguous human_authority_required : SemanticQualificationStatus
  domain_authority_required insufficient_information contested : SemanticQualificationStatus
  provisional rejected : SemanticQualificationStatus

pub data RevisionType : Type 0 where
  initial_creation clarification requirement_addition : RevisionType
  requirement_removal scope_expansion scope_reduction : RevisionType
  constraint_change semantic_correction : RevisionType

pub data RequirementOrigin : Type 0 where
  source_explicit system_invariant domain_derived : RequirementOrigin
  assumed : RequirementOrigin

pub data RequirementDisposition : Type 0 where
  preserved normalized deferred : RequirementDisposition
  rejected_clause ambiguous_clause irrelevant : RequirementDisposition

pub data ObjectiveAdequacyState : Type 0 where
  adequate_for_execution source_uncovered source_ambiguous : ObjectiveAdequacyState
  domain_requirements_unverified requires_capability : ObjectiveAdequacyState

abbrev qualification_position : SemanticQualificationStatus → ℕ
qualification_position qualified = 0
qualification_position ambiguous = 1
qualification_position human_authority_required = 2
qualification_position domain_authority_required = 3
qualification_position insufficient_information = 4
qualification_position contested = 5
qualification_position provisional = 6
qualification_position rejected = 7

abbrev qualification_member : ℕ → SemanticQualificationStatus
qualification_member n =
    nth qualified
      (qualified ∷ ambiguous ∷ human_authority_required ∷ domain_authority_required
        ∷ insufficient_information ∷ contested ∷ provisional ∷ rejected ∷ [])
      n

pub member-qualification :
    (x : SemanticQualificationStatus) → qualification_member (qualification_position x) ≡ x
member-qualification qualified = refl
member-qualification _ = refl

instance abbrev pub qualification_eq : Comparable SemanticQualificationStatus
qualification_eq = enum_eq qualification_position qualification_member member-qualification

abbrev revision_position : RevisionType → ℕ
revision_position initial_creation = 0
revision_position clarification = 1
revision_position requirement_addition = 2
revision_position requirement_removal = 3
revision_position scope_expansion = 4
revision_position scope_reduction = 5
revision_position constraint_change = 6
revision_position semantic_correction = 7

abbrev revision_member : ℕ → RevisionType
revision_member n =
    nth initial_creation
      (initial_creation ∷ clarification ∷ requirement_addition ∷ requirement_removal
        ∷ scope_expansion ∷ scope_reduction ∷ constraint_change ∷ semantic_correction ∷ [])
      n

pub member-revision : (x : RevisionType) → revision_member (revision_position x) ≡ x
member-revision initial_creation = refl
member-revision _ = refl

instance abbrev pub revision_eq : Comparable RevisionType
revision_eq = enum_eq revision_position revision_member member-revision

pub record Texts : Type 0 where
  -- `s.strip()`, `s.lower()`, `len(s)` and `str(n)`
  pub strip : String → String
  pub lower : String → String
  pub len : String → ℕ
  pub number_text : ℕ → String
  -- `s in t`
  pub is_within : String → String → Bool
  -- `compute_digest` of a text
  pub digest : String → String

pub record RawClause : Type 0 where
  pub clause_id : String
  pub text : String
  pub is_constraint : Bool
  pub is_deliverable : Bool

pub record RequirementTrace : Type 0 where
  pub raw_clause_id : String
  pub raw_text : String
  pub disposition : RequirementDisposition
  pub canonical_target : String

pub record CanonicalRequirement : Type 0 where
  pub requirement_id : String
  pub description : String
  pub origin : RequirementOrigin
  pub source_clause_id : Option String
  pub is_blocking : Bool

pub record ObjectiveAdequacyContract : Type 0 where
  pub objective_id : String
  pub adequacy_state : ObjectiveAdequacyState
  pub raw_clauses : List RawClause
  pub traces : List RequirementTrace
  pub unaccounted_drops : List String

pub record RawIntent : Type 0 where
  pub raw_text : String
  pub source_identity : String
  pub intent_hash : String

pub record ProposedRequirement : Type 0 where
  pub proposal_id : String
  pub raw_clause_id : String
  pub description : String
  pub claimed_origin : RequirementOrigin
  pub is_blocking : Bool
  pub proposer_identity : String

pub record CandidateInterpretation : Type 0 where
  pub candidate_id : String
  pub source_intent_hash : String
  pub proposed_clauses : List RawClause
  pub proposed_requirements : List ProposedRequirement
  pub proposer_identity : String

pub record ObjectiveRevisionAuthorization : Type 0 where
  pub authorization_id : String
  pub authorizing_principal : String
  pub authority_proof_token : String
  pub target_objective_id : String
  pub target_version : ℕ
  pub authorized_revision_types : List RevisionType

pub record VersionedObjectiveSpecification : Type 0 where
  pub objective_id : String
  pub version : ℕ
  pub canonical_intent : String
  pub intent_hash : String
  pub requirements : List CanonicalRequirement
  pub qualification_status : SemanticQualificationStatus
  pub adequacy_contract : Option ObjectiveAdequacyContract
  pub parent_version : Option ℕ
  pub revision_type : RevisionType
  pub revision_authorization : Option ObjectiveRevisionAuthorization

-- VersionedObjectiveSpecification.is_executable
abbrev pub is_executable : VersionedObjectiveSpecification → Bool
is_executable spec = spec.qualification_status == qualified
