-- ===== src/Constitution/Sufficiency.antt =====
-- Law6SufficiencyEngine (loop_engine/constitution/sufficiency.py). The ids of a proof stand in the
-- order of the requirements, where the source sorts them, and its digest is left out.
pub mod Law6
use shadows.Prelude.{
  ltb, if◌then◌else◌, is_empty, any, ◌==◌, number_eq, text_eq, contains, select, concat, get_item,
  ℕ, String, Bool, false, not, ◌&&◌, Option, none, some, List, [], ◌∷◌, ◌++◌,
}
use shadows.Constitution.Records.{
  SemanticQualificationStatus, qualified, ambiguous, human_authority_required,
  domain_authority_required, insufficient_information, contested, provisional, rejected,
  qualification_eq, revision_eq, Texts, CanonicalRequirement, VersionedObjectiveSpecification,
}
use shadows.Constitution.Evidence.{
  EpistemicDimension, contradicted, ApplicabilityDimension, epistemic_eq, applicability_eq,
  observation_eq, Json, texts, QualifiedEvidence, EpistemicClaim, evaluate_claim,
}
use shadows.Constitution.Evidence.Verdicts.{is_supported}
use shadows.Relational.Schema.{
  EpistemicStatus, status_eq, node_type_eq, relation_eq, RelationalNode,
}
use shadows.Relational.Store.{RelationalGraphStore, get_node}

pub data CompositionRule : Type 0 where
  mandatory_conjunction authoritative_alternatives : CompositionRule
  conditional optional_preference : CompositionRule

pub record ObjectiveSufficiencyProof : Type 0 where
  pub objective_id : String
  pub objective_version : ℕ
  pub is_satisfied : Bool
  pub satisfied_requirement_ids : List String
  pub unresolved_mandatory_ids : List String
  pub falsified_mandatory_ids : List String
  pub composition_rule : CompositionRule

-- What the loop over the requirements has found.
pub record Findings : Type 0 where
  pub satisfied_ids : List String
  pub unresolved_mandatory : List String
  pub falsified_mandatory : List String

-- What one requirement comes to.
pub data Standing : Type 0 where
  met unmet refuted : Standing

-- What the engine reads beside the specification.
pub record Grounds : Type 0 where
  pub claims : List (String × EpistemicClaim)
  pub evidence_by_claim : List (String × List QualifiedEvidence)
  pub active_candidate_sha : Option String
  pub active_environment_fingerprint : Option String
  pub jtms_store : Option RelationalGraphStore

abbrev pub status_text : SemanticQualificationStatus → String
status_text qualified = "QUALIFIED"
status_text ambiguous = "AMBIGUOUS"
status_text human_authority_required = "HUMAN_AUTHORITY_REQUIRED"
status_text domain_authority_required = "DOMAIN_AUTHORITY_REQUIRED"
status_text insufficient_information = "INSUFFICIENT_INFORMATION"
status_text contested = "CONTESTED"
status_text provisional = "PROVISIONAL"
status_text rejected = "REJECTED"

-- node.epistemic_status in (INVALIDATED, CONTESTED, PROPOSED)
abbrev is_retracted : Option RelationalNode → Bool
is_retracted none = false
is_retracted (some node) =
    contains node.epistemic_status
      (EpistemicStatus.invalidated ∷ EpistemicStatus.contested ∷ EpistemicStatus.proposed ∷ [])

-- The live check of an id, if there is a store.
unfoldable pub is_dead : Option RelationalGraphStore → String → Bool
is_dead none id = false
is_dead (some store) id = is_retracted (get_node id store)

abbrev or_none_of : Option (List QualifiedEvidence) → List QualifiedEvidence
or_none_of none = []
or_none_of (some evs) = evs

-- The evidence for a claim that is not retracted.
abbrev pub live_evidence : Grounds → EpistemicClaim → List QualifiedEvidence
live_evidence g claim =
    select (λ ev. not (is_dead g.jtms_store ev.evidence_id))
      (or_none_of (get_item claim.claim_id g.evidence_by_claim))

module _ (compute_digest : List (String × Json) → String) (g : Grounds) where
  abbrev pub verdict_on : EpistemicClaim → EpistemicDimension × ApplicabilityDimension
  verdict_on claim =
      evaluate_claim compute_digest claim g.active_candidate_sha g.active_environment_fingerprint
        (live_evidence g claim)

  abbrev pub standing_by : EpistemicDimension × ApplicabilityDimension → Standing
  standing_by v = if is_supported v then met else if v.0 == contradicted then refuted else unmet

  -- 3. Evaluate each canonical requirement
  unfoldable pub standing : CanonicalRequirement → Standing
  standing req = elim (get_item req.requirement_id g.claims) [
    | none ↦ unmet
    | some claim ↦
        if is_dead g.jtms_store req.requirement_id then unmet else standing_by (verdict_on claim)
  ]

  abbrev pub recorded : Standing → CanonicalRequirement → Findings → Findings
  recorded met req f = record f { satisfied_ids = f.satisfied_ids ++ req.requirement_id ∷ [] }
  recorded unmet req f =
      if req.is_blocking
      then record f { unresolved_mandatory = f.unresolved_mandatory ++ req.requirement_id ∷ [] }
      else f
  recorded refuted req f =
      if req.is_blocking
      then record f { falsified_mandatory = f.falsified_mandatory ++ req.requirement_id ∷ [] }
      else f

  unfoldable pub evaluate_requirements : List CanonicalRequirement → Findings → Findings
  evaluate_requirements [] f = f
  evaluate_requirements (req ∷ reqs) f = evaluate_requirements reqs (recorded (standing req) req f)

abbrev or_no_ids : Option (List String) → List String
or_no_ids none = []
or_no_ids (some ids) = ids

abbrev pub all_resolved : Findings → Bool
all_resolved f = is_empty f.unresolved_mandatory && not (is_empty f.satisfied_ids)

-- 4. Evaluate composition rule
abbrev pub composed : CompositionRule → Option (List String) → Findings → Bool
composed mandatory_conjunction alternative_ids f = all_resolved f
composed authoritative_alternatives alternative_ids f =
    let target_alt_ids = or_no_ids alternative_ids in
    any (λ i. contains i target_alt_ids) f.satisfied_ids
    && is_empty (select (λ i. not (contains i target_alt_ids)) f.unresolved_mandatory)
composed conditional alternative_ids f = all_resolved f
composed optional_preference alternative_ids f = all_resolved f

abbrev pub build_proof :
    VersionedObjectiveSpecification → Bool → Findings → CompositionRule → ObjectiveSufficiencyProof
build_proof spec is_satisfied f rule = record {
  objective_id = spec.objective_id;
  objective_version = spec.version;
  is_satisfied = is_satisfied;
  satisfied_requirement_ids = f.satisfied_ids;
  unresolved_mandatory_ids = f.unresolved_mandatory;
  falsified_mandatory_ids = f.falsified_mandatory;
  composition_rule = rule;
}

abbrev unresolved_only : String → Findings
unresolved_only why = record {
  satisfied_ids = [];
  unresolved_mandatory = why ∷ [];
  falsified_mandatory = [];
}

abbrev pub nothing_found : Findings
nothing_found = record { satisfied_ids = []; unresolved_mandatory = []; falsified_mandatory = [] }

module _ (compute_digest : List (String × Json) → String) (texts : Texts) (g : Grounds) where
  unfoldable pub evaluate_specification :
      VersionedObjectiveSpecification
      → CompositionRule
      → Option (List String)
      → ObjectiveSufficiencyProof
  evaluate_specification spec rule alternative_ids =
      let f = evaluate_requirements compute_digest g spec.requirements nothing_found in
      if not (spec.qualification_status == qualified)
      then build_proof spec false
          (unresolved_only
            (concat ("UNQUALIFIED_SPECIFICATION_" ∷ status_text spec.qualification_status ∷ [])))
          rule
      else if is_empty spec.requirements && ltb 0 (texts.len (texts.strip spec.canonical_intent))
      then build_proof spec false (unresolved_only "INSUFFICIENT_REQUIREMENTS_EMPTY_SET") rule
      else build_proof spec
          (if not (is_empty f.falsified_mandatory) then false else composed rule alternative_ids f)
          f rule
