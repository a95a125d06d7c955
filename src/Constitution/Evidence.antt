-- ===== src/Constitution/Evidence.antt =====
-- RelationalEvidenceEvaluator (loop_engine/constitution/evidence.py). `compute_digest` of Forge,
-- canonical JSON and SHA-256, is a parameter on the items of a dictionary. A coverage is only
-- compared, and an exit code only with zero, so a number stands for each; notes and timestamps are
-- left out.
pub mod Verdicts
use shadows.Prelude.{
  ltb, nat_beq, if◌then◌else◌, is_empty, nth, Comparable, ◌==◌, number_eq, text_eq, enum_eq,
  contains, ℕ, String, ◌≡◌, refl, Bool, false, not, ◌&&◌, ◌||◌, Option, none, some, List, [], ◌∷◌,
  ◌++◌,
}

pub data EpistemicDimension : Type 0 where
  supported unsupported contested unknown contradicted : EpistemicDimension

pub data ApplicabilityDimension : Type 0 where
  applicable inapplicable unresolved : ApplicabilityDimension

pub data ObservationDimension : Type 0 where
  observed unobserved unavailable : ObservationDimension

abbrev epistemic_position : EpistemicDimension → ℕ
epistemic_position supported = 0
epistemic_position unsupported = 1
epistemic_position contested = 2
epistemic_position unknown = 3
epistemic_position contradicted = 4

abbrev epistemic_member : ℕ → EpistemicDimension
epistemic_member n =
    nth supported (supported ∷ unsupported ∷ contested ∷ unknown ∷ contradicted ∷ []) n

pub member-epistemic : (x : EpistemicDimension) → epistemic_member (epistemic_position x) ≡ x
member-epistemic supported = refl
member-epistemic _ = refl

instance abbrev pub epistemic_eq : Comparable EpistemicDimension
epistemic_eq = enum_eq epistemic_position epistemic_member member-epistemic

abbrev applicability_position : ApplicabilityDimension → ℕ
applicability_position applicable = 0
applicability_position inapplicable = 1
applicability_position unresolved = 2

abbrev applicability_member : ℕ → ApplicabilityDimension
applicability_member n = nth applicable (applicable ∷ inapplicable ∷ unresolved ∷ []) n

pub member-applicability :
    (x : ApplicabilityDimension) → applicability_member (applicability_position x) ≡ x
member-applicability applicable = refl
member-applicability _ = refl

instance abbrev pub applicability_eq : Comparable ApplicabilityDimension
applicability_eq = enum_eq applicability_position applicability_member member-applicability

abbrev observation_position : ObservationDimension → ℕ
observation_position observed = 0
observation_position unobserved = 1
observation_position unavailable = 2

abbrev observation_member : ℕ → ObservationDimension
observation_member n = nth observed (observed ∷ unobserved ∷ unavailable ∷ []) n

pub member-observation :
    (x : ObservationDimension) → observation_member (observation_position x) ≡ x
member-observation observed = refl
member-observation _ = refl

instance abbrev pub observation_eq : Comparable ObservationDimension
observation_eq = enum_eq observation_position observation_member member-observation

-- A value of the dictionaries that are digested.
pub data Json : Type 0 where
  text : String → Json
  number : ℕ → Json
  null : Json
  texts : List String → Json
  status : ObservationDimension → Json

abbrev json_of : Option String → Json
json_of none = null
json_of (some s) = text s

pub record VerifierSpecification : Type 0 where
  pub spec_id : String
  pub target_claim_id : String
  pub verification_modality : String
  pub expected_scope : String
  pub target_candidate_sha : Option String
  pub required_environment_pattern : Option String
  pub min_coverage_percentage : ℕ
  pub explicit_non_claims : List String
  pub verifier_identity : String

pub record VerifierExecutionObservation : Type 0 where
  pub observation_id : String
  pub spec_digest : String
  pub executed_command : String
  pub collector_type : String
  pub exit_code : ℕ
  pub tests_collected : ℕ
  pub tests_passed : ℕ
  pub tests_failed : ℕ
  pub coverage_percentage : ℕ
  pub candidate_sha : String
  pub environment_fingerprint : String
  pub observation_status : ObservationDimension
  pub is_falsified : Bool

pub record QualifiedEvidence : Type 0 where
  pub evidence_id : String
  pub specification : VerifierSpecification
  pub observation : VerifierExecutionObservation

-- The fields of an EpistemicClaim that the evaluator reads, and what names it.
pub record EpistemicClaim : Type 0 where
  pub claim_id : String
  pub subject : String
  pub predicate : String
  pub required_scope : String
  pub target_candidate_sha : Option String
  pub required_environment : Option String

-- What the loop over the evidence has found; `refused` is the result of an early return.
pub record Tally : Type 0 where
  pub refused : Option (EpistemicDimension × ApplicabilityDimension)
  pub seen_digests : List String
  pub valid_supports : List QualifiedEvidence
  pub contradictions : List QualifiedEvidence

-- `if wanted and actual != wanted`: an empty text asks for nothing.
abbrev pub differs : Option String → String → Bool
differs none actual = false
differs (some wanted) actual = not (wanted == "") && not (actual == wanted)

-- 7. to 9.: what an observation says of the claim.
unfoldable pub contradicts : QualifiedEvidence → Bool
contradicts ev =
    let obs = ev.observation in
    obs.is_falsified
    || ltb obs.coverage_percentage ev.specification.min_coverage_percentage
    || ltb 0 obs.tests_failed
    || not (nat_beq obs.exit_code 0)

unfoldable pub supports : QualifiedEvidence → Bool
supports ev = not (contradicts ev) && ltb 0 ev.observation.tests_passed

-- What the first of the tests that holds returns.
abbrev pub first_refusal :
    List (Bool × (EpistemicDimension × ApplicabilityDimension))
    → Option (EpistemicDimension × ApplicabilityDimension)
first_refusal [] = none
first_refusal (check ∷ checks) = if check.0 then some check.1 else first_refusal checks

module _ (compute_digest : List (String × Json) → String) where
  -- VerifierSpecification.spec_digest
  abbrev pub spec_digest : VerifierSpecification → String
  spec_digest spec = compute_digest (
      ("id", text spec.spec_id)
      ∷ ("claim", text spec.target_claim_id)
      ∷ ("modality", text spec.verification_modality)
      ∷ ("scope", text spec.expected_scope)
      ∷ ("candidate", json_of spec.target_candidate_sha)
      ∷ ("env", json_of spec.required_environment_pattern)
      ∷ ("non_claims", texts spec.explicit_non_claims)
      ∷ ("verifier", text spec.verifier_identity)
      ∷ [])

  -- VerifierExecutionObservation.observation_digest
  abbrev pub observation_digest : VerifierExecutionObservation → String
  observation_digest obs = compute_digest (
      ("id", text obs.observation_id)
      ∷ ("spec_digest", text obs.spec_digest)
      ∷ ("cmd", text obs.executed_command)
      ∷ ("exit", number obs.exit_code)
      ∷ ("passed", number obs.tests_passed)
      ∷ ("failed", number obs.tests_failed)
      ∷ ("coverage", number obs.coverage_percentage)
      ∷ ("candidate", text obs.candidate_sha)
      ∷ ("env", text obs.environment_fingerprint)
      ∷ ("status", status obs.observation_status)
      ∷ [])

  -- obs_binding_digest
  abbrev pub binding_digest : QualifiedEvidence → String
  binding_digest ev = compute_digest (
      ("spec", text (spec_digest ev.specification))
      ∷ ("obs", text (observation_digest ev.observation))
      ∷ [])

  module _ (claim : EpistemicClaim)
      (active_candidate_sha active_environment_fingerprint : Option String) where
    -- 2. to 6.: the early returns, in their order.
    abbrev pub checks :
        QualifiedEvidence → List (Bool × (EpistemicDimension × ApplicabilityDimension))
    checks ev =
        let spec = ev.specification in
        let obs = ev.observation in
        ((not (obs.spec_digest == spec_digest spec), (unsupported, inapplicable))
          ∷ (not (spec.target_claim_id == claim.claim_id), (unsupported, inapplicable))
          ∷ (differs claim.target_candidate_sha obs.candidate_sha, (unsupported, inapplicable))
          ∷ (differs active_candidate_sha obs.candidate_sha, (unsupported, inapplicable))
          ∷ (
            differs claim.required_environment obs.environment_fingerprint,
            (unsupported, inapplicable),
          )
          ∷ (
            differs active_environment_fingerprint obs.environment_fingerprint,
            (unsupported, inapplicable),
          )
          ∷ (obs.observation_status == unavailable, (unsupported, unresolved))
          ∷ [])

    unfoldable pub refusal :
        QualifiedEvidence → Option (EpistemicDimension × ApplicabilityDimension)
    refusal ev = first_refusal (checks ev)

    -- 7. to 9.
    abbrev pub weighed : QualifiedEvidence → Tally → Tally
    weighed ev t =
        if contradicts ev
        then record t { contradictions = t.contradictions ++ ev ∷ [] }
        else if supports ev
        then record t { valid_supports = t.valid_supports ++ ev ∷ [] }
        else t

    -- The body of the loop. After an early return nothing more happens.
    unfoldable pub evaluate_one : QualifiedEvidence → Tally → Tally
    evaluate_one ev t = elim t.refused [
      | some _ ↦ t
      | none ↦
          if contains (binding_digest ev) t.seen_digests
          then t
          else let t' = record t { seen_digests = binding_digest ev ∷ t.seen_digests } in
            elim (refusal ev) [
              | some verdict ↦ record t' { refused = some verdict }
              | none ↦ weighed ev t'
            ]
    ]

    unfoldable pub evaluate_all : List QualifiedEvidence → Tally → Tally
    evaluate_all [] t = t
    evaluate_all (ev ∷ evs) t = evaluate_all evs (evaluate_one ev t)

    abbrev pub empty_tally : Tally
    empty_tally = record {
      refused = none;
      seen_digests = [];
      valid_supports = [];
      contradictions = [];
    }

    abbrev pub concluded : Tally → EpistemicDimension × ApplicabilityDimension
    concluded t = elim t.refused [
      | some verdict ↦ verdict
      | none ↦
          if not (is_empty t.contradictions)
          then (contradicted, applicable)
          else if not (is_empty t.valid_supports)
          then (supported, applicable)
          else (unsupported, unresolved)
    ]

    unfoldable pub evaluate_claim :
        List QualifiedEvidence → EpistemicDimension × ApplicabilityDimension
    evaluate_claim [] = (unsupported, unresolved)
    evaluate_claim (ev ∷ evs) = concluded (evaluate_all (ev ∷ evs) empty_tally)
