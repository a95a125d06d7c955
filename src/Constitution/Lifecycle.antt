-- ===== src/Constitution/Lifecycle.antt =====
-- ObjectiveLifecycleManager (loop_engine/constitution/lifecycle.py): its dictionary of the versions
-- of each objective. The tokenizer of clauses is Forge's and is a parameter.
pub mod Revisions
pub mod Candidates
use shadows.Prelude.{
  ltb, if◌then◌else◌, length, is_empty, last?, ◌==◌, number_eq, text_eq, contains, select,
  select_one, concat, get_item, set_item, ℕ, ◌+◌, String, Bool, false, not, ◌&&◌, ◌||◌, Option,
  none, some, List, [], ◌∷◌, ◌++◌, map,
}
use shadows.Outcome.{permission_error, Result, ok, ◌>>◌, guard}
use shadows.Constitution.Records.{
  SemanticQualificationStatus, qualified, insufficient_information, rejected, RevisionType,
  initial_creation, source_explicit, assumed, preserved, ambiguous_clause, adequate_for_execution,
  source_uncovered, qualification_eq, revision_eq, Texts, RawClause, RequirementTrace,
  CanonicalRequirement, ObjectiveAdequacyContract, RawIntent, ProposedRequirement,
  CandidateInterpretation, ObjectiveRevisionAuthorization, VersionedObjectiveSpecification,
}

pub record ObjectiveLifecycleManager : Type 0 where
  pub objectives : List (String × List VersionedObjectiveSpecification)

abbrev pub versions_of : String → ObjectiveLifecycleManager → List VersionedObjectiveSpecification
versions_of objective_id m = elim (get_item objective_id m.objectives) [
  | none ↦ []
  | some specs ↦ specs
]

-- `_record_spec`
unfoldable pub record_spec :
    VersionedObjectiveSpecification → ObjectiveLifecycleManager → ObjectiveLifecycleManager
record_spec spec m = record {
  objectives =
      set_item spec.objective_id (versions_of spec.objective_id m ++ spec ∷ []) m.objectives;
}

unfoldable pub get_version :
    String → ℕ → ObjectiveLifecycleManager → Option VersionedObjectiveSpecification
get_version objective_id version m =
    select_one (λ spec. spec.version == version) (versions_of objective_id m)

unfoldable pub get_latest :
    String → ObjectiveLifecycleManager → Option VersionedObjectiveSpecification
get_latest objective_id m = last? (versions_of objective_id m)

-- What `qualify_intent` has made of the proposed requirements.
pub record Traced : Type 0 where
  pub canonical_reqs : List CanonicalRequirement
  pub traces : List RequirementTrace
  pub covered_clause_ids : List String

module _ (texts : Texts) where
  -- ObjectiveRevisionAuthorization.is_valid_for
  unfoldable pub is_valid_for : ObjectiveRevisionAuthorization → String → ℕ → RevisionType → Bool
  is_valid_for auth objective_id current_version revision_type =
      if texts.strip auth.authority_proof_token == ""
      then false
      else if not (auth.target_objective_id == objective_id)
      then false
      else if not (auth.target_version == current_version)
      then false
      else contains revision_type auth.authorized_revision_types

  -- `not requirements and len(intent.strip()) > 5`
  abbrev pub is_undersized : List CanonicalRequirement → String → Bool
  is_undersized requirements intent =
      is_empty requirements && ltb 5 (texts.len (texts.strip intent))

  abbrev pub new_spec :
      VersionedObjectiveSpecification
      → RevisionType
      → String
      → List CanonicalRequirement
      → ObjectiveRevisionAuthorization
      → VersionedObjectiveSpecification
  new_spec current_spec revision_type new_intent revised_requirements auth = record {
    objective_id = current_spec.objective_id;
    version = current_spec.version + 1;
    canonical_intent = new_intent;
    intent_hash = texts.digest new_intent;
    requirements = revised_requirements;
    qualification_status =
        if is_undersized revised_requirements new_intent
        then insufficient_information
        else qualified;
    adequacy_contract = none;
    parent_version = some current_spec.version;
    revision_type = revision_type;
    revision_authorization = some auth;
  }

  -- `revised_intent if revised_intent is not None else current_spec.canonical_intent`
  abbrev pub intent_or : Option String → String → String
  intent_or none old = old
  intent_or (some new) old = new

  unfoldable pub revise_objective :
      VersionedObjectiveSpecification
      → RevisionType
      → Option String
      → List CanonicalRequirement
      → ObjectiveRevisionAuthorization
      → ObjectiveLifecycleManager
      → Result (VersionedObjectiveSpecification × ObjectiveLifecycleManager)
  revise_objective current_spec revision_type revised_intent revised_requirements auth m = do
    guard (is_valid_for auth current_spec.objective_id current_spec.version revision_type)
        permission_error
    let spec =
          new_spec current_spec revision_type
            (intent_or revised_intent current_spec.canonical_intent) revised_requirements auth in
        ok (spec, record_spec spec m)

  -- The test that finds the clause of a proposed requirement.
  unfoldable pub is_match : ProposedRequirement → RawClause → Bool
  is_match prop c =
      c.clause_id == prop.raw_clause_id
      || texts.is_within (texts.lower prop.description) (texts.lower c.text)
      || texts.is_within (texts.lower c.text) (texts.lower prop.description)

  abbrev or_text : String → String → String
  or_text s default = if s == "" then default else s

  -- 3. The requirement that is made of a proposed one, its trace, and the clause that it covers.
  abbrev pub trace_as : String → ProposedRequirement → Option RawClause → Traced → Traced
  trace_as req_id prop none t = record t {
    canonical_reqs =
        t.canonical_reqs
        ++ record {
          requirement_id = req_id;
          description = prop.description;
          origin = assumed;
          source_clause_id = none;
          is_blocking = prop.is_blocking;
        }
          ∷ [];
    traces =
        t.traces
        ++ record {
          raw_clause_id = or_text prop.raw_clause_id "unmapped";
          raw_text = prop.description;
          disposition = ambiguous_clause;
          canonical_target = req_id;
        }
          ∷ [];
  }
  trace_as req_id prop (some c) t = record {
    canonical_reqs =
        t.canonical_reqs
        ++ record {
          requirement_id = req_id;
          description = prop.description;
          origin = source_explicit;
          source_clause_id = some c.clause_id;
          is_blocking = prop.is_blocking;
        }
          ∷ [];
    traces =
        t.traces
        ++ record {
          raw_clause_id = c.clause_id;
          raw_text = c.text;
          disposition = preserved;
          canonical_target = req_id;
        }
          ∷ [];
    covered_clause_ids = c.clause_id ∷ t.covered_clause_ids;
  }

  -- for prop in candidate.proposed_requirements: ...
  unfoldable pub trace_all : List RawClause → List ProposedRequirement → Traced → Traced
  trace_all raw_clauses [] t = t
  trace_all raw_clauses (prop ∷ props) t =
      let req_id =
        or_text prop.proposal_id
          (concat ("req_" ∷ texts.number_text (length t.canonical_reqs + 1) ∷ [])) in
      trace_all raw_clauses props (trace_as req_id prop (select_one (is_match prop) raw_clauses) t)

  -- The texts of the clauses that no requirement covers.
  abbrev pub drops : List String → List RawClause → List String
  drops covered clauses =
      map (λ c. c.text) (select (λ c. not (contains c.clause_id covered)) clauses)

  abbrev pub first_version :
      String
      → String
      → String
      → List CanonicalRequirement
      → SemanticQualificationStatus
      → Option ObjectiveAdequacyContract
      → VersionedObjectiveSpecification
  first_version objective_id intent intent_hash requirements status contract = record {
    objective_id = objective_id;
    version = 1;
    canonical_intent = intent;
    intent_hash = intent_hash;
    requirements = requirements;
    qualification_status = status;
    adequacy_contract = contract;
    parent_version = none;
    revision_type = initial_creation;
    revision_authorization = none;
  }

  -- 3. to 5.
  abbrev pub qualify_clauses :
      String
      → String
      → String
      → List RawClause
      → List ProposedRequirement
      → VersionedObjectiveSpecification
  qualify_clauses objective_id raw_clean intent_hash raw_clauses props =
      let t =
        trace_all raw_clauses props
          (record { canonical_reqs = []; traces = []; covered_clause_ids = [] }) in
      let dropped = drops t.covered_clause_ids raw_clauses in
      first_version objective_id raw_clean intent_hash t.canonical_reqs
        (if is_empty dropped then qualified else insufficient_information)
        (some (record {
          objective_id = objective_id;
          adequacy_state = if is_empty dropped then adequate_for_execution else source_uncovered;
          raw_clauses = raw_clauses;
          traces = t.traces;
          unaccounted_drops = dropped;
        }))

  module _ (tokenize : String → List RawClause) where
    abbrev pub clauses_or : List RawClause → String → List RawClause
    clauses_or [] raw_clean = tokenize raw_clean
    clauses_or (c ∷ cs) raw_clean = c ∷ cs

    unfoldable pub qualify_intent :
        String
        → RawIntent
        → CandidateInterpretation
        → ObjectiveLifecycleManager
        → VersionedObjectiveSpecification × ObjectiveLifecycleManager
    qualify_intent objective_id raw_intent candidate m =
        let raw_clean = texts.strip raw_intent.raw_text in
        let raw_clauses = clauses_or candidate.proposed_clauses raw_clean in
        let unproposed =
          first_version objective_id raw_clean raw_intent.intent_hash [] insufficient_information (
            some (record {
              objective_id = objective_id;
              adequacy_state = source_uncovered;
              raw_clauses = raw_clauses;
              traces = [];
              unaccounted_drops = raw_clean ∷ [];
            })) in
        let spec =
          qualify_clauses objective_id raw_clean raw_intent.intent_hash raw_clauses
            candidate.proposed_requirements in
        if raw_clean == ""
        then (first_version objective_id "" raw_intent.intent_hash [] rejected none, m)
        else if is_empty candidate.proposed_requirements && ltb 5 (texts.len raw_clean)
        then (unproposed, record_spec unproposed m)
        else (spec, record_spec spec m)
