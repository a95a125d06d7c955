-- ===== src/Constitution/Lifecycle/Candidates.antt =====
-- What the qualification of a candidate interpretation does not look at.
use shadows.Prelude.{
  ◌==◌, number_eq, text_eq, eqb_refl, String, ◌≡◌, refl, sym, subst, true, false, some, List, [],
  ◌∷◌, eq_iff,
}
use shadows.Constitution.Records.{
  qualified, qualification_eq, revision_eq, Texts, RawClause, RawIntent, ProposedRequirement,
  CandidateInterpretation, VersionedObjectiveSpecification,
}
use shadows.Constitution.Lifecycle.{
  ObjectiveLifecycleManager, record_spec, get_latest, is_match, trace_all, qualify_clauses,
  qualify_intent,
}
use shadows.Constitution.Lifecycle.Revisions.{get_latest-record_spec}

-- A candidate that brings one clause of its own and one requirement for it.
abbrev pub self_serving :
    String → String → RawClause → ProposedRequirement → CandidateInterpretation
self_serving candidate_id proposer clause prop = record {
  candidate_id = candidate_id;
  source_intent_hash = "";
  proposed_clauses = clause ∷ [];
  proposed_requirements = prop ∷ [];
  proposer_identity = proposer;
}

module _ (texts : Texts) (objective_id clean intent_hash : String) (clause : RawClause)
    (prop : ProposedRequirement) (named : prop.raw_clause_id ≡ clause.clause_id) where
  abbrev alone : VersionedObjectiveSpecification
  alone = qualify_clauses texts objective_id clean intent_hash (clause ∷ []) (prop ∷ [])

  matched : is_match texts prop clause ≡ true
  unfolding is_match
  matched =
      let same = (eq_iff clause.clause_id prop.raw_clause_id).1 (sym named) in
      rw (is_match, same) refl

  alone-qualified : alone.qualification_status ≡ qualified
  unfolding trace_all
  alone-qualified = rw (trace_all, matched) (rw (eqb_refl clause.clause_id) refl)

module _ (texts : Texts) (tokenize : String → List RawClause) where
  -- A candidate that brings one clause of its own and one requirement that names it is
  -- QUALIFIED for any intent that is not blank, and the specification is the latest one of the
  -- objective.
  pub self_qualified :
      (objective_id candidate_id proposer : String) (intent : RawIntent) (clause : RawClause)
      (prop : ProposedRequirement) (m : ObjectiveLifecycleManager)
      → (texts.strip intent.raw_text == "") ≡ false
      → prop.raw_clause_id ≡ clause.clause_id
      → let made =
          qualify_intent texts tokenize objective_id intent
            (self_serving candidate_id proposer clause prop)
            m in
        (made.0.qualification_status ≡ qualified)
        × (made.0.canonical_intent ≡ texts.strip intent.raw_text)
        × (get_latest objective_id made.1 ≡ some made.0)
  unfolding qualify_intent trace_all
  self_qualified objective_id candidate_id proposer intent clause prop m full named =
      let clean = texts.strip intent.raw_text in
      let spec = alone texts objective_id clean intent.intent_hash clause prop named in
      let made : qualify_intent texts tokenize objective_id intent
            (self_serving candidate_id proposer clause prop) m
          ≡ (spec, record_spec spec m) =
        rw (qualify_intent, full) refl in
      subst
        (λ r.
          (r.0.qualification_status ≡ qualified)
          × (r.0.canonical_intent ≡ clean)
          × (get_latest objective_id r.1 ≡ some r.0))
        (sym made)
        (
          alone-qualified texts objective_id clean intent.intent_hash clause prop named,
          refl,
          get_latest-record_spec spec m,
        )
