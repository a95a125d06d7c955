-- ===== src/Constitution/Sufficiency/Law6.antt =====
-- When an objective counts as accomplished.
use shadows.Prelude.{
  ltb, if◌then◌else◌, is_empty, any, ◌==◌, number_eq, text_eq, holds_at, get_item, String, ◌≡◌,
  refl, sym, ap, ◌∙◌, Bool, true, false, not, ◌&&◌, ◌||◌, Option, none, some, List, [], ◌∷◌, ◌++◌,
  arith,
}
use shadows.Constitution.Records.{
  qualified, qualification_eq, revision_eq, Texts, CanonicalRequirement,
  VersionedObjectiveSpecification,
}
use shadows.Constitution.Evidence.{
  contradicted, epistemic_eq, applicability_eq, observation_eq, Json, EpistemicClaim,
}
use shadows.Constitution.Evidence.Verdicts.{is_supported}
use shadows.Constitution.Sufficiency.{
  CompositionRule, mandatory_conjunction, authoritative_alternatives, conditional,
  optional_preference, Findings, Standing, met, unmet, refuted, Grounds, is_dead, verdict_on,
  standing_by, standing, recorded, evaluate_requirements, all_resolved, composed, build_proof,
  nothing_found, evaluate_specification,
}
use shadows.Relational.Schema.{status_eq, node_type_eq, relation_eq}

is_empty-snoc : (xs : List String) (x : String) → is_empty (xs ++ x ∷ []) ≡ false
is_empty-snoc [] x = refl
is_empty-snoc (y ∷ xs) x = refl

or_nothing : (a : Bool) → a ≡ (a || false)
or_nothing a = ground arith

or_assoc : (a b c : Bool) → ((a || b) || c) ≡ (a || (b || c))
or_assoc a b c = ground arith

module _ (compute_digest : List (String × Json) → String) (g : Grounds) where
  -- A claim is made for the requirement, its node is not retracted, and the evidence for the claim
  -- that is not retracted supports it.
  abbrev pub is_met : CanonicalRequirement → Bool
  is_met req =
      holds_at (λ claim. is_supported (verdict_on compute_digest g claim))
        (get_item req.requirement_id g.claims)
      && not (is_dead g.jtms_store req.requirement_id)

  is_met_standing : Standing → Bool
  is_met_standing met = true
  is_met_standing unmet = false
  is_met_standing refuted = false

  standing-lem :
      (req : CanonicalRequirement) → is_met_standing (standing compute_digest g req) ≡ is_met req
  unfolding standing is_met_standing
  standing-lem req = split (get_item req.requirement_id g.claims)
    where
      three :
          (dead a b : Bool)
          → is_met_standing
              (if dead then unmet else if a then met else if b then refuted else unmet)
            ≡ (a && not dead)
      three true a b = ground arith
      three false true b = refl
      three false false true = refl
      three false false false = refl

      split :
          (o : Option EpistemicClaim)
          → is_met_standing (elim o [
            | none ↦ unmet
            | some c ↦
                if is_dead g.jtms_store req.requirement_id
                then unmet
                else standing_by compute_digest g (verdict_on compute_digest g c)
          ])
            ≡ (holds_at (λ c. is_supported (verdict_on compute_digest g c)) o
                && not (is_dead g.jtms_store req.requirement_id))
      split none = refl
      split (some c) =
          three (is_dead g.jtms_store req.requirement_id)
            (is_supported (verdict_on compute_digest g c))
            ((verdict_on compute_digest g c).0 == contradicted)

  -- What the findings say of the conjunction, with what was found before.
  abbrev fails : Findings → Bool
  fails f = not (is_empty f.falsified_mandatory) || not (is_empty f.unresolved_mandatory)

  abbrev pub lacks : CanonicalRequirement → Bool
  lacks req = req.is_blocking && not (is_met req)

  recorded-fails :
      (s : Standing) (req : CanonicalRequirement) (f : Findings)
      → fails (recorded compute_digest g s req f)
        ≡ (fails f || (req.is_blocking && not (is_met_standing s)))
  unfolding is_met_standing
  recorded-fails met req f = ground arith
  recorded-fails unmet req f =
      ground (arith, is_empty-snoc f.unresolved_mandatory req.requirement_id)
  recorded-fails refuted req f =
      ground (arith, is_empty-snoc f.falsified_mandatory req.requirement_id)

  recorded-satisfied :
      (s : Standing) (req : CanonicalRequirement) (f : Findings)
      → not (is_empty (recorded compute_digest g s req f).satisfied_ids)
        ≡ (not (is_empty f.satisfied_ids) || is_met_standing s)
  unfolding is_met_standing
  recorded-satisfied met req f = ground (arith, is_empty-snoc f.satisfied_ids req.requirement_id)
  recorded-satisfied unmet req f = ground arith
  recorded-satisfied refuted req f = ground arith

  evaluate-fails :
      (reqs : List CanonicalRequirement) (f : Findings)
      → fails (evaluate_requirements compute_digest g reqs f) ≡ (fails f || any lacks reqs)
  unfolding evaluate_requirements
  evaluate-fails [] f = or_nothing (fails f)
  evaluate-fails (req ∷ reqs) f =
      let s = standing compute_digest g req in
      evaluate-fails reqs (recorded compute_digest g s req f)
      ∙ ap (λ b. b || any lacks reqs) (recorded-fails s req f)
      ∙ ap (λ b. (fails f || (req.is_blocking && not b)) || any lacks reqs) (standing-lem req)
      ∙ or_assoc (fails f) (lacks req) (any lacks reqs)

  evaluate-satisfied :
      (reqs : List CanonicalRequirement) (f : Findings)
      → not (is_empty (evaluate_requirements compute_digest g reqs f).satisfied_ids)
        ≡ (not (is_empty f.satisfied_ids) || any is_met reqs)
  unfolding evaluate_requirements
  evaluate-satisfied [] f = or_nothing (not (is_empty f.satisfied_ids))
  evaluate-satisfied (req ∷ reqs) f =
      let s = standing compute_digest g req in
      evaluate-satisfied reqs (recorded compute_digest g s req f)
      ∙ ap (λ b. b || any is_met reqs) (recorded-satisfied s req f)
      ∙ ap (λ b. (not (is_empty f.satisfied_ids) || b) || any is_met reqs) (standing-lem req)
      ∙ or_assoc (not (is_empty f.satisfied_ids)) (is_met req) (any is_met reqs)

  -- Every rule but that of the alternatives.
  abbrev pub is_conjunction : CompositionRule → Bool
  is_conjunction authoritative_alternatives = false
  is_conjunction _ = true

  composed-conjunction :
      (rule : CompositionRule) (alternative_ids : Option (List String)) (f : Findings)
      → is_conjunction rule ≡ true
      → composed rule alternative_ids f ≡ all_resolved f
  composed-conjunction mandatory_conjunction alternative_ids f h = refl
  composed-conjunction authoritative_alternatives alternative_ids f h = cc h
  composed-conjunction conditional alternative_ids f h = refl
  composed-conjunction optional_preference alternative_ids f h = refl

  chosen :
      (spec : VersionedObjectiveSpecification) (rule : CompositionRule) (f f' f'' : Findings)
      (is_qualified is_bare verdict expected : Bool)
      → (is_bare ≡ true → expected ≡ false)
      → verdict ≡ expected
      → (if not is_qualified
          then build_proof spec false f rule
          else if is_bare
          then build_proof spec false f' rule
          else build_proof spec verdict f'' rule).is_satisfied
        ≡ (is_qualified && expected)
  chosen spec rule f f' f'' false is_bare verdict expected bare same = refl
  chosen spec rule f f' f'' true true verdict expected bare same = sym (bare refl)
  chosen spec rule f f' f'' true false verdict expected bare same = same

  conjoined :
      (no_falsified no_unresolved no_satisfied lacking meets : Bool)
      → (not no_falsified || not no_unresolved) ≡ lacking
      → not no_satisfied ≡ meets
      → (if not no_falsified then false else (no_unresolved && not no_satisfied))
        ≡ (not lacking && meets)
  conjoined no_falsified no_unresolved no_satisfied lacking meets h k = ground arith

  bare_unmet :
      (reqs : List CanonicalRequirement) (b : Bool)
      → (is_empty reqs && b) ≡ true
      → (not (any lacks reqs) && any is_met reqs) ≡ false
  bare_unmet [] b h = refl
  bare_unmet (_ ∷ _) b h = cc h

  -- Under each rule but that of the alternatives, CONDITIONAL and OPTIONAL_PREFERENCE
  -- included, an objective is satisfied exactly if its specification is QUALIFIED, no blocking
  -- requirement is unmet, and some requirement is met.
  pub law6 :
      (py : Texts) (spec : VersionedObjectiveSpecification) (rule : CompositionRule)
      (alternative_ids : Option (List String))
      → is_conjunction rule ≡ true
      → (evaluate_specification compute_digest py g spec rule alternative_ids).is_satisfied ≡ (
          spec.qualification_status == qualified
          && (not (any lacks spec.requirements) && any is_met spec.requirements))
  unfolding evaluate_specification
  law6 py spec rule alternative_ids h =
      let f = evaluate_requirements compute_digest g spec.requirements nothing_found in
      chosen spec rule _ _ f (spec.qualification_status == qualified) _ _
        (not (any lacks spec.requirements) && any is_met spec.requirements)
        (bare_unmet spec.requirements (ltb 0 (py.len (py.strip spec.canonical_intent))))
        (ap (λ b. if not (is_empty f.falsified_mandatory) then false else b)
            (composed-conjunction rule alternative_ids f h)
          ∙ conjoined (is_empty f.falsified_mandatory) (is_empty f.unresolved_mandatory)
              (is_empty f.satisfied_ids) (any lacks spec.requirements)
              (any is_met spec.requirements) (evaluate-fails spec.requirements nothing_found)
              (evaluate-satisfied spec.requirements nothing_found))
