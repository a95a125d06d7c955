-- ===== src/Constitution/Evidence/Verdicts.antt =====
-- When evidence supports a claim.
use shadows.Prelude.{
  if◌then◌else◌, Bool-cases, is_empty, any, All, ◌==◌, number_eq, text_eq, eqb_refl, contains,
  holds_at, String, ◌≡◌, refl, sym, ap, ◌∙◌, inl, inr, Bool, true, false, not, ◌&&◌, ◌||◌, Option,
  none, some, List, [], ◌∷◌, ◌++◌, arith,
}
use shadows.Constitution.Evidence.{
  EpistemicDimension, supported, ApplicabilityDimension, applicable, epistemic_eq, applicability_eq,
  observation_eq, Json, QualifiedEvidence, EpistemicClaim, Tally, contradicts, supports,
  first_refusal, binding_digest, checks, refusal, evaluate_one, evaluate_all, concluded,
  evaluate_claim,
}

-- ep_status == SUPPORTED and app_status == APPLICABLE
abbrev pub is_supported : EpistemicDimension × ApplicabilityDimension → Bool
is_supported v = v.0 == supported && v.1 == applicable

is_empty-snoc :
    (xs : List QualifiedEvidence) (ev : QualifiedEvidence) → is_empty (xs ++ ev ∷ []) ≡ false
is_empty-snoc [] ev = refl
is_empty-snoc (x ∷ xs) ev = refl

first_refusal-unsupported :
    (checks : List (Bool × (EpistemicDimension × ApplicabilityDimension)))
    → All (λ check. is_supported check.1 ≡ false) checks
    → holds_at is_supported (first_refusal checks) ≡ false
first_refusal-unsupported [] h = refl
first_refusal-unsupported (check ∷ checks) h = elim (Bool-cases check.0) [
  | inl hit ↦ rw hit h.0
  | inr miss ↦ rw miss (first_refusal-unsupported checks h.1)
]

or_something : (a b c : Bool) → (a && (b && true)) ≡ (a && (b && (c || true)))
or_something a b c = ground arith

and_nothing : (a : Bool) → false ≡ (a && false)
and_nothing a = ground arith

module _ (compute_digest : List (String × Json) → String) where
  -- The evidence that is looked at: the first of each digest.
  abbrev pub firsts : List String → List QualifiedEvidence → List QualifiedEvidence
  firsts seen [] = []
  firsts seen (ev ∷ evs) =
      let digest = binding_digest compute_digest ev in
      let rest = firsts seen evs in
      let after = firsts (digest ∷ seen) evs in if contains digest seen then rest else ev ∷ after

  module _ (claim : EpistemicClaim)
      (active_candidate_sha active_environment_fingerprint : Option String) where
    abbrev refused_by : QualifiedEvidence → Option (EpistemicDimension × ApplicabilityDimension)
    refused_by = refusal compute_digest claim active_candidate_sha active_environment_fingerprint

    abbrev pub is_refused : QualifiedEvidence → Bool
    is_refused ev =
        holds_at (λ _. true)
          (refusal compute_digest claim active_candidate_sha active_environment_fingerprint ev)

    -- A piece of evidence that rules support out.
    abbrev pub is_against : QualifiedEvidence → Bool
    is_against ev = is_refused ev || contradicts ev

    refusal-unsupported : (ev : QualifiedEvidence) → holds_at is_supported (refused_by ev) ≡ false
    unfolding refusal
    refusal-unsupported ev =
        first_refusal-unsupported
          (checks compute_digest claim active_candidate_sha active_environment_fingerprint ev)
          (refl, (refl, (refl, (refl, (refl, (refl, (refl, tt)))))))

    abbrev outcome : List QualifiedEvidence → Tally → Bool
    outcome evs t = is_supported (
        concluded compute_digest claim active_candidate_sha active_environment_fingerprint (
          evaluate_all compute_digest claim active_candidate_sha active_environment_fingerprint evs
            t))

    abbrev tally_of :
        Option (EpistemicDimension × ApplicabilityDimension)
        → List String
        → List QualifiedEvidence
        → List QualifiedEvidence
        → Tally
    tally_of refused seen sup con = record {
      refused = refused;
      seen_digests = seen;
      valid_supports = sup;
      contradictions = con;
    }

    module _ (seen : List String) (sup con : List QualifiedEvidence) where
      stays_refused :
          (evs : List QualifiedEvidence) (v : EpistemicDimension × ApplicabilityDimension)
          → outcome evs (tally_of (some v) seen sup con) ≡ is_supported v
      unfolding evaluate_all evaluate_one
      stays_refused [] v = refl
      stays_refused (ev ∷ evs) v = stays_refused evs v

    -- What the loop comes to from what it has found so far.
    expected : List QualifiedEvidence → List String → (no_con no_sup : Bool) → Bool
    expected evs seen no_con no_sup =
        no_con
        && (not (any is_against (firsts seen evs))
            && (not no_sup || any supports (firsts seen evs)))

    outcome-nil :
        (seen : List String) (sup con : List QualifiedEvidence)
        → outcome [] (tally_of none seen sup con) ≡ expected [] seen (is_empty con) (is_empty sup)
    unfolding evaluate_all expected
    outcome-nil seen [] [] = refl
    outcome-nil seen (_ ∷ _) [] = refl
    outcome-nil seen [] (_ ∷ _) = refl
    outcome-nil seen (_ ∷ _) (_ ∷ _) = refl

    module _ (ev : QualifiedEvidence) (evs : List QualifiedEvidence) (seen : List String)
        (sup con : List QualifiedEvidence)
        (ih : (sup con : List QualifiedEvidence)
          → outcome evs (tally_of none seen sup con)
            ≡ expected evs seen (is_empty con) (is_empty sup)) where
      -- A new piece of evidence, by what it is refused with and what it says.
      outcome-new :
          (r : Option (EpistemicDimension × ApplicabilityDimension)) (c s : Bool)
          → holds_at is_supported r ≡ false
          → outcome evs (elim r [
            | some v ↦ tally_of (some v) seen sup con
            | none ↦
                if c
                then tally_of none seen sup (con ++ ev ∷ [])
                else if s
                then tally_of none seen (sup ++ ev ∷ []) con
                else tally_of none seen sup con
          ])
            ≡ (is_empty con
                && (not ((holds_at (λ _. true) r || c) || any is_against (firsts seen evs))
                    && (not (is_empty sup) || (s || any supports (firsts seen evs)))))
      unfolding expected
      outcome-new (some v) c s h = stays_refused seen sup con evs v ∙ h ∙ and_nothing (is_empty con)
      outcome-new none true s h =
          ih sup (con ++ ev ∷ [])
          ∙ ap (λ b. expected evs seen b (is_empty sup)) (is_empty-snoc con ev)
          ∙ and_nothing (is_empty con)
      outcome-new none false true h =
          ih (sup ++ ev ∷ []) con
          ∙ ap (expected evs seen (is_empty con)) (is_empty-snoc sup ev)
          ∙ or_something (is_empty con) (not (any is_against (firsts seen evs)))
              (not (is_empty sup))
      outcome-new none false false h = ih sup con

    outcome-lem :
        (evs : List QualifiedEvidence) (seen : List String) (sup con : List QualifiedEvidence)
        → outcome evs (tally_of none seen sup con) ≡ expected evs seen (is_empty con) (is_empty sup)
    unfolding evaluate_all evaluate_one expected
    outcome-lem [] seen sup con = outcome-nil seen sup con
    outcome-lem (ev ∷ evs) seen sup con =
        let digest = binding_digest compute_digest ev in
        elim (Bool-cases (contains digest seen)) [
          | inl dup ↦ rw (evaluate_all, evaluate_one, dup) (outcome-lem evs seen sup con)
          | inr new ↦
              rw (evaluate_all, evaluate_one, expected, new)
                (outcome-new ev evs (digest ∷ seen) sup con (outcome-lem evs (digest ∷ seen))
                  (refused_by ev) (contradicts ev) (supports ev) (refusal-unsupported ev))
        ]

    -- A claim is supported exactly if, of the pieces of evidence with a digest that was not
    -- seen before, none is refused or contradicts it and one supports it.
    pub evaluate_claim_lem :
        (evs : List QualifiedEvidence)
        → is_supported (
            evaluate_claim compute_digest claim active_candidate_sha active_environment_fingerprint
              evs)
          ≡ (not (any is_against (firsts [] evs)) && any supports (firsts [] evs))
    unfolding evaluate_claim expected
    evaluate_claim_lem [] = refl
    evaluate_claim_lem (ev ∷ evs) = outcome-lem (ev ∷ evs) [] [] []

    abbrev pub as_falsified : QualifiedEvidence → QualifiedEvidence
    as_falsified ev = record {
      evidence_id = ev.evidence_id;
      specification = ev.specification;
      observation = record (ev.observation) { is_falsified = true };
    }

    -- If one piece of evidence supports a claim, then so does it with its falsified copy
    -- after it: the copy has the same digest and is skipped.
    pub falsification_hidden :
        (ev : QualifiedEvidence)
        → is_supported (
            evaluate_claim compute_digest claim active_candidate_sha active_environment_fingerprint
              (ev ∷ []))
          ≡ true
        → is_supported (
            evaluate_claim compute_digest claim active_candidate_sha active_environment_fingerprint
              (ev ∷ as_falsified ev ∷ []))
          ≡ true
    falsification_hidden ev h =
        evaluate_claim_lem (ev ∷ as_falsified ev ∷ [])
        ∙ rw (eqb_refl (binding_digest compute_digest ev)) (sym (evaluate_claim_lem (ev ∷ [])) ∙ h)
