-- ===== src/Epistemic/Lattice.antt =====
-- What a derived envelope has of its parents (the lattice invariants of transform_envelope,
-- loop_engine/epistemic.py), and what no sequence of unwitnessed calls brings about.
use shadows.Prelude.{
  if◌then◌else◌, Bool-cases, or_false_left, or_false_right, not_both, if_true, and_cancel, implied,
  any, All, ◌==◌, number_eq, text_eq, contains, ◌≡◌, refl, subst, ◌≢◌, ◌⊎◌, inl, inr, Bool, true,
  false, not, ◌&&◌, ◌||◌, List, [], ◌∷◌, map, arith,
}
use shadows.Outcome.{ok, ok_injective, guard-ok}
use shadows.Epistemic.Status.{
  physical_observation, EpistemicStatus, verified, inferred, hypothesis, unknown, contradicted,
  origin_eq, status_eq,
}
use shadows.Epistemic.Envelope.{
  Confidence, rated, nan, below, EvidenceEnvelope, Digests, Transformation, default, is_synthetic,
  is_contradicted, is_unverified, least_of, min_confidence, is_unwitnessed, target_confidence,
  target_origin, upgrades, raw_create_envelope, is_attested, child, transform_envelope,
}
use shadows.Kernel.Authority.{Tcb}

verified_of :
    (s : EpistemicStatus)
    → contains s (inferred ∷ hypothesis ∷ unknown ∷ []) ≡ false
    → (s == contradicted) ≡ false
    → s ≡ verified
verified_of verified h k = refl
verified_of inferred h k = cc h
verified_of hypothesis h k = cc h
verified_of unknown h k = cc h
verified_of contradicted h k = cc k

-- The confidence is not NaN.
abbrev pub is_degree : Confidence → Bool
is_degree (rated _) = true
is_degree nan = false

both :
    (least d c : Confidence)
    → is_degree least ≡ true
    → is_degree d ≡ true
    → below (if below d least then d else least) c ≡ false
    → (below d c ≡ false) × (below least c ≡ false)
both (rated a) (rated b) (rated n) h k low = (ground (arith, low), ground (arith, low))
both (rated a) (rated b) nan h k low = (refl, refl)
both (rated a) nan c h k low = cc k
both nan d c h k low = cc h

clamped :
    (b : Bool) (least target : Confidence)
    → b ≡ true
    → below least (if b && below least target then least else target) ≡ false
clamped false least target h = cc h
clamped true nan target h = refl
clamped true (rated a) nan h = refl
clamped true (rated a) (rated b) h = ground arith

-- An upgrade is attested, and without one the parents are verified.
no_upgrade :
    (unverified primary contradicting : Bool) (named : EpistemicStatus)
    → ((unverified || not primary) && (if contradicting then contradicted else named) == verified)
      ≡ false
    → (if contradicting then contradicted else named) ≡ verified
    → (unverified ≡ false) × (contradicting ≡ false)
no_upgrade unverified primary true named h v = cc v
no_upgrade unverified primary false named h v =
    let same = (status_eq.eqb_iff named verified).1 v in
    (or_false_left unverified (not primary) (and_cancel _ _ h same), refl)

module _ {P : Type 0} where
  abbrev pub IsVerified : EvidenceEnvelope P → Type 0
  IsVerified p = p.status ≡ verified

  All-IsVerified :
      (parents : List (EvidenceEnvelope P))
      → any is_unverified parents ≡ false
      → any is_contradicted parents ≡ false
      → All IsVerified parents
  All-IsVerified [] h k = tt
  All-IsVerified (p ∷ parents) h k = (
    verified_of p.status (or_false_left _ _ h) (or_false_left _ _ k),
    All-IsVerified parents (or_false_right (is_unverified p) _ h)
        (or_false_right (is_contradicted p) _ k),
  )

  abbrev pub HasDegree : EvidenceEnvelope P → Type 0
  HasDegree p = is_degree p.confidence ≡ true

  -- The least confidence is not above the first one and the others.
  least_of-least :
      (least c : Confidence) (ps : List (EvidenceEnvelope P))
      → is_degree least ≡ true
      → All HasDegree ps
      → below (least_of least ps) c ≡ false
      → (below least c ≡ false) × All (λ p. below p.confidence c ≡ false) ps
  least_of-least least c [] h all low = (low, tt)
  least_of-least least c (p ∷ ps) h all low =
      let (here, rest) =
        least_of-least (if below p.confidence least then p.confidence else least) c ps
          (picked (below p.confidence least)) all.1 low in
      let (at_p, at_least) = both least p.confidence c h all.0 here in (at_least, (at_p, rest))
    where
      picked : (b : Bool) → is_degree (if b then p.confidence else least) ≡ true
      picked true = all.0
      picked false = h

  module _ (tcb : Tcb) (digests : Digests P) where
    -- What the child has of its parents.
    record Respects (parents : List (EvidenceEnvelope P)) (t : Transformation P)
        (e : EvidenceEnvelope P) : Type 0 where
      provenance : e.parent_hashes ≡ map (λ (p : EvidenceEnvelope P). p.envelope_hash) parents
      contradiction : any is_contradicted parents ≡ true → e.status ≡ contradicted
      origin_kept : any is_synthetic parents ≡ true → e.origin ≢ physical_observation
      confidence_kept :
          is_unwitnessed t ≡ true
          → All HasDegree parents
          → All (λ p. below p.confidence e.confidence ≡ false) parents
      verification :
          e.status ≡ verified → All IsVerified parents ⊎ (is_attested tcb digests t ≡ true)

    child-Respects :
        (primary : EvidenceEnvelope P) (rest : List (EvidenceEnvelope P)) (t : Transformation P)
        → not (any is_synthetic (primary ∷ rest) && target_origin t == physical_observation) ≡ true
        → (not (upgrades t primary (primary ∷ rest)) || is_attested tcb digests t) ≡ true
        → Respects (primary ∷ rest) t (child tcb digests t primary rest)
    unfolding raw_create_envelope
    child-Respects primary rest t synthetic attested =
        let parents = primary ∷ rest in
        record {
          provenance = refl;
          contradiction = λ c. if_true (any is_contradicted parents) _ _ c;
          origin_kept = λ s o. cc (
            not_both (any is_synthetic parents) _ synthetic s,
            (origin_eq.eqb_iff (target_origin t) physical_observation).1 o,
          );
          confidence_kept = λ unwitnessed degrees.
              let least = min_confidence primary rest in
              let (first, others) =
                least_of-least primary.confidence (target_confidence t least) rest degrees.0
                  degrees.1
                  (clamped (is_unwitnessed t) least (default t.new_confidence least) unwitnessed) in
              (first, others);
          verification = λ v. elim (Bool-cases (upgrades t primary parents)) [
            | inl up ↦ inr (implied _ _ attested up)
            | inr plain ↦
                let (none_unverified, none_contradicted) =
                  no_upgrade (any is_unverified parents) (primary.status == verified)
                    (any is_contradicted parents) (default t.new_status primary.status) plain v in
                inl (All-IsVerified parents none_unverified none_contradicted)
          ];
        }

    transform_envelope-Respects :
        (parents : List (EvidenceEnvelope P)) (t : Transformation P) (e : EvidenceEnvelope P)
        → transform_envelope tcb digests parents t ≡ ok e
        → Respects parents t e
    unfolding transform_envelope
    transform_envelope-Respects [] t e h = cc h
    transform_envelope-Respects (primary ∷ rest) t e h =
        let (synthetic, h') = guard-ok _ _ _ e h in
        let (_, h'') = guard-ok _ _ _ e h' in
        let (attested, done) = guard-ok _ _ _ e h'' in
        subst (Respects (primary ∷ rest) t) (ok_injective done)
          (child-Respects primary rest t synthetic attested)

    module _ (parents : List (EvidenceEnvelope P)) (t : Transformation P) (e : EvidenceEnvelope P)
        (made : transform_envelope tcb digests parents t ≡ ok e) where
      -- If `transform_envelope` returns a VERIFIED envelope, all its parents are VERIFIED
      -- or the witness passes for the digest of the new payload.
      pub verified_of_parents :
          e.status ≡ verified → All IsVerified parents ⊎ (is_attested tcb digests t ≡ true)
      verified_of_parents = (transform_envelope-Respects parents t e made).verification

      -- If `transform_envelope` returns an envelope and one of its parents is
      -- CONTRADICTED, so is the envelope.
      contradiction_spreads : any is_contradicted parents ≡ true → e.status ≡ contradicted
      contradiction_spreads = (transform_envelope-Respects parents t e made).contradiction

      -- If `transform_envelope` returns an envelope and one of its parents is of synthetic
      -- origin, the envelope is not a physical observation.
      synthetic_not_physical : any is_synthetic parents ≡ true → e.origin ≢ physical_observation
      synthetic_not_physical = (transform_envelope-Respects parents t e made).origin_kept

      -- If `transform_envelope` returns an envelope, was given no witness, and the
      -- confidence of no parent is NaN, the envelope names the hashes of its parents in
      -- their order, and no parent has a confidence below that of the envelope; a NaN,
      -- which may be asked for, has nothing below it.
      pub unwitnessed_confidence :
          is_unwitnessed t ≡ true
          → All HasDegree parents
          → (e.parent_hashes ≡ map (λ (p : EvidenceEnvelope P). p.envelope_hash) parents)
            × All (λ p. below p.confidence e.confidence ≡ false) parents
      unwitnessed_confidence unwitnessed degrees =
          let respects = transform_envelope-Respects parents t e made in
          (respects.provenance, respects.confidence_kept unwitnessed degrees)
