-- ===== src/Epistemic/History.antt =====
-- Callers that hold no witness (loop_engine/epistemic.py): the envelopes that they can bring about.
use shadows.Prelude.{
  if◌then◌else◌, All, choose, All-choose, ◌==◌, number_eq, text_eq, contains, ℕ, String, ◌≡◌, refl,
  sym, ◌∙◌, subst, ◌≢◌, inl, inr, Bool, true, false, not, ◌&&◌, ◌||◌, none, some, List, [], ◌∷◌,
  arith,
}
use shadows.Outcome.{
  privileged_minting, semantic_laundering, Result, raise, ok, ◌>>◌, guard, ok_injective, guard-ok,
}
use shadows.Epistemic.Status.{
  EvidenceOrigin, physical_observation, synthetic_fixture, derived_transform, EpistemicStatus,
  verified, inferred, hypothesis, unknown, contradicted, origin_eq, status_eq,
}
use shadows.Epistemic.Envelope.{
  EvidenceEnvelope, Digests, Claim, Transformation, is_synthetic, raw_create_envelope,
  create_unverified_envelope, child, transform_envelope,
}
use shadows.Epistemic.Lattice.{IsVerified, verified_of_parents}
use shadows.Kernel.Authority.{Tcb, payload}

-- A call that shows no witness; the parents are named by their places among the envelopes.
pub data Call (P : Type 0) : Type 0 where
  claim : Claim P → Call P
  derive : List ℕ → Transformation P → Call P

told_apart : (b : Bool) → not b ≡ true → b ≢ true
told_apart true h k = cc h
told_apart false h k = cc k

module _ {P : Type 0} where
  abbrev pub unwitnessed : Transformation P → Transformation P
  unwitnessed t = record t { witness = none }

  abbrev pub NotVerified : EvidenceEnvelope P → Type 0
  NotVerified e = e.status ≢ verified

  choose-NotVerified :
      (places : List ℕ) (pool : List (EvidenceEnvelope P))
      → All NotVerified pool
      → All NotVerified (choose places pool)
  choose-NotVerified places pool h = All-choose NotVerified places pool h

  abbrev pub as_origin : EvidenceOrigin → P → String → Transformation P
  as_origin origin payload source_id = record {
    new_payload = payload;
    new_source_id = source_id;
    new_origin = some origin;
    new_status = none;
    new_disposition = none;
    new_confidence = none;
    witness = none;
  }

  module _ (tcb : Tcb) (digests : Digests P) where
    unfoldable pub answer : Call P → List (EvidenceEnvelope P) → Result (EvidenceEnvelope P)
    answer (claim c) pool = create_unverified_envelope tcb digests c
    answer (derive places t) pool =
        transform_envelope tcb digests (choose places pool) (unwitnessed t)

    abbrev pub gather :
        Result (EvidenceEnvelope P) → List (EvidenceEnvelope P) → List (EvidenceEnvelope P)
    gather (ok e) pool = e ∷ pool
    gather (raise _) pool = pool

    -- The envelopes that are there after the calls.
    unfoldable pub after_calls :
        List (Call P) → List (EvidenceEnvelope P) → List (EvidenceEnvelope P)
    after_calls [] pool = pool
    after_calls (call ∷ calls) pool = after_calls calls (gather (answer call pool) pool)

    created-NotVerified :
        (c : Claim P) (e : EvidenceEnvelope P)
        → create_unverified_envelope tcb digests c ≡ ok e
        → NotVerified e
    unfolding create_unverified_envelope raw_create_envelope
    created-NotVerified c e h v =
        let (plain, h') =
          guard-ok (not (c.status == verified)) privileged_minting
            (guard (not (c.origin == physical_observation)) privileged_minting
              >> ok (raw_create_envelope tcb digests c))
            e h in
        let (_, done) = guard-ok _ _ _ e h' in
        absurd (
          told_apart (c.status == verified) plain (
            (status_eq.eqb_iff c.status verified).1 (subst IsVerified (sym (ok_injective done)) v)))

    derived-NotVerified :
        (parents : List (EvidenceEnvelope P)) (t : Transformation P) (e : EvidenceEnvelope P)
        → All NotVerified parents
        → transform_envelope tcb digests parents (unwitnessed t) ≡ ok e
        → NotVerified e
    unfolding transform_envelope
    derived-NotVerified [] t e all h v = cc h
    derived-NotVerified (primary ∷ rest) t e all h v =
        elim (verified_of_parents tcb digests (primary ∷ rest) (unwitnessed t) e h v) [
          | inl verified_all ↦ all.0 verified_all.0
          | inr attested ↦ cc attested
        ]

    answer-NotVerified :
        (call : Call P) (pool : List (EvidenceEnvelope P)) (e : EvidenceEnvelope P)
        → All NotVerified pool
        → answer call pool ≡ ok e
        → NotVerified e
    unfolding answer
    answer-NotVerified (claim c) pool e all h = created-NotVerified c e h
    answer-NotVerified (derive places t) pool e all h =
        derived-NotVerified (choose places pool) t e (choose-NotVerified places pool all) h

    -- Callers that show no witness bring about no VERIFIED envelope: if none of the
    -- envelopes is VERIFIED, none is after any sequence of unverified claims and of
    -- transformations without a witness.
    pub after_calls-NotVerified :
        (calls : List (Call P)) (pool : List (EvidenceEnvelope P))
        → All NotVerified pool
        → All NotVerified (after_calls calls pool)
    unfolding after_calls
    after_calls-NotVerified [] pool all = all
    after_calls-NotVerified (call ∷ calls) pool all =
        after_calls-NotVerified calls (gather (answer call pool) pool)
          (gathered (answer call pool) refl)
      where
        gathered :
            (r : Result (EvidenceEnvelope P))
            → answer call pool ≡ r
            → All NotVerified (gather r pool)
        gathered (raise _) h = all
        gathered (ok e) h = (answer-NotVerified call pool e all h, all)

    -- The child of one parent that names no status is no upgrade.
    plain :
        (s : EpistemicStatus)
        → ((contains s (inferred ∷ hypothesis ∷ unknown ∷ []) || false) || not (s == verified))
            && (if s == contradicted || false then contradicted else s) == verified
          ≡ false
    plain verified = refl
    plain inferred = refl
    plain hypothesis = refl
    plain unknown = refl
    plain contradicted = refl

    -- A transformation of one parent that names no status and no witness makes its child, unless it
    -- turns what is synthetic into a physical observation.
    as_origin-child :
        (e : EvidenceEnvelope P) (origin : EvidenceOrigin) (payload : P) (source_id : String)
        → ((is_synthetic e || false) && origin == physical_observation) ≡ false
        → transform_envelope tcb digests (e ∷ []) (as_origin origin payload source_id)
          ≡ ok (child tcb digests (as_origin origin payload source_id) e [])
    unfolding transform_envelope
    as_origin-child e origin payload source_id h = rw (transform_envelope, h, plain e.status) refl

    kept_status :
        (s : EpistemicStatus) → (if s == contradicted || false then contradicted else s) ≡ s
    kept_status verified = refl
    kept_status inferred = refl
    kept_status hypothesis = refl
    kept_status unknown = refl
    kept_status contradicted = refl

    and_false : (b : Bool) → (b && false) ≡ false
    and_false b = ground arith

    -- Without a witness, any envelope becomes a physical observation with the same status in
    -- two transformations, the first to a derived origin and the second to a physical one,
    -- with any payloads, although the one step to a physical origin raises for an envelope
    -- of synthetic origin.
    pub laundering :
        (e₀ : EvidenceEnvelope P) (payload payload' : P) (source_id source_id' : String)
        → (e₀.origin ≡ synthetic_fixture
            → transform_envelope tcb digests
                (e₀ ∷ [])
                (as_origin physical_observation payload source_id)
              ≡ raise semantic_laundering)
          × ((e₁ e₂ : EvidenceEnvelope P) × (transform_envelope tcb digests
                  (e₀ ∷ [])
                  (as_origin derived_transform payload source_id)
                ≡ ok e₁)
              × (transform_envelope tcb digests
                    (e₁ ∷ [])
                    (as_origin physical_observation payload' source_id')
                  ≡ ok e₂)
              × ((e₂.origin ≡ physical_observation) × (e₂.status ≡ e₀.status)))
    unfolding transform_envelope raw_create_envelope
    laundering e₀ payload payload' source_id source_id' =
        let e₁ = child tcb digests (as_origin derived_transform payload source_id) e₀ [] in
        (
          λ synthetic. rw (transform_envelope, synthetic) refl,
          (
            e₁,
            child tcb digests (as_origin physical_observation payload' source_id') e₁ [],
            as_origin-child e₀ derived_transform payload source_id
                (and_false (is_synthetic e₀ || false)),
            as_origin-child e₁ physical_observation payload' source_id' refl,
            (refl, kept_status e₁.status ∙ kept_status e₀.status),
          ),
        )
