-- ===== src/Tests/Epistemic.antt =====
-- The theorems on evidence envelopes at concrete inputs.
use shadows.Prelude.{
  length, All, ℕ, String, ◌≡◌, refl, ◌⊎◌, true, false, Option, none, some, List, [], ◌∷◌,
}
use shadows.Outcome.{semantic_laundering, Result, raise, ok}
use shadows.Epistemic.Status.{
  EvidenceOrigin, physical_observation, synthetic_fixture, derived_transform, declared_spec,
  EpistemicStatus, verified, inferred, contradicted, satisfied,
}
use shadows.Epistemic.Envelope.{
  Confidence, rated, nan, below, EvidenceEnvelope, Digests, Claim, Transformation,
  raw_create_envelope, create_unverified_envelope, is_attested, child, transform_envelope,
}
use shadows.Epistemic.Lattice.{IsVerified, verified_of_parents, unwitnessed_confidence}
use shadows.Epistemic.History.{
  Call, claim, derive, NotVerified, as_origin, answer, after_calls, after_calls-NotVerified,
  laundering,
}
use shadows.Tests.Samples.{base}

abbrev digests : Digests String
digests = record { of_payload = λ s. s; of_data = λ d. d.source_id }

abbrev envelope : EvidenceOrigin → EpistemicStatus → ℕ → EvidenceEnvelope String
envelope origin status confidence = record {
  payload = "p";
  origin = origin;
  status = status;
  source_id = "s";
  envelope_hash = "h";
  parent_hashes = [];
  disposition = satisfied;
  confidence = rated confidence;
}

abbrev parents_of : EpistemicStatus → List (EvidenceEnvelope String)
parents_of status = envelope declared_spec verified 5 ∷ envelope synthetic_fixture status 3 ∷ []

-- The caller asks for more confidence than the parents have.
abbrev boast : Transformation String
boast = record {
  new_payload = "q";
  new_source_id = "t";
  new_origin = none;
  new_status = none;
  new_disposition = none;
  new_confidence = some (rated 9);
  witness = none;
}

abbrev derived : EpistemicStatus → EvidenceEnvelope String
derived status =
    child base digests boast (envelope declared_spec verified 5)
      (envelope synthetic_fixture status 3 ∷ [])

derived_ok : transform_envelope base digests (parents_of verified) boast ≡ ok (derived verified)
unfolding transform_envelope
derived_ok = refl

derived_contradicted :
    transform_envelope base digests (parents_of contradicted) boast ≡ ok (derived contradicted)
unfolding transform_envelope
derived_contradicted = refl

status_of_derived : (derived verified).status ≡ verified
unfolding raw_create_envelope
status_of_derived = refl

verified_of_parents_example :
    All IsVerified (parents_of verified) ⊎ (is_attested base digests boast ≡ true)
verified_of_parents_example =
    verified_of_parents base digests (parents_of verified) boast (derived verified) derived_ok
      status_of_derived

unwitnessed_confidence_example :
    ((derived verified).parent_hashes ≡ "h" ∷ "h" ∷ [])
    × All (λ p. below p.confidence (derived verified).confidence ≡ false) (parents_of verified)
unwitnessed_confidence_example =
    unwitnessed_confidence base digests (parents_of verified) boast (derived verified) derived_ok
      refl (refl, (refl, tt))

-- A child asks for NaN, and its own child for all: neither is clamped.
abbrev asks_for : Confidence → Transformation String
asks_for c = record boast { new_confidence = some c }

confidence_of : Result (EvidenceEnvelope String) → Option Confidence
confidence_of (ok e) = some e.confidence
confidence_of (raise _) = none

nan_escapes :
    (e : EvidenceEnvelope String) × (transform_envelope base digests
        (parents_of verified)
        (asks_for nan)
      ≡ ok e)
    × (confidence_of (transform_envelope base digests (e ∷ []) (asks_for (rated 9)))
        ≡ some (rated 9))
unfolding confidence_of transform_envelope raw_create_envelope
nan_escapes = (_, refl, refl)

abbrev fixture : Claim String
fixture = record {
  payload = "p";
  origin = synthetic_fixture;
  status = inferred;
  source_id = "s";
  disposition = satisfied;
  confidence = rated 1;
  parent_hashes = [];
}

abbrev calls : List (Call String)
calls = claim fixture ∷ derive (0 ∷ []) boast ∷ []

after_calls-NotVerified_example : All NotVerified (after_calls base digests calls [])
after_calls-NotVerified_example = after_calls-NotVerified base digests calls [] tt

two_envelopes : length (after_calls base digests calls []) ≡ 2
unfolding after_calls answer transform_envelope create_unverified_envelope raw_create_envelope
two_envelopes = refl

abbrev synthetic : EvidenceEnvelope String
synthetic = envelope synthetic_fixture inferred 1

laundering_example :
    (synthetic.origin ≡ synthetic_fixture
      → transform_envelope base digests (synthetic ∷ []) (as_origin physical_observation "q" "t")
        ≡ raise semantic_laundering)
    × ((e₁ e₂ : EvidenceEnvelope String) × (transform_envelope base digests
            (synthetic ∷ [])
            (as_origin derived_transform "q" "t")
          ≡ ok e₁)
        × (transform_envelope base digests (e₁ ∷ []) (as_origin physical_observation "r" "u")
            ≡ ok e₂)
        × ((e₂.origin ≡ physical_observation) × (e₂.status ≡ inferred)))
laundering_example = laundering base digests synthetic "q" "r" "t" "u"
