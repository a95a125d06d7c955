-- ===== src/Epistemic/Envelope.antt =====
-- The constructors of evidence envelopes (loop_engine/epistemic.py). Canonical JSON and SHA-256 are
-- the standard library's: the digests of a payload and of an envelope's data are parameters. A
-- confidence is a float that is only compared, so a number stands for one that is not NaN. The
-- timestamp is left out.
use shadows.Prelude.{
  ltb, if◌then◌else◌, any, ◌==◌, number_eq, text_eq, contains, ℕ, String, Bool, true, false, not,
  ◌&&◌, ◌||◌, Option, none, some, List, [], ◌∷◌, ◌++◌, map,
}
use shadows.Outcome.{
  privileged_minting, invalid_witness, semantic_laundering, value_error, Result, raise, ok, ◌>>◌,
  guard,
}
use shadows.Epistemic.Status.{
  EvidenceOrigin, physical_observation, synthetic_fixture, derived_transform, EpistemicStatus,
  inferred, hypothesis, unknown, contradicted, EpistemicDisposition, unresolved, origin_eq,
  status_eq,
}
use shadows.Kernel.Authority.{Tcb, ProofWitness, verify}

pub data Confidence : Type 0 where
  rated : ℕ → Confidence
  nan : Confidence

-- `x < y`, which a NaN is never part of
abbrev pub below : Confidence → Confidence → Bool
below (rated a) (rated b) = ltb a b
below _ _ = false

pub record EvidenceEnvelope (P : Type 0) : Type 0 where
  pub payload : P
  pub origin : EvidenceOrigin
  pub status : EpistemicStatus
  pub source_id : String
  pub envelope_hash : String
  pub parent_hashes : List String
  pub disposition : EpistemicDisposition
  pub confidence : Confidence

-- `envelope_data`
pub record EnvelopeData : Type 0 where
  pub payload_hash : String
  pub origin : EvidenceOrigin
  pub status : EpistemicStatus
  pub source_id : String
  pub disposition : EpistemicDisposition
  pub parent_hashes : List String

-- `canonical_json_digest` of a payload and of `envelope_data`
pub record Digests (P : Type 0) : Type 0 where
  pub of_payload : P → String
  pub of_data : EnvelopeData → String

-- What a caller hands to a constructor.
pub record Claim (P : Type 0) : Type 0 where
  pub payload : P
  pub origin : EvidenceOrigin
  pub status : EpistemicStatus
  pub source_id : String
  pub disposition : EpistemicDisposition
  pub confidence : Confidence
  pub parent_hashes : List String

-- What a caller hands to `transform_envelope` beside the parents.
pub record Transformation (P : Type 0) : Type 0 where
  pub new_payload : P
  pub new_source_id : String
  pub new_origin : Option EvidenceOrigin
  pub new_status : Option EpistemicStatus
  pub new_disposition : Option EpistemicDisposition
  pub new_confidence : Option Confidence
  pub witness : Option ProofWitness

-- `x or default`, where every `x` is true
abbrev pub default {ℓ} : {A : Type ℓ} → Option A → A → A
default none d = d
default (some a) d = a

module _ {P : Type 0} where
  abbrev pub is_synthetic : EvidenceEnvelope P → Bool
  is_synthetic p = p.origin == synthetic_fixture

  abbrev pub is_contradicted : EvidenceEnvelope P → Bool
  is_contradicted p = p.status == contradicted

  abbrev pub is_unverified : EvidenceEnvelope P → Bool
  is_unverified p = contains p.status (inferred ∷ hypothesis ∷ unknown ∷ [])

  -- `min` keeps the first item until another one is below it.
  abbrev pub least_of : Confidence → List (EvidenceEnvelope P) → Confidence
  least_of least [] = least
  least_of least (p ∷ ps) = least_of (if below p.confidence least then p.confidence else least) ps

  abbrev pub min_confidence : EvidenceEnvelope P → List (EvidenceEnvelope P) → Confidence
  min_confidence p rest = least_of p.confidence rest

  abbrev pub is_unwitnessed : Transformation P → Bool
  is_unwitnessed t = elim t.witness [ none ↦ true | some _ ↦ false ]

  abbrev pub target_confidence : Transformation P → Confidence → Confidence
  target_confidence t least =
      let target = default t.new_confidence least in
      if is_unwitnessed t && below least target then least else target

  abbrev pub target_origin : Transformation P → EvidenceOrigin
  target_origin t = default t.new_origin derived_transform

  abbrev pub target_status :
      Transformation P → EvidenceEnvelope P → List (EvidenceEnvelope P) → EpistemicStatus
  target_status t primary parents =
      if any is_contradicted parents then contradicted else default t.new_status primary.status

  abbrev pub target_disposition :
      Transformation P → EvidenceEnvelope P → List (EvidenceEnvelope P) → EpistemicDisposition
  target_disposition t primary parents =
      if any is_contradicted parents
      then unresolved
      else default t.new_disposition primary.disposition

  -- The child would be VERIFIED, but its parents are not.
  abbrev pub upgrades : Transformation P → EvidenceEnvelope P → List (EvidenceEnvelope P) → Bool
  upgrades t primary parents =
      (any is_unverified parents || not (primary.status == EpistemicStatus.verified))
      && target_status t primary parents == EpistemicStatus.verified

  module _ (tcb : Tcb) (digests : Digests P) where
    unfoldable pub raw_create_envelope : Claim P → EvidenceEnvelope P
    raw_create_envelope c = record {
      payload = c.payload;
      origin = c.origin;
      status = c.status;
      source_id = c.source_id;
      envelope_hash = digests.of_data (record {
        payload_hash = digests.of_payload c.payload;
        origin = c.origin;
        status = c.status;
        source_id = c.source_id;
        disposition = c.disposition;
        parent_hashes = c.parent_hashes;
      });
      parent_hashes = c.parent_hashes;
      disposition = c.disposition;
      confidence = c.confidence;
    }

    unfoldable pub create_unverified_envelope : Claim P → Result (EvidenceEnvelope P)
    create_unverified_envelope c = do
      guard (not (c.status == EpistemicStatus.verified)) privileged_minting
      guard (not (c.origin == physical_observation)) privileged_minting
      ok (raw_create_envelope c)

    -- `if parent_hash and parent_hash not in parents: parents.append(parent_hash)`
    abbrev pub with_parent : Option String → List String → List String
    with_parent none parents = parents
    with_parent (some parent_hash) parents =
        if not (parent_hash == "") && not (contains parent_hash parents)
        then parents ++ parent_hash ∷ []
        else parents

    unfoldable pub create_envelope : Option String → Claim P → Result (EvidenceEnvelope P)
    create_envelope parent_hash c =
        create_unverified_envelope
          (record c { parent_hashes = with_parent parent_hash c.parent_hashes })

    abbrev pub attests : ProofWitness → P → Bool
    attests w payload = verify tcb w (digests.of_payload payload) "EVIDENCE_VERIFICATION"

    -- The status that the caller names is not read.
    unfoldable pub mint_verified_envelope : ProofWitness → Claim P → Result (EvidenceEnvelope P)
    mint_verified_envelope w c = do
      guard (attests w c.payload) invalid_witness
      ok (raw_create_envelope (record c { status = EpistemicStatus.verified }))

    abbrev pub is_attested : Transformation P → Bool
    is_attested t = elim t.witness [ none ↦ false | some w ↦ attests w t.new_payload ]

    abbrev pub child :
        Transformation P → EvidenceEnvelope P → List (EvidenceEnvelope P) → EvidenceEnvelope P
    child t primary rest =
        let parents = primary ∷ rest in
        raw_create_envelope (record {
          payload = t.new_payload;
          origin = target_origin t;
          status = target_status t primary parents;
          source_id = t.new_source_id;
          disposition = target_disposition t primary parents;
          confidence = target_confidence t (min_confidence primary rest);
          parent_hashes = map (λ (p : EvidenceEnvelope P). p.envelope_hash) parents;
        })

    -- A single parent is the list of it.
    unfoldable pub transform_envelope :
        List (EvidenceEnvelope P) → Transformation P → Result (EvidenceEnvelope P)
    transform_envelope [] t = raise value_error
    transform_envelope (primary ∷ rest) t = do
      let parents = primary ∷ rest
      guard (not (any is_synthetic parents && target_origin t == physical_observation))
          semantic_laundering
      guard (not (upgrades t primary parents && is_unwitnessed t)) semantic_laundering
      guard (not (upgrades t primary parents) || is_attested t) invalid_witness
      ok (child t primary rest)
