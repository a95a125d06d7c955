-- ===== src/Epistemic/Status.antt =====
-- Where evidence comes from, what is known of it, and what a claim comes to
-- (the enumerations of loop_engine/epistemic.py).
use shadows.Prelude.{Comparable, enum_eq, ℕ, zero, suc, ◌≡◌, refl}

pub data EvidenceOrigin : Type 0 where
  physical_observation synthetic_fixture model_inference : EvidenceOrigin
  derived_transform declared_spec : EvidenceOrigin

pub data EpistemicStatus : Type 0 where
  verified inferred hypothesis unknown contradicted : EpistemicStatus

pub data EpistemicDisposition : Type 0 where
  satisfied conditionally_supported semantic_binding_deficit : EpistemicDisposition
  insufficient_evidence capability_deficit external_authority_required : EpistemicDisposition
  unresolved : EpistemicDisposition

abbrev origin_position : EvidenceOrigin → ℕ
origin_position physical_observation = 0
origin_position synthetic_fixture = 1
origin_position model_inference = 2
origin_position derived_transform = 3
origin_position declared_spec = 4

abbrev origin_member : ℕ → EvidenceOrigin
origin_member zero = physical_observation
origin_member (suc zero) = synthetic_fixture
origin_member (suc (suc zero)) = model_inference
origin_member (suc (suc (suc zero))) = derived_transform
origin_member _ = declared_spec

pub member-origin : (o : EvidenceOrigin) → origin_member (origin_position o) ≡ o
member-origin physical_observation = refl
member-origin _ = refl

instance abbrev pub origin_eq : Comparable EvidenceOrigin
origin_eq = enum_eq origin_position origin_member member-origin

abbrev status_position : EpistemicStatus → ℕ
status_position verified = 0
status_position inferred = 1
status_position hypothesis = 2
status_position unknown = 3
status_position contradicted = 4

abbrev status_member : ℕ → EpistemicStatus
status_member zero = verified
status_member (suc zero) = inferred
status_member (suc (suc zero)) = hypothesis
status_member (suc (suc (suc zero))) = unknown
status_member _ = contradicted

pub member-status : (s : EpistemicStatus) → status_member (status_position s) ≡ s
member-status verified = refl
member-status _ = refl

instance abbrev pub status_eq : Comparable EpistemicStatus
status_eq = enum_eq status_position status_member member-status
