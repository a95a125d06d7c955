-- ===== src/Disposition/Contracts.antt =====
-- Capability contracts (loop_engine/capability.py). The schema digests, which nothing reads, are
-- left out.
use shadows.Prelude.{
  if◌then◌else◌, ◌==◌, number_eq, text_eq, contains, concat, String, ◌≡◌, Bool, true, false, not,
  ◌&&◌, Option, none, some, List, [], ◌∷◌, arith,
}

pub record CapabilityContract : Type 0 where
  pub capability_id : String
  pub domain : String
  pub supported_objective_types : List String
  pub is_deprecated : Bool

pub record ApplicabilityEvaluation : Type 0 where
  pub is_applicable : Bool
  pub rationale : String
  pub matched_contract : Option CapabilityContract

-- `required_domain and self.domain != required_domain and self.domain != "general"`
abbrev pub is_foreign : Option String → String → Bool
is_foreign none domain = false
is_foreign (some required) domain =
    not (required == "") && (not (domain == required) && not (domain == "general"))

unfoldable pub is_compatible_with_objective : CapabilityContract → String → Option String → Bool
is_compatible_with_objective c objective_type required_domain =
    if c.is_deprecated
    then false
    else if not (contains objective_type c.supported_objective_types)
        && not (contains "all" c.supported_objective_types)
    then false
    else if is_foreign required_domain c.domain
    then false
    else true

-- An f-string shows a missing domain as `None`.
abbrev domain_text : Option String → String
domain_text none = "None"
domain_text (some domain) = domain

unfoldable pub evaluate_capability_applicability :
    CapabilityContract → String → Option String → ApplicabilityEvaluation
evaluate_capability_applicability c objective_type required_domain =
    if c.is_deprecated
    then record {
      is_applicable = false;
      rationale =
          concat ("Capability '" ∷ c.capability_id ∷ "' is deprecated and cannot be reused." ∷ []);
      matched_contract = none;
    }
    else if not (is_compatible_with_objective c objective_type required_domain)
    then record {
      is_applicable = false;
      rationale = concat (
          "Capability '"
          ∷ c.capability_id
          ∷ "' in domain '"
          ∷ c.domain
          ∷ "' is not applicable to objective type '"
          ∷ objective_type
          ∷ "' with required domain '"
          ∷ domain_text required_domain
          ∷ "'."
          ∷ []);
      matched_contract = none;
    }
    else record {
      is_applicable = true;
      rationale = concat (
          "Capability '" ∷ c.capability_id ∷ "' is verified compatible with objective '"
          ∷ objective_type ∷ "'." ∷ []);
      matched_contract = some c;
    }

deprecated_incompatible :
    (c : CapabilityContract) (objective_type : String) (domain : Option String)
    → c.is_deprecated ≡ true
    → is_compatible_with_objective c objective_type domain ≡ false
unfolding is_compatible_with_objective
deprecated_incompatible c objective_type domain h = rw h

-- A capability is evaluated as applicable exactly if its contract is compatible with the
-- objective.
applicable-eq-compatible :
    (c : CapabilityContract) (objective_type : String) (domain : Option String)
    → (evaluate_capability_applicability c objective_type domain).is_applicable
      ≡ is_compatible_with_objective c objective_type domain
unfolding evaluate_capability_applicability
applicable-eq-compatible c objective_type domain =
    ground (arith, deprecated_incompatible c objective_type domain)
