-- ===== src/Tests/Registry.antt =====
-- The theorems on the capability registry at concrete inputs.
use shadows.Prelude.{
  if◌then◌else◌, ◌==◌, number_eq, text_eq, String, ◌≡◌, refl, ◌↔◌, false, Option, none, some, List,
  [], ◌∷◌,
}
use shadows.Outcome.{ok}
use shadows.Registry.{
  QualificationStatus, unqualified, qualified, VerificationRecord, CapabilityRecord, get_capability,
  register_candidate, artifacts_match, qualify_capability,
}
use shadows.Registry.Qualification.{
  Operation, register, qualify, AreProven, perform, perform_all, MayQualify, qualify_iff,
  perform_all-AreProven, Describes, registered, register_keeps,
}

abbrev parser : String → CapabilityRecord
parser hash = record {
  capability_id = "parser";
  version = "1.0.0";
  name = "Parser";
  originating_run_id = "run";
  declared_purpose = "parse";
  artifact_paths = "parser.py" ∷ [];
  artifact_hashes = ("parser.py", hash) ∷ [];
  dependencies = [];
  environment_requirements = "{}";
  applicability_constraints = [];
  known_limitations = [];
  qualification_evidence = none;
  epistemic_status = unqualified;
  created_at = 1;
  updated_at = 1;
}

abbrev digest : String → Option String
digest path = if path == "parser.py" then some "abc" else none

abbrev pass : VerificationRecord
pass = record { verified_status = some "PASS"; status = none }

abbrev operations : List Operation
operations =
    register 1 (parser "abc")
    ∷ qualify 2 "parser" "verifier" pass
    ∷ register 3 (parser "tampered")
    ∷ []

qualify_iff_example :
    ((out : Option CapabilityRecord × List CapabilityRecord) × (qualify_capability digest 2 "parser"
          "verifier" pass
          (parser "abc" ∷ [])
        ≡ ok out))
    ↔ MayQualify digest "parser" pass (parser "abc" ∷ [])
qualify_iff_example = qualify_iff digest 2 "parser" "verifier" pass (parser "abc" ∷ [])

may_qualify : MayQualify digest "parser" pass (parser "abc" ∷ [])
unfolding get_capability artifacts_match
may_qualify = (parser "abc", refl, (refl, refl))

perform_all-AreProven_example : AreProven (perform_all digest operations [])
perform_all-AreProven_example = perform_all-AreProven digest operations [] tt

abbrev qualified_parser : CapabilityRecord
qualified_parser = record (parser "abc") { epistemic_status = qualified }

abbrev tampered_registry : List CapabilityRecord
tampered_registry = registered 3 (parser "tampered") (qualified_parser ∷ [])

register_keeps_example :
    ((row : CapabilityRecord) × (get_capability "parser" tampered_registry ≡ some row)
      × Describes (parser "tampered") row (get_capability "parser" (qualified_parser ∷ [])))
    × ((j : String)
        → ("parser" == j) ≡ false
        → get_capability j tampered_registry ≡ get_capability j (qualified_parser ∷ []))
register_keeps_example = register_keeps 3 (parser "tampered") (qualified_parser ∷ [])

abbrev status_in : Option CapabilityRecord → Option QualificationStatus
status_in none = none
status_in (some r) = some r.epistemic_status

-- The tampered artifact is QUALIFIED.
still_qualified :
    status_in (get_capability "parser" (perform_all digest operations [])) ≡ some qualified
unfolding perform_all perform register_candidate qualify_capability get_capability artifacts_match
still_qualified = refl
