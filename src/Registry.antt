-- ===== src/Registry.antt =====
-- CapabilityRegistry (loop_engine/capability_registry.py). The table is the list of its rows; a
-- JSON column holds the value that is read back from it, and that of the requirements on the
-- environment its text. The files under the base directory are a parameter.
pub mod Qualification
use shadows.Prelude.{
  if◌then◌else◌, ◌==◌, number_eq, text_eq, select_one, update_where, ℕ, String, Bool, true, false,
  ◌&&◌, ◌||◌, Option, none, some, List, [], ◌∷◌, ◌++◌,
}
use shadows.Outcome.{capability_deficit, Result, raise, ok, ◌>>◌, guard}

pub data QualificationStatus : Type 0 where
  unqualified qualified authoritative rejected : QualificationStatus

-- `evidence_payload`; of the verification record, what its two status fields hold.
pub record VerificationRecord : Type 0 where
  pub verified_status : Option String
  pub status : Option String

pub record Evidence : Type 0 where
  pub verifier_id : String
  pub qualified_at : ℕ
  pub verification_record : VerificationRecord

pub record CapabilityRecord : Type 0 where
  pub capability_id : String
  pub version : String
  pub name : String
  pub originating_run_id : String
  pub declared_purpose : String
  pub artifact_paths : List String
  pub artifact_hashes : List (String × String)
  pub dependencies : List String
  pub environment_requirements : String
  pub applicability_constraints : List String
  pub known_limitations : List String
  pub qualification_evidence : Option Evidence
  pub epistemic_status : QualificationStatus
  pub created_at : ℕ
  pub updated_at : ℕ

-- WHERE capability_id = ?
abbrev pub has_id : String → CapabilityRecord → Bool
has_id capability_id row = row.capability_id == capability_id

unfoldable pub get_capability : String → List CapabilityRecord → Option CapabilityRecord
get_capability capability_id rows = select_one (has_id capability_id) rows

-- What `register_candidate` inserts at the time `now`.
abbrev pub candidate : ℕ → CapabilityRecord → CapabilityRecord
candidate now c = record c {
  qualification_evidence = none;
  epistemic_status = unqualified;
  created_at = now;
  updated_at = now;
}

-- ON CONFLICT(capability_id) DO UPDATE SET
abbrev pub overwritten : CapabilityRecord → CapabilityRecord → CapabilityRecord
overwritten new old = record new {
  capability_id = old.capability_id;
  qualification_evidence = old.qualification_evidence;
  epistemic_status = old.epistemic_status;
  created_at = old.created_at;
}

-- The status, the evidence and the times of `c` are not read.
unfoldable pub register_candidate :
    ℕ → CapabilityRecord → List CapabilityRecord → CapabilityRecord × List CapabilityRecord
register_candidate now c rows =
    let new = candidate now c in
    (
      new,
      elim (select_one (has_id c.capability_id) rows) [
        | none ↦ rows ++ new ∷ []
        | some _ ↦ update_where (has_id c.capability_id) (overwritten new) rows
      ],
    )

-- `verification_record.get(...) == "PASS"`
abbrev pub is_pass : Option String → Bool
is_pass none = false
is_pass (some s) = s == "PASS"

abbrev pub has_passed : VerificationRecord → Bool
has_passed v = is_pass v.verified_status || is_pass v.status

abbrev pub hash_of : String → List (String × String) → Option String
hash_of path [] = none
hash_of path ((p, hash) ∷ hashes) = if p == path then some hash else hash_of path hashes

-- The file exists, and has the hash that is recorded for it, if one is.
abbrev pub matches : Option String → Option String → Bool
matches none expected = false
matches (some actual) none = true
matches (some actual) (some expected) = expected == "" || actual == expected

module _ (file_digest : String → Option String) where
  unfoldable pub artifacts_match : List (String × String) → List String → Bool
  artifacts_match hashes [] = true
  artifacts_match hashes (path ∷ paths) =
      matches (file_digest path) (hash_of path hashes) && artifacts_match hashes paths

  abbrev pub as_qualified : ℕ → Evidence → CapabilityRecord → CapabilityRecord
  as_qualified now evidence row = record row {
    epistemic_status = qualified;
    qualification_evidence = some evidence;
    updated_at = now;
  }

  -- The row after the update, and the table.
  abbrev pub qualified_in :
      ℕ
      → String
      → String
      → VerificationRecord
      → List CapabilityRecord
      → Option CapabilityRecord × List CapabilityRecord
  qualified_in now capability_id verifier_id verification rows =
      let rows' =
        update_where (has_id capability_id)
          (as_qualified now (record {
            verifier_id = verifier_id;
            qualified_at = now;
            verification_record = verification;
          }))
          rows in
      (get_capability capability_id rows', rows')

  unfoldable pub qualify_capability :
      ℕ
      → String
      → String
      → VerificationRecord
      → List CapabilityRecord
      → Result (Option CapabilityRecord × List CapabilityRecord)
  qualify_capability now capability_id verifier_id verification rows =
      elim (get_capability capability_id rows) [
        | none ↦ raise capability_deficit
        | some row ↦ do
          guard (has_passed verification) capability_deficit
          guard (artifacts_match row.artifact_hashes row.artifact_paths) capability_deficit
          ok (qualified_in now capability_id verifier_id verification rows)
      ]
