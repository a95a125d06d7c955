-- ===== src/Registry/Qualification.antt =====
-- When a capability is qualified, and what a registration does to one that is
-- (loop_engine/capability_registry.py).
use shadows.Prelude.{
  if◌then◌else◌, Option-cases, All, All-append, ◌==◌, number_eq, text_eq, eqb_refl, select_one,
  update_where, select_one-snoc, select_one-sat, updated, select_one-update, All-update_where, ℕ,
  String, ◌≡◌, refl, ap, ◌∙◌, subst, ◌↔◌, inl, inr, Bool, true, false, Option, none, some, List, [],
  ◌∷◌, ◌++◌, arith,
}
use shadows.Outcome.{Result, raise, ok, ◌>>=◌, or_else, ok_injective, guard-ok}
use shadows.Registry.{
  QualificationStatus, unqualified, qualified, VerificationRecord, Evidence, CapabilityRecord,
  has_id, get_capability, candidate, overwritten, register_candidate, has_passed, artifacts_match,
  qualified_in, qualify_capability,
}

pub data Operation : Type 0 where
  register : ℕ → CapabilityRecord → Operation
  qualify : ℕ → String → String → VerificationRecord → Operation

-- A QUALIFIED record carries the record of a verification that passed.
abbrev pub has_proof : CapabilityRecord → Bool
has_proof r = elim r.epistemic_status [
  | qualified ↦ elim r.qualification_evidence [
    | none ↦ false
    | some evidence ↦ has_passed evidence.verification_record
  ]
  | _ ↦ true
]

abbrev pub AreProven : List CapabilityRecord → Type 0
AreProven rows = All (λ r. has_proof r ≡ true) rows

AreProven-register :
    (now : ℕ) (c : CapabilityRecord) (rows : List CapabilityRecord)
    → AreProven rows
    → AreProven (register_candidate now c rows).1
unfolding register_candidate
AreProven-register now c rows h = split (select_one (has_id c.capability_id) rows)
  where
    split :
        (o : Option CapabilityRecord)
        → AreProven (elim o [
          | none ↦ rows ++ candidate now c ∷ []
          | some _ ↦ update_where (has_id c.capability_id) (overwritten (candidate now c)) rows
        ])
    split none = All-append _ rows (candidate now c ∷ []) h (refl, tt)
    split (some old) =
        All-update_where _ (has_id c.capability_id) (overwritten (candidate now c)) (λ r p. p) rows
          h

module _ (file_digest : String → Option String) where
  -- What a caller that catches what a call raises has after it.
  unfoldable pub perform : Operation → List CapabilityRecord → List CapabilityRecord
  perform (register now c) rows = (register_candidate now c rows).1
  perform (qualify now id verifier verification) rows =
      or_else
        (qualify_capability file_digest now id verifier verification rows >>= λ written.
          ok written.1)
        rows

  unfoldable pub perform_all : List Operation → List CapabilityRecord → List CapabilityRecord
  perform_all [] rows = rows
  perform_all (op ∷ ops) rows = perform_all ops (perform op rows)

  -- The capability is there, the verification has passed, and the files match.
  abbrev pub MayQualify : String → VerificationRecord → List CapabilityRecord → Type 0
  MayQualify id verification rows =
      (row : CapabilityRecord) × (get_capability id rows ≡ some row)
      × ((has_passed verification ≡ true)
          × (artifacts_match file_digest row.artifact_hashes row.artifact_paths ≡ true))

  module _ (now : ℕ) (id verifier : String) (verification : VerificationRecord)
      (rows : List CapabilityRecord) where
    abbrev attempt : Result (Option CapabilityRecord × List CapabilityRecord)
    attempt = qualify_capability file_digest now id verifier verification rows

    abbrev written : Option CapabilityRecord × List CapabilityRecord
    written = qualified_in file_digest now id verifier verification rows

    qualify-ok :
        (out : Option CapabilityRecord × List CapabilityRecord)
        → attempt ≡ ok out
        → MayQualify id verification rows × (written ≡ out)
    unfolding qualify_capability
    qualify-ok out h = elim (Option-cases (get_capability id rows)) [
      | inl absent ↦ cc (rw (qualify_capability, absent) at h)
      | inr (row, found) ↦
          let (passed, h') = guard-ok _ _ _ out (rw (qualify_capability, found) at h) in
          let (same, done) = guard-ok _ _ _ out h' in
          ((row, found, (passed, same)), ok_injective done)
    ]

    -- `qualify_capability` returns exactly if the capability is registered, the verification
    -- has passed, and each file of its artifacts is there with the hash that is recorded for
    -- it, if one is; the run that it comes from, its constraints and its requirements on the
    -- environment are not looked at.
    pub qualify_iff :
        ((out : Option CapabilityRecord × List CapabilityRecord) × (qualify_capability file_digest
              now id verifier verification rows
            ≡ ok out))
        ↔ MayQualify id verification rows
    unfolding qualify_capability
    qualify_iff = (
      λ (out, h). (qualify-ok out h).0,
      λ (row, found, (passed, same)). (written, rw (qualify_capability, found, passed, same)),
    )

    AreProven-qualify :
        AreProven rows → AreProven (perform (qualify now id verifier verification) rows)
    unfolding perform
    AreProven-qualify h = split attempt refl
      where
        split :
            (r : Result (Option CapabilityRecord × List CapabilityRecord))
            → attempt ≡ r
            → AreProven (or_else (r >>= λ out. ok out.1) rows)
        split (raise _) e = h
        split (ok out) e =
            let ((_, _, (passed, _)), same) = qualify-ok out e in
            subst (λ (o : Option CapabilityRecord × List CapabilityRecord). AreProven o.1) same
              (All-update_where _ (has_id id) _ (λ r p. passed) rows h)

  -- If each QUALIFIED record of a registry carries the record of a verification that passed,
  -- so does each after any sequence of registrations and qualifications.
  pub perform_all-AreProven :
      (ops : List Operation) (rows : List CapabilityRecord)
      → AreProven rows
      → AreProven (perform_all ops rows)
  unfolding perform_all perform
  perform_all-AreProven [] rows h = h
  perform_all-AreProven (op ∷ ops) rows h = perform_all-AreProven ops (perform op rows) (step op)
    where
      step : (op : Operation) → AreProven (perform op rows)
      step (register now c) = AreProven-register now c rows h
      step (qualify now id verifier verification) =
          AreProven-qualify now id verifier verification rows h

-- The status and the evidence of the row that was there, if there was one.
abbrev pub status_before : Option CapabilityRecord → QualificationStatus
status_before none = unqualified
status_before (some old) = old.epistemic_status

abbrev pub evidence_before : Option CapabilityRecord → Option Evidence
evidence_before none = none
evidence_before (some old) = old.qualification_evidence

-- The row describes what `c` describes, under the status and the evidence of the old one.
pub record Describes (c row : CapabilityRecord) (before : Option CapabilityRecord) : Type 0 where
  pub paths : row.artifact_paths ≡ c.artifact_paths
  pub hashes : row.artifact_hashes ≡ c.artifact_hashes
  pub version : row.version ≡ c.version
  pub status : row.epistemic_status ≡ status_before before
  pub evidence : row.qualification_evidence ≡ evidence_before before

module _ (now : ℕ) (c : CapabilityRecord) (rows : List CapabilityRecord) where
  abbrev pub registered : List CapabilityRecord
  registered = (register_candidate now c rows).1

  registered-new :
      select_one (has_id c.capability_id) rows ≡ none → registered ≡ rows ++ candidate now c ∷ []
  unfolding register_candidate
  registered-new absent = rw (registered, register_candidate, absent) refl

  registered-old :
      (old : CapabilityRecord)
      → select_one (has_id c.capability_id) rows ≡ some old
      → registered ≡ update_where (has_id c.capability_id) (overwritten (candidate now c)) rows
  unfolding register_candidate
  registered-old old found = rw (registered, register_candidate, found) refl

  registered_row :
      (row : CapabilityRecord) × (get_capability c.capability_id registered ≡ some row)
      × Describes c row (get_capability c.capability_id rows)
  unfolding get_capability
  registered_row = elim (Option-cases (select_one (has_id c.capability_id) rows)) [
    | inl absent ↦ (
      candidate now c,
      ap (λ rs. select_one (has_id c.capability_id) rs) (registered-new absent)
          ∙ select_one-snoc (has_id c.capability_id) rows (candidate now c)
          ∙ rw (absent, eqb_refl c.capability_id) refl,
      rw absent
          (record { paths = refl; hashes = refl; version = refl; status = refl; evidence = refl }),
    )
    | inr (old, found) ↦ (
      overwritten (candidate now c) old,
      ap (λ rs. select_one (has_id c.capability_id) rs) (registered-old old found)
          ∙ select_one-update (has_id c.capability_id) (has_id c.capability_id)
              (overwritten (candidate now c)) (λ r. refl) rows
          ∙ rw (found, select_one-sat (has_id c.capability_id) rows old found) refl,
      rw found
          (record { paths = refl; hashes = refl; version = refl; status = refl; evidence = refl }),
    )
  ]

  registered_other :
      (j : String)
      → (c.capability_id == j) ≡ false
      → get_capability j registered ≡ get_capability j rows
  unfolding get_capability
  registered_other j other = elim (Option-cases (select_one (has_id c.capability_id) rows)) [
    | inl absent ↦
        ap (λ rs. select_one (has_id j) rs) (registered-new absent)
        ∙ select_one-snoc (has_id j) rows (candidate now c)
        ∙ missed (select_one (has_id j) rows)
    | inr (old, found) ↦
        ap (λ rs. select_one (has_id j) rs) (registered-old old found)
        ∙ select_one-update (has_id j) (has_id c.capability_id) (overwritten (candidate now c))
            (λ r. refl) rows
        ∙ kept (select_one (has_id j) rows) refl
  ]
    where
      missed :
          (o : Option CapabilityRecord)
          → elim o [
            | none ↦ if has_id j (candidate now c) then some (candidate now c) else none
            | some r ↦ some r
          ]
            ≡ o
      missed none = rw other refl
      missed (some r) = refl

      kept :
          (o : Option CapabilityRecord)
          → select_one (has_id j) rows ≡ o
          → updated (has_id c.capability_id) (overwritten (candidate now c)) o ≡ o
      kept none h = refl
      kept (some r) h =
          let at_j = (text_eq.eqb_iff r.capability_id j).0 (select_one-sat (has_id j) rows r h) in
          let away : (r.capability_id == c.capability_id) ≡ false = ground (
            arith,
            at_j,
            other,
            text_eq.eqb_iff r.capability_id c.capability_id,
            text_eq.eqb_iff c.capability_id j,
            text_eq.eqb_iff r.capability_id j,
          ) in
          rw away refl

  -- After a registration the capability is there with the paths, hashes and version that were
  -- registered; it is UNQUALIFIED without evidence if it is new, and keeps its status,
  -- QUALIFIED too, and its evidence if not; every other capability stays.
  pub register_keeps :
      ((row : CapabilityRecord) × (get_capability c.capability_id registered ≡ some row)
        × Describes c row (get_capability c.capability_id rows))
      × ((j : String)
          → (c.capability_id == j) ≡ false
          → get_capability j registered ≡ get_capability j rows)
  register_keeps = (registered_row, registered_other)
