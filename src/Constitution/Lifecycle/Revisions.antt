-- ===== src/Constitution/Lifecycle/Revisions.antt =====
-- What a revision does to the versions of an objective, and what the qualification of a candidate
-- does not look at.
use shadows.Prelude.{
  if◌then◌else◌, nat_beq_iff, Bool-cases, last?, ◌==◌, number_eq, text_eq, eqb_refl, select_one,
  select_one-snoc, get_item-set_item, ℕ, ◌+◌, String, ◌≡◌, refl, ap, ◌∙◌, ◌⊎◌, inl, inr, Bool, true,
  false, ◌&&◌, Option, none, some, List, [], ◌∷◌, ◌++◌, arith, eq_iff,
}
use shadows.Outcome.{permission_error, Result, raise, ok}
use shadows.Constitution.Records.{
  RevisionType, qualification_eq, revision_eq, Texts, CanonicalRequirement,
  ObjectiveRevisionAuthorization, VersionedObjectiveSpecification,
}
use shadows.Constitution.Lifecycle.{
  ObjectiveLifecycleManager, versions_of, record_spec, get_version, get_latest, is_valid_for,
  new_spec, intent_or, revise_objective,
}

versions_of-record_spec :
    (j : String) (spec : VersionedObjectiveSpecification) (m : ObjectiveLifecycleManager)
    → versions_of j (record_spec spec m) ≡ (
        if spec.objective_id == j
        then versions_of spec.objective_id m ++ spec ∷ []
        else versions_of j m)
unfolding record_spec
versions_of-record_spec j spec m = ground (
  arith,
  get_item-set_item j spec.objective_id (versions_of spec.objective_id m ++ spec ∷ []) m.objectives,
)

last-snoc :
    (specs : List VersionedObjectiveSpecification) (spec : VersionedObjectiveSpecification)
    → last? (specs ++ spec ∷ []) ≡ some spec
last-snoc [] spec = refl
last-snoc (s ∷ []) spec = refl
last-snoc (s ∷ t ∷ specs) spec = last-snoc (t ∷ specs) spec

-- A version that is there stays; the new one is found under its number if there was none.
abbrev pub or_new :
    Option VersionedObjectiveSpecification
    → Bool
    → VersionedObjectiveSpecification
    → Option VersionedObjectiveSpecification
or_new (some old) is_new spec = some old
or_new none is_new spec = if is_new then some spec else none

pub get_latest-record_spec :
    (spec : VersionedObjectiveSpecification) (m : ObjectiveLifecycleManager)
    → get_latest spec.objective_id (record_spec spec m) ≡ some spec
unfolding get_latest
get_latest-record_spec spec m =
    ap last? (versions_of-record_spec spec.objective_id spec m)
    ∙ rw (eqb_refl spec.objective_id) (last-snoc (versions_of spec.objective_id m) spec)

get_version-record_spec :
    (j : String) (n : ℕ) (spec : VersionedObjectiveSpecification) (m : ObjectiveLifecycleManager)
    → get_version j n (record_spec spec m)
      ≡ or_new (get_version j n m) (spec.objective_id == j && spec.version == n) spec
unfolding get_version
get_version-record_spec j n spec m =
    let is_n = λ (s : VersionedObjectiveSpecification). s.version == n in
    ap (select_one is_n) (versions_of-record_spec j spec m)
    ∙ elim (Bool-cases (spec.objective_id == j)) [
      | inl here ↦ rw here (
          ap (λ k. select_one is_n (versions_of k m ++ spec ∷ []))
            ((eq_iff spec.objective_id j).0 here)
          ∙ select_one-snoc is_n (versions_of j m) spec
          ∙ or_added (select_one is_n (versions_of j m)))
      | inr away ↦ rw away (or_old (select_one is_n (versions_of j m)))
    ]
  where
    or_old : (o : Option VersionedObjectiveSpecification) → o ≡ or_new o false spec
    or_old none = refl
    or_old (some old) = refl

    or_added :
        (o : Option VersionedObjectiveSpecification)
        → elim o [ none ↦ if spec.version == n then some spec else none | some old ↦ some old ]
          ≡ or_new o (spec.version == n) spec
    or_added none = refl
    or_added (some old) = refl

module _ (texts : Texts) (spec : VersionedObjectiveSpecification) (revision_type : RevisionType)
    (auth : ObjectiveRevisionAuthorization) where
  abbrev pub revise :
      Option String
      → List CanonicalRequirement
      → ObjectiveLifecycleManager
      → Result (VersionedObjectiveSpecification × ObjectiveLifecycleManager)
  revise intent requirements m =
      revise_objective texts spec revision_type intent requirements auth m

  abbrev pub is_authorized : Bool
  is_authorized = is_valid_for texts auth spec.objective_id spec.version revision_type

  revise-ok :
      (intent : Option String) (requirements : List CanonicalRequirement)
      (m : ObjectiveLifecycleManager)
      → is_authorized ≡ true
      → let new =
          new_spec texts spec revision_type
            (intent_or texts intent spec.canonical_intent)
            requirements
            auth in
        revise intent requirements m ≡ ok (new, record_spec new m)
  unfolding revise_objective
  revise-ok intent requirements m h = rw (revise_objective, h) refl

  -- A revision whose authorization is not valid for the objective, its version and the type
  -- raises; one whose authorization is valid adds the next version, which is then the latest
  -- one of the objective, and keeps every version of every objective that was there.
  pub revise_cases :
      (intent : Option String) (requirements : List CanonicalRequirement)
      (m : ObjectiveLifecycleManager)
      → ((is_authorized ≡ false) × (revise intent requirements m ≡ raise permission_error))
        ⊎ ((new : VersionedObjectiveSpecification) × (after : ObjectiveLifecycleManager)
            × (is_authorized ≡ true)
            × (revise intent requirements m ≡ ok (new, after))
            × (new.version ≡ spec.version + 1)
            × (get_latest spec.objective_id after ≡ some new)
            × ((j : String) (n : ℕ)
                → get_version j n after
                  ≡ or_new
                      (get_version j n m)
                      (spec.objective_id == j && spec.version + 1 == n)
                      new))
  unfolding revise_objective
  revise_cases intent requirements m = elim (Bool-cases is_authorized) [
    | inr bad ↦ inl (bad, rw (revise_objective, bad) refl)
    | inl good ↦
        let new =
          new_spec texts spec revision_type (intent_or texts intent spec.canonical_intent)
            requirements auth in
        inr (
          new,
          record_spec new m,
          good,
          revise-ok intent requirements m good,
          refl,
          get_latest-record_spec new m,
          λ j n. get_version-record_spec j n new m,
        )
  ]

  -- An authorization that is valid for a specification serves twice: both revisions of it
  -- succeed, with any intents and requirements, and make two specifications of the same
  -- version; the first is found under the version, if there was none, and the second is the
  -- latest.
  pub revised_twice :
      (intent intent' : Option String) (requirements requirements' : List CanonicalRequirement)
      (m : ObjectiveLifecycleManager)
      → is_authorized ≡ true
      → get_version spec.objective_id (spec.version + 1) m ≡ none
      → (first second : VersionedObjectiveSpecification) × (between
          after : ObjectiveLifecycleManager)
        × (revise intent requirements m ≡ ok (first, between))
        × (revise intent' requirements' between ≡ ok (second, after))
        × (first.version ≡ second.version)
        × (get_version spec.objective_id (spec.version + 1) after ≡ some first)
        × (get_latest spec.objective_id after ≡ some second)
  revised_twice intent intent' requirements requirements' m good none_yet =
      let first =
        new_spec texts spec revision_type (intent_or texts intent spec.canonical_intent)
          requirements auth in
      let second =
        new_spec texts spec revision_type (intent_or texts intent' spec.canonical_intent)
          requirements' auth in
      let between = record_spec first m in
      let first_found : get_version spec.objective_id (spec.version + 1) between ≡ some first =
        get_version-record_spec spec.objective_id (spec.version + 1) first m
        ∙ rw
            (
              none_yet,
              eqb_refl spec.objective_id,
              (nat_beq_iff (spec.version + 1) (spec.version + 1)).1 refl,
            )
            refl in
      (
        first,
        second,
        between,
        record_spec second between,
        revise-ok intent requirements m good,
        revise-ok intent' requirements' between good,
        refl,
        get_version-record_spec spec.objective_id (spec.version + 1) second between
            ∙ ap
                (λ o.
                  or_new o
                    (spec.objective_id == spec.objective_id && spec.version + 1 == spec.version + 1)
                    second)
                first_found,
        get_latest-record_spec second between,
      )
