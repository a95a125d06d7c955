-- ===== src/Disposition/Earned.antt =====
-- A build is earned, and a reuse is of a capability that is required (loop_engine/disposition.py).
use shadows.Prelude.{
  if◌then◌else◌, Bool-cases, is_empty, number_eq, text_eq, eqb_refl, contains, concat, String, ◌≡◌,
  refl, sym, ◌∙◌, ◌≢◌, inl, inr, Bool, true, false, not, ◌&&◌, Option, none, some, List, [], ◌∷◌,
  arith,
}
use shadows.Kernel.Authority.{Tcb, VerificationContractWitness, is_valid}
use shadows.Disposition.{
  ActionDisposition, direct, reuse, build, expose_deficit, DispositionEvaluation, Spec, canonical,
  task, intent_of, required_by, has_grounding, domain_of, is_informational, is_generative, unearned,
  reuse_by_contract, all_in, reuse_named, reuse_by_name, missing_from, deficit, or_else_by,
  evaluate_build, build_or_direct, evaluate_execution_disposition,
}
use shadows.Disposition.Contracts.{CapabilityContract, evaluate_capability_applicability}

-- The evaluation is for a capability that is required.
abbrev pub IsForRequired : List String → DispositionEvaluation → Type 0
IsForRequired required e =
    (id : String) × (e.target_capability ≡ some id) × (contains id required ≡ true)

-- What a step answers, if it answers, is a reuse of a capability that is required.
abbrev MayReuse : List String → Option DispositionEvaluation → Type 0
MayReuse required none = Unit
MayReuse required (some e) = (e.disposition ≡ reuse) × IsForRequired required e

reuse_by_contract-MayReuse :
    (intent : String) (domain : Option String) (required : List String)
    (contracts : List CapabilityContract)
    → MayReuse required (reuse_by_contract intent domain required contracts)
unfolding reuse_by_contract
reuse_by_contract-MayReuse intent domain required [] = tt
reuse_by_contract-MayReuse intent domain required (c ∷ contracts) =
    split (contains c.capability_id required)
      (evaluate_capability_applicability c intent domain).is_applicable refl
      (reuse_by_contract-MayReuse intent domain required contracts)
  where
    rest : Option DispositionEvaluation
    rest = reuse_by_contract intent domain required contracts

    split :
        (is_required applies : Bool)
        → contains c.capability_id required ≡ is_required
        → MayReuse required rest
        → MayReuse required (
            if is_required && applies
            then some (
                unearned reuse
                  (evaluate_capability_applicability c intent domain).rationale
                  (some c.capability_id)
                  none)
            else rest)
    split true true h later = (refl, (c.capability_id, refl, h))
    split true false h later = later
    split false _ h later = later

reuse_named-MayReuse :
    (required available : List String) → MayReuse required (reuse_named required available)
reuse_named-MayReuse [] available = tt
reuse_named-MayReuse (matched ∷ others) available = split (all_in (matched ∷ others) available)
  where
    split :
        (b : Bool)
        → MayReuse (matched ∷ others) (
            if b
            then some (
                unearned reuse
                  (concat (
                    "Authoritative capability '" ∷ matched ∷ "' is already available in the system."
                    ∷ []))
                  (some matched)
                  none)
            else none)
    split true = (refl, (matched, refl, rw (eqb_refl matched)))
    split false = tt

reuse_by_name-MayReuse :
    (spec : Spec) (contracts : List CapabilityContract)
    → MayReuse (required_by spec) (reuse_by_name spec contracts)
unfolding reuse_by_name
reuse_by_name-MayReuse (task s) [] =
    reuse_named-MayReuse s.required_capabilities s.available_capabilities
reuse_by_name-MayReuse (task s) (c ∷ contracts) = tt
reuse_by_name-MayReuse (canonical o) _ = tt

-- A step that answers with a deficit.
abbrev MayExpose : Option DispositionEvaluation → Type 0
MayExpose none = Unit
MayExpose (some e) = e.disposition ≡ expose_deficit

deficit-MayExpose : (spec : Spec) → MayExpose (deficit spec)
unfolding deficit
deficit-MayExpose (canonical o) = tt
deficit-MayExpose (task s) =
    elim (Bool-cases (
      not (is_empty (missing_from s.available_capabilities s.required_capabilities))
      && not (is_generative s.intent_type))) [ inl lacks ↦ rw lacks refl | inr has ↦ rw has tt ]

past_reuse :
    (required : List String) (o : Option DispositionEvaluation) (e : DispositionEvaluation)
    → MayReuse required o
    → (or_else_by o e).disposition ≡ build
    → e.disposition ≡ build
past_reuse required none e m h = h
past_reuse required (some a) e m h = cc (m.0, h)

past_deficit :
    (d : ActionDisposition) (o : Option DispositionEvaluation) (e : DispositionEvaluation)
    → d ≢ expose_deficit
    → MayExpose o
    → (or_else_by o e).disposition ≡ d
    → e.disposition ≡ d
past_deficit d none e other m h = h
past_deficit d (some a) e other m h = absurd (other (sym h ∙ m))

reused :
    (required : List String) (o : Option DispositionEvaluation) (e : DispositionEvaluation)
    → MayReuse required o
    → (e.disposition ≡ reuse → IsForRequired required e)
    → (or_else_by o e).disposition ≡ reuse
    → IsForRequired required (or_else_by o e)
reused required none e m later h = later h
reused required (some a) e m later h = m.1

built_only :
    (generates earned : Bool)
    → (if generates then (if earned then build else expose_deficit) else direct) ≡ build
    → (generates ≡ true) × (earned ≡ true)
built_only true true h = (refl, refl)
built_only true false h = cc h
built_only false _ h = cc h

never_reused :
    (generates earned : Bool)
    → (if generates then (if earned then build else expose_deficit) else direct) ≢ reuse
never_reused true true h = cc h
never_reused true false h = cc h
never_reused false _ h = cc h

module _ (tcb : Tcb) where
  abbrev pub is_earned_by : Spec → Option VerificationContractWitness → Bool
  is_earned_by spec none = false
  is_earned_by spec (some contract) = is_valid tcb contract && has_grounding spec

  evaluate_build-disposition :
      (spec : Spec) (contract : Option VerificationContractWitness)
      → (evaluate_build tcb spec contract).disposition
        ≡ (if is_earned_by spec contract then build else expose_deficit)
  unfolding evaluate_build
  evaluate_build-disposition spec none = refl
  evaluate_build-disposition spec (some contract) = ground arith

  build_or_direct-disposition :
      (spec : Spec) (contract : Option VerificationContractWitness)
      → (build_or_direct tcb spec contract).disposition ≡ (
          if is_generative (intent_of spec)
          then (if is_earned_by spec contract then build else expose_deficit)
          else direct)
  unfolding build_or_direct
  build_or_direct-disposition spec contract = elim (Bool-cases (is_generative (intent_of spec))) [
    | inl generates ↦ rw generates (evaluate_build-disposition spec contract)
    | inr plain ↦ rw plain refl
  ]

  module _ (spec : Spec) (contract : Option VerificationContractWitness)
      (contracts : List CapabilityContract) where
    abbrev last_steps : DispositionEvaluation
    last_steps = or_else_by (deficit spec) (build_or_direct tcb spec contract)

    -- An objective is answered with BUILD only if its intent generates code and is not
    -- informational, and it comes with a verification contract that is valid and with
    -- grounding.
    pub build-earned :
        (evaluate_execution_disposition tcb spec contract contracts).disposition ≡ build
        → (is_informational (intent_of spec) ≡ false)
          × ((is_generative (intent_of spec) ≡ true) × (is_earned_by spec contract ≡ true))
    unfolding evaluate_execution_disposition
    build-earned h = elim (Bool-cases (is_informational (intent_of spec))) [
      | inl informs ↦ cc (rw informs at h)
      | inr acts ↦
          let after_contracts =
            past_reuse (required_by spec) _ _
              (reuse_by_contract-MayReuse (intent_of spec) (domain_of spec) (required_by spec)
                contracts)
              (rw acts at h) in
          let after_names =
            past_reuse (required_by spec) _ _ (reuse_by_name-MayReuse spec contracts)
              after_contracts in
          let last = past_deficit build _ _ (λ e. cc e) (deficit-MayExpose spec) after_names in
          (acts, built_only _ _ (sym (build_or_direct-disposition spec contract) ∙ last))
    ]

    -- An objective is answered with REUSE only for a capability that it requires.
    pub reuse-IsForRequired :
        (evaluate_execution_disposition tcb spec contract contracts).disposition ≡ reuse
        → IsForRequired
            (required_by spec)
            (evaluate_execution_disposition tcb spec contract contracts)
    unfolding evaluate_execution_disposition
    reuse-IsForRequired h = elim (Bool-cases (is_informational (intent_of spec))) [
      | inl informs ↦ cc (h, informs)
      | inr acts ↦ rw acts (
          reused (required_by spec) _ _
            (reuse_by_contract-MayReuse (intent_of spec) (domain_of spec) (required_by spec)
              contracts)
            (reused (required_by spec) _ _ (reuse_by_name-MayReuse spec contracts) (λ r. absurd (
              never_reused _ _ (
                sym (build_or_direct-disposition spec contract)
                ∙ past_deficit reuse _ _ (λ e. cc e) (deficit-MayExpose spec) r))))
            (rw acts at h))
    ]
