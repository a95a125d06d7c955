-- ===== src/Constitution/Capability/Deficits.antt =====
-- When evaluate_required_operations (loop_engine/constitution/capability.py) leaves no deficit.
use shadows.Prelude.{
  Bool-cases, some_injective, any, select, select_one, holds_at, any-select_one, String, ◌≡◌, refl,
  sym, ap, ◌∙◌, inl, inr, Bool, true, false, not, Option, none, some, List, [], ◌∷◌, ◌++◌, map,
}
use shadows.Constitution.Capability.{
  ConditionalCapability, RequiredOperation, CapabilityDeficit, CapabilityDeficitEngine, serves,
  deficit_of, settled, evaluate_required_operations,
}

-- Whether some registered capability serves the operation.
abbrev pub is_served : CapabilityDeficitEngine → String → RequiredOperation → Bool
is_served engine environment op = any (serves environment op) engine.registry

-- What a query finds is the first row that it asks for.
abbrev pub IsFirst {ℓ} : {A : Type ℓ} → (A → Bool) → List A → A → Type ℓ
IsFirst {A = A} p rows r =
    (before after : List A) × (rows ≡ before ++ r ∷ after) × ((any p before ≡ false) × (p r ≡ true))

select_one-IsFirst {ℓ} :
    {A : Type ℓ} (p : A → Bool) (rows : List A) (r : A)
    → select_one p rows ≡ some r
    → IsFirst p rows r
select_one-IsFirst p [] r h = cc h
select_one-IsFirst p (x ∷ rows) r h = elim (Bool-cases (p x)) [
  | inl hit ↦
      let same = some_injective (rw hit at h) in
      ([], rows, ap (λ y. y ∷ rows) same, (refl, rw (sym same) hit))
  | inr miss ↦
      let (before, after, e, (none_before, sat)) = select_one-IsFirst p rows r (rw miss at h) in
      (x ∷ before, after, ap (λ ys. x ∷ ys) e, (rw (miss, none_before) refl, sat))
]

module _ (engine : CapabilityDeficitEngine) (environment : String) where
  -- Each operation has its capability, the first of the registry that serves it.
  abbrev pub Binds : List RequiredOperation → List ConditionalCapability → Type 0
  Binds [] [] = Unit
  Binds [] (_ ∷ _) = ⊥
  Binds (_ ∷ _) [] = ⊥
  Binds (op ∷ ops) (cap ∷ caps) =
      ((key : String) × IsFirst (serves environment op) engine.registry (key, cap)) × Binds ops caps

  -- There is one deficit for each operation that is not served, and one capability for each of the
  -- others.
  abbrev pub Settles :
      List RequiredOperation → List ConditionalCapability × List CapabilityDeficit → Type 0
  Settles ops done =
      (done.1 ≡ map deficit_of (select (λ op. not (is_served engine environment op)) ops))
      × Binds (select (is_served engine environment) ops) done.0

  served_as :
      (op : RequiredOperation) (matched : Option (String × ConditionalCapability))
      → select_one (serves environment op) engine.registry ≡ matched
      → is_served engine environment op ≡ holds_at (λ _. true) matched
  served_as op matched h =
      any-select_one (serves environment op) engine.registry ∙ ap (holds_at (λ _. true)) h

  settled-Settles :
      (op : RequiredOperation) (ops : List RequiredOperation)
      (rest : List ConditionalCapability × List CapabilityDeficit)
      → Settles ops rest
      → (matched : Option (String × ConditionalCapability))
      → select_one (serves environment op) engine.registry ≡ matched
      → Settles (op ∷ ops) (settled op matched rest)
  settled-Settles op ops rest h none lacks =
      rw (served_as op none lacks) (ap (λ ds. deficit_of op ∷ ds) h.0, h.1)
  settled-Settles op ops rest h (some item) hit =
      rw (served_as op (some item) hit)
        (h.0, ((item.0, select_one-IsFirst (serves environment op) engine.registry item hit), h.1))

  -- One deficit is made, in their order, for each of the operations that no registered
  -- capability serves, and to each of the others, in their order, the first registered
  -- capability that serves it is bound.
  pub evaluate_required_operations_lem :
      (ops : List RequiredOperation)
      → Settles ops (evaluate_required_operations engine environment ops)
  unfolding evaluate_required_operations
  evaluate_required_operations_lem [] = (refl, tt)
  evaluate_required_operations_lem (op ∷ ops) =
      settled-Settles op ops (evaluate_required_operations engine environment ops)
        (evaluate_required_operations_lem ops) (select_one (serves environment op) engine.registry)
        refl
