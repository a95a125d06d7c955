-- ===== src/Outcome.antt =====
-- What a method that may raise returns: its result, or the exception by its class.
use shadows.Prelude.{if◌then◌else◌, ◌≡◌, refl, Bool, true, false}

pub data Error : Type 0 where
  proposal_already_sealed illegal_state_transition receipt_not_found receipt_mismatch : Error
  privileged_state_mutation_prohibited integrity_error privileged_minting : Error
  invalid_witness semantic_laundering value_error type_error attribute_error : Error
  spec_tampered capability_deficit permission_error : Error

pub data Result {ℓ} (X : Type ℓ) : Type ℓ where
  raise : Error → Result X
  ok : X → Result X

infixl 5 ◌>>=◌ ◌>>◌
abbrev pub ◌>>=◌ {ℓ κ} : {X : Type ℓ} {Y : Type κ} → Result X → (X → Result Y) → Result Y
raise e >>= k = raise e
ok x >>= k = k x

abbrev pub ◌>>◌ {ℓ} : {X : Type ℓ} → Result (Unit {0}) → Result X → Result X
first >> k = first >>= λ _. k

-- `if not test: raise e`
abbrev pub guard : Bool → Error → Result (Unit {0})
guard test e = if test then ok tt else raise e

-- `try: return m` / `except Exception: return a`
abbrev pub or_else {ℓ} : {X : Type ℓ} → Result X → X → X
or_else (ok x) default = x
or_else (raise e) default = default

module _ {ℓ} {A : Type ℓ} where
  pub ok_injective : {a b : A} → ok a ≡ ok b → a ≡ b
  ok_injective h = cc

  -- What follows a guard runs exactly if the guard's test holds.
  pub guard-ok :
      (b : Bool) (e : Error) (k : Result A) (a : A)
      → (guard b e >> k) ≡ ok a
      → (b ≡ true) × (k ≡ ok a)
  guard-ok true e k a h = (refl, h)
  guard-ok false e k a h = cc

  pub guard-raise : (b : Bool) (e : Error) (k : Result A) → b ≡ false → (guard b e >> k) ≡ raise e
  guard-raise b e k h = rw h

pub bind-ok {ℓ κ} :
    {A : Type ℓ} {B : Type κ} (m : Result A) (f : A → Result B) (b : B)
    → (m >>= f) ≡ ok b
    → (a : A) × (m ≡ ok a) × (f a ≡ ok b)
bind-ok (ok a) f b h = (a, refl, h)
bind-ok (raise e) f b h = cc
