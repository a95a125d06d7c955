-- ===== src/Prelude/Equality.antt =====
-- Python's `==` and `in` over numbers, texts and enumerations.
use Prim.Native.Nat.{ℕ}
use Prim.Native.String.{String}
use mathlib.Core.Path.{◌≡◌, refl, sym, ap, ◌∙◌}
use mathlib.Core.Logic.{◌↔◌}
use mathlib.Core.Bool.{Bool, true, false, ◌||◌}
use mathlib.Core.List.{List, [], ◌∷◌, ◌++◌}
use native.Mathlib.Omega.{arith}
use text.Mathlib.Text.{◌==◌ as str_eq}
use text.Mathlib.TextEquality.{eq_iff}
use shadows.Prelude.Tests.{nat_beq, nat_beq_iff}

pub record Comparable {ℓ} (A : Type ℓ) : Type ℓ where
  pub eqb : A → A → Bool
  pub eqb_iff : (a b : A) → (eqb a b ≡ true) ↔ (a ≡ b)

infix 50 ◌==◌
abbrev pub ◌==◌ {ℓ} : {A : Type ℓ} ⦃c : Comparable A⦄ → (x y : A) → Bool
◌==◌ ⦃c⦄ x y = c.eqb x y

instance abbrev pub number_eq : Comparable ℕ
number_eq = record { eqb = nat_beq; eqb_iff = nat_beq_iff }

instance abbrev pub text_eq : Comparable String
text_eq = record { eqb = str_eq; eqb_iff = eq_iff }

-- An enumeration compares by the position of its members.
module _ {A : Type 0} (position : A → ℕ) (member : ℕ → A)
    (member-position : (a : A) → member (position a) ≡ a) where
  pub position_iff : (a b : A) → (nat_beq (position a) (position b) ≡ true) ↔ (a ≡ b)
  position_iff a b =
      let same = nat_beq_iff (position a) (position b) in
      (
        λ h. sym (member-position a) ∙ ap member (same.0 h) ∙ member-position b,
        λ e. same.1 (ap position e),
      )

  abbrev pub enum_eq : Comparable A
  enum_eq = record { eqb = λ a b. nat_beq (position a) (position b); eqb_iff = position_iff }

module _ {ℓ} {A : Type ℓ} ⦃e : Comparable A⦄ where
  pub eqb_refl : (a : A) → (a == a) ≡ true
  eqb_refl a = (e.eqb_iff a a).1 refl

  -- `a in xs`
  abbrev pub contains : A → List A → Bool
  contains a [] = false
  contains a (x ∷ xs) = a == x || contains a xs

  pub contains-append :
      (a : A) (xs ys : List A) → contains a (xs ++ ys) ≡ (contains a xs || contains a ys)
  contains-append a [] ys = refl
  contains-append a (x ∷ xs) ys = ground (arith, contains-append a xs ys)

-- Two texts that are equal to a third are told apart from it alike.
pub str_ne_of_eq : (a b c : String) → (a == b) ≡ true → (c == b) ≡ false → (a == c) ≡ false
str_ne_of_eq a b c h k = ground (arith, eq_iff a b, eq_iff c b, eq_iff a c)
