-- ===== src/Prelude/Lists.antt =====
-- Lists under native indices, and predicates on all of their items.
use Prim.Native.Nat.{ℕ, zero, suc, ◌+◌}
use mathlib.Core.Path.{◌≡◌}
use mathlib.Core.Bool.{Bool, true, false, ◌||◌}
use mathlib.Core.Option.{Option, none, some}
use mathlib.Core.List.{List, [], ◌∷◌, ◌++◌}
use native.Mathlib.Omega.{arith}

module _ {ℓ} {A : Type ℓ} where
  abbrev pub length : List A → ℕ
  length [] = 0
  length (x ∷ xs) = suc (length xs)

  abbrev pub is_empty : List A → Bool
  is_empty [] = true
  is_empty (x ∷ xs) = false

  pub length-append : (xs ys : List A) → length (xs ++ ys) ≡ length xs + length ys
  length-append [] ys = omega arith
  length-append (x ∷ xs) ys = omega (arith, length-append xs ys)

  pub length-snoc : (xs : List A) (x : A) → length (xs ++ x ∷ []) ≡ length xs + 1
  length-snoc xs x = length-append xs (x ∷ [])

  abbrev pub drop : ℕ → List A → List A
  drop zero xs = xs
  drop (suc n) [] = []
  drop (suc n) (x ∷ xs) = drop n xs

  abbrev pub any : (A → Bool) → List A → Bool
  any p [] = false
  any p (x ∷ xs) = p x || any p xs

  abbrev pub last? : List A → Option A
  last? [] = none
  last? (x ∷ []) = some x
  last? (x ∷ y ∷ xs) = last? (y ∷ xs)

  abbrev pub All {κ} : (A → Type κ) → List A → Type κ
  All P [] = Unit
  All P (x ∷ xs) = P x × All P xs

  pub All-append {κ} : (P : A → Type κ) (xs ys : List A) → All P xs → All P ys → All P (xs ++ ys)
  All-append P [] ys hx hy = hy
  All-append P (x ∷ xs) ys hx hy = (hx.0, All-append P xs ys hx.1 hy)

  pub All-map {κ μ} :
      (P : A → Type κ) (Q : A → Type μ)
      → ((x : A) → P x → Q x)
      → (xs : List A) → All P xs
      → All Q xs
  All-map P Q f [] h = tt
  All-map P Q f (x ∷ xs) h = (f x h.0, All-map P Q f xs h.1)

  abbrev pub get_elem? : List A → ℕ → Option A
  get_elem? [] n = none
  get_elem? (x ∷ xs) zero = some x
  get_elem? (x ∷ xs) (suc n) = get_elem? xs n

  -- The item at a place, or `d` past the end.
  abbrev pub nth : A → List A → ℕ → A
  nth d [] n = d
  nth d (x ∷ xs) zero = x
  nth d (x ∷ xs) (suc n) = nth d xs n

  abbrev prepend : Option A → List A → List A
  prepend none xs = xs
  prepend (some x) xs = x ∷ xs

  -- The items at these places, less the places that are out of range.
  abbrev pub choose : List ℕ → List A → List A
  choose [] xs = []
  choose (n ∷ places) xs = prepend (get_elem? xs n) (choose places xs)

  All-prepend {κ} :
      (P : A → Type κ) (n : ℕ) (xs ys : List A)
      → All P xs
      → All P ys
      → All P (prepend (get_elem? xs n) ys)
  All-prepend P n [] ys hx hy = hy
  All-prepend P zero (x ∷ xs) ys hx hy = (hx.0, hy)
  All-prepend P (suc n) (x ∷ xs) ys hx hy = All-prepend P n xs ys hx.1 hy

  pub All-choose {κ} :
      (P : A → Type κ) (places : List ℕ) (xs : List A) → All P xs → All P (choose places xs)
  All-choose P [] xs h = tt
  All-choose P (n ∷ places) xs h =
      All-prepend P n xs (choose places xs) h (All-choose P places xs h)
