-- ===== src/Prelude/Dicts.antt =====
-- Python's dictionaries as lists of pairs in the order of insertion.
use mathlib.Core.Path.{◌≡◌, refl}
use mathlib.Core.Logic.{inl, inr}
use mathlib.Core.Bool.{true, false}
use native.Mathlib.Omega.{arith}
use mathlib.Core.Option.{Option, none, some}
use mathlib.Core.List.{List, [], ◌∷◌}
use shadows.Prelude.Tests.{if◌then◌else◌, Bool-cases}
use shadows.Prelude.Equality.{Comparable, ◌==◌, number_eq, text_eq}
use shadows.Prelude.Tables.{select_one, Once}

other_key {ℓ} :
    {K : Type ℓ} ⦃e : Comparable K⦄ (i j k : K)
    → (i == j) ≡ true
    → (i == k) ≡ false
    → (k == j) ≡ false
other_key ⦃e⦄ i j k h away = ground (arith, e.eqb_iff i j, e.eqb_iff i k, e.eqb_iff k j)

module _ {ℓ κ} {K : Type ℓ} {V : Type κ} ⦃e : Comparable K⦄ where
  -- `d.get(k)`
  abbrev pub get_item : K → List (K × V) → Option V
  get_item k [] = none
  get_item k (item ∷ d) = if item.0 == k then some item.1 else get_item k d

  -- `d[k] = v`
  abbrev pub set_item : K → V → List (K × V) → List (K × V)
  set_item k v [] = (k, v) ∷ []
  set_item k v (item ∷ d) =
      let rest = set_item k v d in if item.0 == k then (item.0, v) ∷ d else item ∷ rest

  pub get_item-set_item :
      (j k : K) (v : V) (d : List (K × V))
      → get_item j (set_item k v d) ≡ (if k == j then some v else get_item j d)
  get_item-set_item j k v [] = ground arith
  get_item-set_item j k v (item ∷ d) =
      ground
        (arith, get_item-set_item j k v d, e.eqb_iff item.0 k, e.eqb_iff item.0 j, e.eqb_iff k j)

  -- No two pairs have the same key.
  abbrev pub HasKeys : List (K × V) → Type (ℓ ⊔ κ)
  HasKeys d = (k : K) → Once (λ item. item.0 == k) d

  key-set_item :
      (j k : K) (v : V) (d : List (K × V))
      → (k == j) ≡ false
      → select_one (λ item. item.0 == j) d ≡ none
      → select_one (λ item. item.0 == j) (set_item k v d) ≡ none
  key-set_item j k v [] away h = ground arith
  key-set_item j k v (item ∷ d) away h = ground (arith, key-set_item j k v d away)

  pub HasKeys-set_item : (k : K) (v : V) (d : List (K × V)) → HasKeys d → HasKeys (set_item k v d)
  HasKeys-set_item k v [] h j = (λ _. refl, tt)
  HasKeys-set_item k v (item ∷ d) h j = elim (Bool-cases (item.0 == k)) [
    | inl here ↦ rw here (h j)
    | inr away ↦ rw away (
      λ hit. key-set_item j k v d (other_key item.0 j k hit away) ((h j).0 hit),
      HasKeys-set_item k v d (λ i. (h i).1) j,
    )
  ]
