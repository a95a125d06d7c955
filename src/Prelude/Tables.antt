-- ===== src/Prelude/Tables.antt =====
-- A SQL table as the list of its rows in the order of insertion, with what the statements do.
use Prim.Native.Nat.{ℕ, ◌+◌}
use mathlib.Core.Path.{◌≡◌, refl, ap, ◌∙◌}
use mathlib.Core.Logic.{inl, inr}
use mathlib.Core.Bool.{Bool, true, false, not}
use mathlib.Core.Option.{Option, none, some}
use mathlib.Core.List.{List, [], ◌∷◌, ◌++◌}
use native.Mathlib.Omega.{arith}
use shadows.Prelude.Tests.{nat_beq, if◌then◌else◌, Bool-cases}
use shadows.Prelude.Lists.{All}

module _ {ℓ} {A : Type ℓ} where
  -- SELECT * FROM rows WHERE p, and its `fetchone()`
  abbrev pub select : (A → Bool) → List A → List A
  select p [] = []
  select p (r ∷ rows) = let rest = select p rows in if p r then r ∷ rest else rest

  abbrev pub select_one : (A → Bool) → List A → Option A
  select_one p [] = none
  select_one p (r ∷ rows) = if p r then some r else select_one p rows

  -- SELECT COUNT(*) FROM rows WHERE p
  abbrev pub count_where : (A → Bool) → List A → ℕ
  count_where p [] = 0
  count_where p (r ∷ rows) = (if p r then 1 else 0) + count_where p rows

  -- UPDATE rows SET f WHERE p
  abbrev pub update_where : (A → Bool) → (A → A) → List A → List A
  update_where p f [] = []
  update_where p f (r ∷ rows) = (if p r then f r else r) ∷ update_where p f rows

  pub count_where-append :
      (p : A → Bool) (xs ys : List A)
      → count_where p (xs ++ ys) ≡ count_where p xs + count_where p ys
  count_where-append p [] ys = omega arith
  count_where-append p (x ∷ xs) ys = omega (arith, count_where-append p xs ys)

  -- A new row is found after those that were there.
  pub select_one-snoc :
      (p : A → Bool) (rows : List A) (r : A)
      → select_one p (rows ++ r ∷ [])
        ≡ elim (select_one p rows) [ none ↦ if p r then some r else none | some old ↦ some old ]
  select_one-snoc p [] r = ground arith
  select_one-snoc p (x ∷ rows) r = ground (arith, select_one-snoc p rows r)

  pub select_one-sat :
      (p : A → Bool) (rows : List A) (r : A) → select_one p rows ≡ some r → p r ≡ true
  select_one-sat p [] r h = ground arith
  select_one-sat p (x ∷ rows) r h = ground (arith, select_one-sat p rows r)

  -- What the update has made of a row, if the row was there.
  abbrev pub updated : (A → Bool) → (A → A) → Option A → Option A
  updated q f none = none
  updated q f (some r) = some (if q r then f r else r)

  -- An update that keeps what a query asks for updates the row that the query finds.
  pub select_one-update :
      (p q : A → Bool) (f : A → A)
      → ((r : A) → p (f r) ≡ p r)
      → (rows : List A) → select_one p (update_where q f rows) ≡ updated q f (select_one p rows)
  select_one-update p q f keeps [] = refl
  select_one-update p q f keeps (x ∷ rows) =
      ground (arith, keeps x, select_one-update p q f keeps rows)

  abbrev pub holds_at : (A → Bool) → Option A → Bool
  holds_at q none = false
  holds_at q (some r) = q r

  -- At most one row fits.
  abbrev pub Once : (A → Bool) → List A → Type ℓ
  Once p [] = Unit
  Once p (r ∷ rows) = (p r ≡ true → select_one p rows ≡ none) × Once p rows

  pub count_where-none :
      (p q : A → Bool)
      → ((r : A) → q r ≡ true → p r ≡ true)
      → (rows : List A) → select_one p rows ≡ none
      → count_where q rows ≡ 0
  count_where-none p q sub [] h = refl
  count_where-none p q sub (x ∷ rows) h = ground (arith, sub x, count_where-none p q sub rows)

  -- Where at most one row fits `p`, an update by a narrower test counts rows exactly if that row
  -- passes it.
  pub count_where-Once :
      (p q : A → Bool)
      → ((r : A) → q r ≡ true → p r ≡ true)
      → (rows : List A) → Once p rows
      → not (nat_beq (count_where q rows) 0) ≡ holds_at q (select_one p rows)
  count_where-Once p q sub [] h = refl
  count_where-Once p q sub (x ∷ rows) h =
      ground (arith, sub x, count_where-none p q sub rows, count_where-Once p q sub rows h.1)

  pub count_where-zero :
      (p : A → Bool) (rows : List A)
      → nat_beq (count_where p rows) 0 ≡ not (holds_at (λ _. true) (select_one p rows))
  count_where-zero p [] = refl
  count_where-zero p (x ∷ rows) = ground (arith, count_where-zero p rows)

  pub Once-update :
      (p q : A → Bool) (f : A → A)
      → ((r : A) → p (f r) ≡ p r)
      → (rows : List A) → Once p rows
      → Once p (update_where q f rows)
  Once-update p q f keeps [] h = tt
  Once-update p q f keeps (x ∷ rows) h = (
    λ hit. ground (arith, keeps x, select_one-update p q f keeps rows, h.0),
    Once-update p q f keeps rows h.1,
  )

  pub Once-snoc :
      (p : A → Bool) (rows : List A) (r : A)
      → Once p rows
      → (p r ≡ true → select_one p rows ≡ none)
      → Once p (rows ++ r ∷ [])
  Once-snoc p [] r h new = (λ _. refl, tt)
  Once-snoc p (x ∷ rows) r h new = (
    λ hit. ground (arith, select_one-snoc p rows r, h.0, new),
    Once-snoc p rows r h.1 (λ hit. ground (arith, new hit)),
  )

  abbrev pub kept_by : (A → Bool) → Option A → Option A
  kept_by q none = none
  kept_by q (some r) = if q r then some r else none

  -- Where at most one row fits `p`, a query finds it in a selection if it was selected.
  pub select_one-select :
      (p q : A → Bool) (rows : List A)
      → Once p rows
      → select_one p (select q rows) ≡ kept_by q (select_one p rows)
  select_one-select p q [] h = refl
  select_one-select p q (x ∷ rows) h = ground (arith, h.0, select_one-select p q rows h.1)

  pub Once-select : (p q : A → Bool) (rows : List A) → Once p rows → Once p (select q rows)
  Once-select p q [] h = tt
  Once-select p q (x ∷ rows) h = elim (Bool-cases (q x)) [
    | inl kept ↦
        rw kept (
          λ hit. select_one-select p q rows h.1 ∙ ap (kept_by q) (h.0 hit),
          Once-select p q rows h.1,
        )
    | inr dropped ↦ rw dropped (Once-select p q rows h.1)
  ]

  pub All-update_where {κ} :
      (P : A → Type κ) (q : A → Bool) (f : A → A)
      → ((r : A) → P r → P (f r))
      → (rows : List A) → All P rows
      → All P (update_where q f rows)
  All-update_where P q f keeps [] h = tt
  All-update_where P q f keeps (r ∷ rows) h = (
    elim (Bool-cases (q r)) [ inl hit ↦ rw hit (keeps r h.0) | inr miss ↦ rw miss h.0 ],
    All-update_where P q f keeps rows h.1,
  )
