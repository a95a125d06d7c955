-- ===== src/Prelude/Upsert.antt =====
-- INSERT ... ON CONFLICT(key) DO UPDATE: the row of a key is written, or a row is appended.
use mathlib.Core.Path.{◌≡◌, refl}
use mathlib.Core.Logic.{inl, inr}
use mathlib.Core.Bool.{Bool, true, false}
use mathlib.Core.Option.{Option, none, some}
use mathlib.Core.List.{List, [], ◌∷◌, ◌++◌}
use native.Mathlib.Omega.{arith}
use shadows.Prelude.Tests.{if◌then◌else◌, Bool-cases}
use shadows.Prelude.Lists.{any, All, All-append}
use shadows.Prelude.Tables.{
  select_one, update_where, select_one-snoc, holds_at, Once, Once-snoc, All-update_where,
}

module _ {ℓ} {A : Type ℓ} where
  -- `conflicts` finds the row with the key of the new one, `merge` is the row that takes its place.
  abbrev pub upsert : (A → Bool) → (A → A) → A → List A → List A
  upsert conflicts merge row rows =
      if any conflicts rows then update_where conflicts merge rows else rows ++ row ∷ []

  pub any-select_one :
      (p : A → Bool) (rows : List A) → any p rows ≡ holds_at (λ _. true) (select_one p rows)
  any-select_one p [] = refl
  any-select_one p (x ∷ rows) = ground (arith, any-select_one p rows)

  pub select_one-any-none :
      (p : A → Bool) (rows : List A) → any p rows ≡ false → select_one p rows ≡ none
  select_one-any-none p [] h = refl
  select_one-any-none p (x ∷ rows) h = ground (arith, select_one-any-none p rows)

  -- What the query for the key of the row finds after the upsert.
  abbrev pub merged : (A → A) → A → Option A → Option A
  merged merge row none = some row
  merged merge row (some old) = some (merge old)

  select_one-update_self :
      (p : A → Bool) (f : A → A)
      → ((r : A) → p (f r) ≡ true)
      → (row : A) (rows : List A) → any p rows ≡ true
      → select_one p (update_where p f rows) ≡ merged f row (select_one p rows)
  select_one-update_self p f sat row [] h = cc
  select_one-update_self p f sat row (x ∷ rows) h =
      ground (arith, sat x, select_one-update_self p f sat row rows)

  select_one-update_other :
      (p q : A → Bool) (f : A → A)
      → ((r : A) → q (f r) ≡ false)
      → ((r : A) → p r ≡ true → q r ≡ false)
      → (rows : List A) → select_one q (update_where p f rows) ≡ select_one q rows
  select_one-update_other p q f unsat apart [] = refl
  select_one-update_other p q f unsat apart (x ∷ rows) =
      ground (arith, unsat x, apart x, select_one-update_other p q f unsat apart rows)

  pub select_one-upsert :
      (p : A → Bool) (f : A → A) (row : A)
      → ((r : A) → p (f r) ≡ true)
      → p row ≡ true
      → (rows : List A) → select_one p (upsert p f row rows) ≡ merged f row (select_one p rows)
  select_one-upsert p f row sat new rows = elim (Bool-cases (any p rows)) [
    | inl there ↦ rw there (select_one-update_self p f sat row rows there)
    | inr free ↦ rw (free, select_one-snoc p rows row, select_one-any-none p rows free, new) refl
  ]

  pub select_one-upsert_other :
      (p q : A → Bool) (f : A → A) (row : A)
      → ((r : A) → q (f r) ≡ false)
      → ((r : A) → p r ≡ true → q r ≡ false)
      → q row ≡ false
      → (rows : List A) → select_one q (upsert p f row rows) ≡ select_one q rows
  select_one-upsert_other p q f row unsat apart new rows = elim (Bool-cases (any p rows)) [
    | inl there ↦ rw there (select_one-update_other p q f unsat apart rows)
    | inr free ↦ rw free (ground (arith, select_one-snoc q rows row, new))
  ]

  -- An update of the rows that fit `q`, which keeps for them what another query asks for.
  select_one-update_fit :
      (p q : A → Bool) (f : A → A)
      → ((r : A) → q r ≡ true → p (f r) ≡ p r)
      → (rows : List A) → select_one p rows ≡ none
      → select_one p (update_where q f rows) ≡ none
  select_one-update_fit p q f keeps [] h = refl
  select_one-update_fit p q f keeps (x ∷ rows) h =
      ground (arith, keeps x, select_one-update_fit p q f keeps rows)

  Once-update_fit :
      (p q : A → Bool) (f : A → A)
      → ((r : A) → q r ≡ true → p (f r) ≡ p r)
      → (rows : List A) → Once p rows
      → Once p (update_where q f rows)
  Once-update_fit p q f keeps [] h = tt
  Once-update_fit p q f keeps (x ∷ rows) h = (
    λ hit. ground (arith, keeps x, select_one-update_fit p q f keeps rows, h.0),
    Once-update_fit p q f keeps rows h.1,
  )

  -- An upsert under a key keeps at most one row for each.
  pub Once-upsert :
      (p q : A → Bool) (f : A → A) (row : A)
      → ((r : A) → q r ≡ true → p (f r) ≡ p r)
      → (p row ≡ true → (rows : List A) → any q rows ≡ false → select_one p rows ≡ none)
      → (rows : List A) → Once p rows
      → Once p (upsert q f row rows)
  Once-upsert p q f row keeps new rows h = elim (Bool-cases (any q rows)) [
    | inl there ↦ rw there (Once-update_fit p q f keeps rows h)
    | inr free ↦ rw free (Once-snoc p rows row h (λ hit. new hit rows free))
  ]

  pub All-upsert {κ} :
      (P : A → Type κ) (q : A → Bool) (f : A → A) (row : A)
      → ((r : A) → P (f r))
      → P row
      → (rows : List A) → All P rows
      → All P (upsert q f row rows)
  All-upsert P q f row made new rows h = elim (Bool-cases (any q rows)) [
    | inl there ↦ rw there (All-update_where P q f (λ r _. made r) rows h)
    | inr free ↦ rw free (All-append P rows (row ∷ []) h (new, tt))
  ]
