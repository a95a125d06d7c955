-- ===== src/Kernel/Database/Rows.antt =====
-- The table of proposals: one row for a task, and what the updates do to the row of a task.
use shadows.Prelude.{
  nat_beq, and_left, ◌==◌, number_eq, text_eq, select_one, count_where, update_where, updated,
  select_one-update, holds_at, Once, count_where-Once, count_where-zero, Once-update, Once-snoc, ℕ,
  String, ◌≡◌, refl, sym, ap, ◌∙◌, subst, true, not, Option, none, some, List, [], ◌∷◌, ◌++◌,
  eq_iff,
}
use shadows.Kernel.State.{State, state_eq}
use shadows.Kernel.Records.{ProposalRow}
use shadows.Kernel.Database.{has_task, is_at, moved}

-- The row of a task.
abbrev pub row_at : String → List ProposalRow → Option ProposalRow
row_at task_id rows = select_one (has_task task_id) rows

-- The primary key: no two rows have the same task.
abbrev pub HasKey : List ProposalRow → Type 0
HasKey rows = (t : String) → Once (has_task t) rows

pub row_at-update :
    (now : ℕ) (t j : String) (from to : State) (rows : List ProposalRow)
    → row_at j (update_where (is_at t from) (moved now to) rows)
      ≡ updated (is_at t from) (moved now to) (row_at j rows)
row_at-update now t j from to =
    select_one-update (has_task j) (is_at t from) (moved now to) (λ r. refl)

-- The update finds a row exactly if the row of the task is in the state asked for.
pub count-is_at :
    (t : String) (s : State) (rows : List ProposalRow)
    → HasKey rows
    → not (nat_beq (count_where (is_at t s) rows) 0) ≡ holds_at (is_at t s) (row_at t rows)
count-is_at t s rows h =
    count_where-Once (has_task t) (is_at t s) (λ r. and_left (r.task_id == t) (r.state == s)) rows
      (h t)

pub HasKey-update :
    (now : ℕ) (t : String) (from to : State) (rows : List ProposalRow)
    → HasKey rows
    → HasKey (update_where (is_at t from) (moved now to) rows)
HasKey-update now t from to rows h j =
    Once-update (has_task j) (is_at t from) (moved now to) (λ r. refl) rows (h j)

-- A row for a task that has none keeps the key.
pub HasKey-snoc :
    (rows : List ProposalRow) (row : ProposalRow)
    → HasKey rows
    → row_at row.task_id rows ≡ none
    → HasKey (rows ++ row ∷ [])
HasKey-snoc rows row h new t =
    Once-snoc (has_task t) rows row (h t)
      (λ hit. subst (λ k. row_at k rows ≡ none) ((eq_iff row.task_id t).0 hit) new)

pub row_at-none :
    (t : String) (rows : List ProposalRow)
    → nat_beq (count_where (has_task t) rows) 0 ≡ true
    → row_at t rows ≡ none
row_at-none t rows h = none_of (row_at t rows) (sym (count_where-zero (has_task t) rows) ∙ h)
  where
    none_of : (o : Option ProposalRow) → not (holds_at (λ _. true) o) ≡ true → o ≡ none
    none_of none e = refl
    none_of (some r) e = cc

pub count-zero :
    (t : String) (rows : List ProposalRow)
    → row_at t rows ≡ none
    → nat_beq (count_where (has_task t) rows) 0 ≡ true
count-zero t rows h = count_where-zero (has_task t) rows ∙ ap (λ o. not (holds_at (λ _. true) o)) h
