-- ===== src/Kernel/Database/Transitions.antt =====
-- What the compare-and-set of `_raw_transition_proposal_state` does, on every branch.
use shadows.Prelude.{
  nat_beq, if◌then◌else◌, Bool-cases, and_right, and_intro, and_false, some_injective, ◌==◌,
  number_eq, text_eq, str_ne_of_eq, count_where, update_where, select_one-snoc, select_one-sat,
  updated, holds_at, ℕ, String, ◌≡◌, refl, sym, ap, ◌∙◌, subst, ◌↔◌, inl, inr, Bool, true, false,
  not, Option, none, some, [], ◌∷◌, ◌++◌, arith, eq_iff,
}
use shadows.Outcome.{ok, ok_injective, guard-ok}
use shadows.Kernel.State.{State, state_eq, is_legal}
use shadows.Kernel.Records.{ProposalManifest, ProposalRow, KernelDatabase}
use shadows.Kernel.Database.{
  has_task, is_at, manifest_of_row, get_proposal, get_proposal_state, moved,
  raw_transition_proposal_state,
}
use shadows.Kernel.Database.Rows.{row_at, HasKey, row_at-update, count-is_at, HasKey-update}

abbrev pub with_state : State → Option ProposalManifest → Option ProposalManifest
with_state s none = none
with_state s (some m) = some (record m { state = s })

abbrev pub state_of : Option ProposalManifest → Option State
state_of none = none
state_of (some m) = some m.state

pub get_proposal_state-eq_state_of :
    (t : String) (db : KernelDatabase) → get_proposal_state t db ≡ state_of (get_proposal t db)
unfolding get_proposal_state get_proposal
get_proposal_state-eq_state_of t db = ground arith

manifest_of_row? : Option ProposalRow → Option ProposalManifest
manifest_of_row? none = none
manifest_of_row? (some row) = some (manifest_of_row row)

get_proposal_lem :
    (t : String) (db : KernelDatabase)
    → get_proposal t db ≡ manifest_of_row? (row_at t db.proposals)
unfolding get_proposal manifest_of_row?
get_proposal_lem t db = ground arith

module _ (t : String) (from : State) where
  holds_iff :
      (o : Option ProposalRow)
      → ((r : ProposalRow) → o ≡ some r → has_task t r ≡ true)
      → (holds_at (is_at t from) o ≡ true) ↔ (state_of (manifest_of_row? o) ≡ some from)
  unfolding manifest_of_row?
  holds_iff none hit = ground arith
  holds_iff (some r) hit =
      let same = state_eq.eqb_iff r.state from in
      (
        λ h. ap some (same.0 (and_right (r.task_id == t) (r.state == from) h)),
        λ e. and_intro (r.task_id == t) (r.state == from) (hit r refl) (same.1 (some_injective e)),
      )

  moved_self :
      (now : ℕ) (to : State) (o : Option ProposalRow)
      → holds_at (is_at t from) o ≡ true
      → manifest_of_row? (updated (is_at t from) (moved now to) o)
        ≡ with_state to (manifest_of_row? o)
  unfolding manifest_of_row?
  moved_self now to none h = cc
  moved_self now to (some r) h = rw h

  moved_other :
      (now : ℕ) (to : State) (o : Option ProposalRow)
      → ((r : ProposalRow) → o ≡ some r → has_task t r ≡ false)
      → updated (is_at t from) (moved now to) o ≡ o
  moved_other now to none other = refl
  moved_other now to (some r) other =
      rw (and_false (r.task_id == t) (r.state == from) (other r refl))

module _ (now : ℕ) (t : String) (from to : State) (db : KernelDatabase) where
  abbrev pub after : KernelDatabase
  after = record db { proposals = update_where (is_at t from) (moved now to) db.proposals }

  found : Bool
  found = not (nat_beq (count_where (is_at t from) db.proposals) 0)

  raw-ok :
      (db' : KernelDatabase)
      → raw_transition_proposal_state now t from to db ≡ ok db'
      → (is_legal from to ≡ true) × (found ≡ true) × (after ≡ db')
  unfolding raw_transition_proposal_state found
  raw-ok db' h =
      let (legal, rest) = guard-ok (is_legal from to) _ _ db' h in
      let (hit, done) = guard-ok found _ _ db' rest in (legal, hit, ok_injective done)

  ok-raw :
      is_legal from to ≡ true
      → found ≡ true
      → raw_transition_proposal_state now t from to db ≡ ok after
  unfolding raw_transition_proposal_state found
  ok-raw legal hit = rw (legal, hit)

  found-eq : HasKey db.proposals → found ≡ holds_at (is_at t from) (row_at t db.proposals)
  unfolding found
  found-eq key = count-is_at t from db.proposals key

  found_iff : HasKey db.proposals → (found ≡ true) ↔ (get_proposal_state t db ≡ some from)
  found_iff key =
      rw (found-eq key, get_proposal_state-eq_state_of t db, get_proposal_lem t db)
        (holds_iff t from (row_at t db.proposals) (select_one-sat (has_task t) db.proposals))

  get_proposal-after :
      (j : String)
      → found ≡ true
      → HasKey db.proposals
      → get_proposal j after
        ≡ (if t == j then with_state to (get_proposal j db) else get_proposal j db)
  get_proposal-after j hit key =
      rw
        (
          get_proposal_lem j after,
          get_proposal_lem j db,
          row_at-update now t j from to db.proposals,
        )
        (elim (Bool-cases (t == j)) [
          | inl same ↦ rw same (
              subst
                (λ k.
                  manifest_of_row? (updated (is_at t from) (moved now to) (row_at k db.proposals))
                  ≡ with_state to (manifest_of_row? (row_at k db.proposals)))
                ((eq_iff t j).0 same)
                (moved_self t from now to (row_at t db.proposals) (rw (← found-eq key) hit)))
          | inr other ↦ rw (
            other,
            moved_other t from now to (row_at j db.proposals) (λ r e.
                str_ne_of_eq r.task_id j t (select_one-sat (has_task j) db.proposals r e) other),
          )
        ])

  pub raw_transition_effect :
      (db' : KernelDatabase)
      → HasKey db.proposals
      → raw_transition_proposal_state now t from to db ≡ ok db'
      → HasKey db'.proposals
        × ((j : String)
            → get_proposal j db'
              ≡ (if t == j then with_state to (get_proposal j db) else get_proposal j db))
  raw_transition_effect db' key h =
      let (_, hit, e) = raw-ok db' h in
      subst
        (λ d.
          HasKey d.proposals
          × ((j : String)
              → get_proposal j d
                ≡ (if t == j then with_state to (get_proposal j db) else get_proposal j db)))
        e (HasKey-update now t from to db.proposals key, λ j. get_proposal-after j hit key)

  -- In a database with one row for a task, the compare-and-set succeeds exactly if the
  -- transition is legal and the proposal stands in the state that it is to leave.
  pub raw_transition_iff :
      HasKey db.proposals
      → ((db' : KernelDatabase) × (raw_transition_proposal_state now t from to db ≡ ok db'))
        ↔ ((is_legal from to ≡ true) × (get_proposal_state t db ≡ some from))
  raw_transition_iff key = (
    λ (db', h). let (legal, hit, _) = raw-ok db' h in (legal, (found_iff key).0 hit),
    λ (legal, here). (after, ok-raw legal ((found_iff key).1 here)),
  )

  pub raw_transition_state :
      (db' : KernelDatabase)
      → HasKey db.proposals
      → raw_transition_proposal_state now t from to db ≡ ok db'
      → (j : String)
      → get_proposal_state j db' ≡ (if t == j then some to else get_proposal_state j db)
  raw_transition_state db' key h j =
      rw
        (
          get_proposal_state-eq_state_of j db',
          (raw_transition_effect db' key h).1 j,
          get_proposal_state-eq_state_of j db,
        )
        (elim (Bool-cases (t == j)) [
          | inl same ↦ rw same (
              has_to (get_proposal j db) (
                sym (get_proposal_state-eq_state_of j db)
                ∙ subst (λ k. get_proposal_state k db ≡ some from) ((eq_iff t j).0 same)
                    ((raw_transition_iff key).0 (db', h)).1))
          | inr other ↦ rw other
        ])
    where
      has_to :
          (o : Option ProposalManifest)
          → state_of o ≡ some from
          → state_of (with_state to o) ≡ some to
      has_to none e = cc
      has_to (some m) e = refl

-- The new proposal is found, and those before it stay.
pub get_proposal-append :
    (t : String) (db : KernelDatabase) (row : ProposalRow)
    → row_at row.task_id db.proposals ≡ none
    → get_proposal t (record db { proposals = db.proposals ++ row ∷ [] })
      ≡ (if row.task_id == t then some (manifest_of_row row) else get_proposal t db)
unfolding get_proposal
get_proposal-append t db row free =
    ground (arith, select_one-snoc (has_task t) db.proposals row, eq_iff row.task_id t, free)

pub row_at-none_of_state :
    (t : String) (db : KernelDatabase)
    → get_proposal_state t db ≡ none
    → row_at t db.proposals ≡ none
unfolding get_proposal_state
row_at-none_of_state t db h = ground (arith, h)
