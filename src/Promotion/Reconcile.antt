-- ===== src/Promotion/Reconcile.antt =====
-- `reconcile_interrupted_promotions` (loop_engine/promoter.py), while nothing else moves the
-- repository. What the loop does to each proposal is stated by `reconciled`.
use shadows.Prelude.{
  if◌then◌else◌, Bool-cases, ◌==◌, number_eq, text_eq, eqb_refl, select, select_one, kept_by,
  select_one-select, Once-select, ℕ, String, ◌≡◌, refl, sym, ap, ◌∙◌, inl, inr, true, not, Option,
  none, some, List, [], ◌∷◌,
}
use shadows.Outcome.{Result, ok, ◌>>=◌}
use shadows.Kernel.State.{
  State, verified, promotion_pending, post_promotion_verified, state_eq, is_legal,
}
use shadows.Kernel.Records.{ProposalManifest, ProposalRow, KernelDatabase}
use shadows.Kernel.Database.{
  has_task, manifest_of_row, get_proposal, get_proposal_state, raw_transition_proposal_state,
}
use shadows.Kernel.Database.Rows.{row_at, HasKey}
use shadows.Kernel.Database.Transitions.{
  with_state, state_of, get_proposal_state-eq_state_of, raw_transition_effect, raw_transition_iff,
  raw_transition_state,
}
use shadows.Kernel.Ledger.{is_pending, get_pending_promotions}
use shadows.Promotion.{Repository}

abbrev manifest? : Option ProposalRow → Option ProposalManifest
manifest? o = elim o [ none ↦ none | some row ↦ some (manifest_of_row row) ]

module _ (repo : Repository) where
  -- A pending proposal is settled by whether its commit is in the target branch; without a head
  -- of that branch it stays, as do the others.
  abbrev pub settled_state : ProposalManifest → State
  settled_state m = elim repo.target_head [
    | none ↦ m.state
    | some head ↦
        if not (m.state == promotion_pending)
        then m.state
        else if repo.is_ancestor m.candidate_commit_sha head
        then post_promotion_verified
        else verified
  ]

  abbrev pub reconciled : Option ProposalManifest → Option ProposalManifest
  reconciled none = none
  reconciled (some m) = some (record m { state = settled_state m })

-- `if is_ancestor: ... else: ...`, the state that a pending proposal is moved to
module _ (repo : Repository) where
  abbrev pub landing : String → String → State
  landing head candidate_commit_sha =
      if repo.is_ancestor candidate_commit_sha head then post_promotion_verified else verified

module _ (repo : Repository) (now : ℕ) where
  abbrev pub reconcile_row : ProposalRow → KernelDatabase → Result KernelDatabase
  reconcile_row prop db = elim repo.target_head [
    | none ↦ ok db
    | some head ↦
        raw_transition_proposal_state now prop.task_id promotion_pending
          (landing repo head prop.candidate_commit_sha) db
  ]

  unfoldable pub reconcile_rows : List ProposalRow → KernelDatabase → Result KernelDatabase
  reconcile_rows [] db = ok db
  reconcile_rows (prop ∷ pending) db = do db' ← reconcile_row prop db; reconcile_rows pending db'

  unfoldable pub reconcile_interrupted_promotions : KernelDatabase → Result KernelDatabase
  reconcile_interrupted_promotions db = reconcile_rows (get_pending_promotions db) db

  headless :
      (pending : List ProposalRow) (db : KernelDatabase)
      → repo.target_head ≡ none
      → reconcile_rows pending db ≡ ok db
  unfolding reconcile_rows
  headless [] db h = refl
  headless (prop ∷ pending) db h = rw h (headless pending db h)

  module _ (head : String) where
    abbrev landed_row : Option ProposalRow → Option ProposalManifest → Option ProposalManifest
    landed_row none o = o
    landed_row (some row) o = with_state (landing repo head row.candidate_commit_sha) o

    -- Each row that is still to come is what the database holds for its task, and is pending.
    record AreStanding (pending : List ProposalRow) (db : KernelDatabase) : Type 0 where
      key : HasKey db.proposals
      one_each : HasKey pending
      standing :
          (t : String) (row : ProposalRow)
          → select_one (has_task t) pending ≡ some row
          → get_proposal_state t db ≡ some promotion_pending

    landing-legal : (sha : String) → is_legal promotion_pending (landing repo head sha) ≡ true
    landing-legal sha = elim (Bool-cases (repo.is_ancestor sha head)) [
      | inl inside ↦ rw inside
      | inr outside ↦ rw outside
    ]

    AreStanding-tail :
        (prop : ProposalRow) (pending : List ProposalRow) (db db' : KernelDatabase)
        → AreStanding (prop ∷ pending) db
        → raw_transition_proposal_state now prop.task_id promotion_pending
            (landing repo head prop.candidate_commit_sha)
            db
          ≡ ok db'
        → AreStanding pending db'
    AreStanding-tail prop pending db db' all done = record {
      key = (raw_transition_effect now prop.task_id _ _ db db' all.key done).0;
      one_each = λ j. (all.one_each j).1;
      standing = λ t row e.
          raw_transition_state now prop.task_id _ _ db db' all.key done t
          ∙ (elim (Bool-cases (prop.task_id == t)) [
            | inl same ↦ cc (e, (all.one_each t).0 same)
            | inr other ↦ rw other (all.standing t row (rw other e))
          ]);
    }

    reconcile_rows-cons :
        (prop : ProposalRow) (pending : List ProposalRow) (db db₁ db' : KernelDatabase)
        → repo.target_head ≡ some head
        → raw_transition_proposal_state now prop.task_id promotion_pending
            (landing repo head prop.candidate_commit_sha)
            db
          ≡ ok db₁
        → reconcile_rows pending db₁ ≡ ok db'
        → reconcile_rows (prop ∷ pending) db ≡ ok db'
    unfolding reconcile_rows
    reconcile_rows-cons prop pending db db₁ db' h done rest = rw (h, done) rest

    reconcile_rows-lands :
        (pending : List ProposalRow) (db : KernelDatabase)
        → repo.target_head ≡ some head
        → AreStanding pending db
        → (db' : KernelDatabase) × (reconcile_rows pending db ≡ ok db')
          × ((j : String)
              → get_proposal j db'
                ≡ landed_row (select_one (has_task j) pending) (get_proposal j db))
    unfolding reconcile_rows
    reconcile_rows-lands [] db h all = (db, refl, λ j. refl)
    reconcile_rows-lands (prop ∷ pending) db h all =
        let at_pending = all.standing prop.task_id prop (rw (eqb_refl prop.task_id)) in
        let to = landing repo head prop.candidate_commit_sha in
        let (db₁, done) =
          (raw_transition_iff now prop.task_id promotion_pending to db all.key).1
            (landing-legal prop.candidate_commit_sha, at_pending) in
        let (db', rest, lands) =
          reconcile_rows-lands pending db₁ h (AreStanding-tail prop pending db db₁ all done) in
        let effect =
          (raw_transition_effect now prop.task_id promotion_pending to db db₁ all.key done).1 in
        (
          db',
          reconcile_rows-cons prop pending db db₁ db' h done rest,
          λ j. lands j ∙ (elim (Bool-cases (prop.task_id == j)) [
            | inl same ↦ rw (same, (all.one_each j).0 same, effect j, same)
            | inr other ↦ rw (other, effect j, other)
          ]),
        )

    pending_row :
        (o : Option ProposalRow) (row : ProposalRow)
        → kept_by is_pending o ≡ some row
        → state_of (manifest? o) ≡ some promotion_pending
    pending_row none row e = cc e
    pending_row (some r) row e = elim (Bool-cases (r.state == promotion_pending)) [
      | inl there ↦ ap some ((state_eq.eqb_iff r.state promotion_pending).0 there)
      | inr elsewhere ↦ cc (rw elsewhere at e)
    ]

    landed-reconciled :
        (o : Option ProposalRow)
        → repo.target_head ≡ some head
        → landed_row (kept_by is_pending o) (manifest? o) ≡ reconciled repo (manifest? o)
    landed-reconciled none h = refl
    landed-reconciled (some r) h = elim (Bool-cases (r.state == promotion_pending)) [
      | inl there ↦ rw (h, there)
      | inr elsewhere ↦ rw (h, elsewhere)
    ]

  unmoved : (o : Option ProposalManifest) → repo.target_head ≡ none → o ≡ reconciled repo o
  unmoved none h = refl
  unmoved (some m) h = rw h

  -- On a database with one row for a task the reconciliation never raises: a pending proposal
  -- ends POST_PROMOTION_VERIFIED if its commit is an ancestor of the head of the target
  -- branch, and VERIFIED if not; without such a head it stays pending; every other proposal,
  -- and everything else of a pending one, stays.
  pub reconcile-reconciled :
      (db : KernelDatabase)
      → HasKey db.proposals
      → (db' : KernelDatabase) × (reconcile_interrupted_promotions db ≡ ok db')
        × ((j : String) → get_proposal j db' ≡ reconciled repo (get_proposal j db))
  unfolding reconcile_interrupted_promotions get_pending_promotions get_proposal
  reconcile-reconciled db key = split repo.target_head refl
    where
      pending : List ProposalRow
      pending = select is_pending db.proposals

      standing : (head : String) → AreStanding head pending db
      standing head = record {
        key = key;
        one_each = λ j. Once-select (has_task j) is_pending db.proposals (key j);
        standing = λ t row e.
            get_proposal_state-eq_state_of t db
            ∙ pending_row head (row_at t db.proposals) row
                (sym (select_one-select (has_task t) is_pending db.proposals (key t)) ∙ e);
      }

      split :
          (o : Option String)
          → repo.target_head ≡ o
          → (db' : KernelDatabase) × (reconcile_rows pending db ≡ ok db')
            × ((j : String) → get_proposal j db' ≡ reconciled repo (get_proposal j db))
      split none h = (db, headless pending db h, λ j. unmoved (get_proposal j db) h)
      split (some head) h =
          let (db', done, lands) = reconcile_rows-lands head pending db h (standing head) in
          (
            db',
            done,
            λ j.
                lands j
                ∙ rw (select_one-select (has_task j) is_pending db.proposals (key j))
                    (landed-reconciled head (row_at j db.proposals) h),
          )
