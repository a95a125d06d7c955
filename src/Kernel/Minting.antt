-- ===== src/Kernel/Minting.antt =====
-- What a client that does not hold the token of the transition engine can do with the states.
use shadows.Prelude.{
  if◌then◌else◌, some_injective, eq_false, All, ◌==◌, number_eq, text_eq, eqb_refl, ℕ, String, ◌≡◌,
  refl, sym, ap, ◌∙◌, subst, Bool, true, false, not, Option, none, some, List, [], ◌∷◌, ◌++◌,
}
use shadows.Outcome.{
  privileged_state_mutation_prohibited, Result, raise, ok, or_else, ok_injective, guard-ok,
}
use shadows.Kernel.Custody.{proposals-receipt, perform-Continues}
use shadows.Kernel.Ledger.{record_strike, record_quarantine_entry, record_promotion_wal_step}
use shadows.Kernel.Database.Transitions.{
  state_of, get_proposal_state-eq_state_of, raw_transition_state, get_proposal-append,
  row_at-none_of_state,
}
use shadows.Kernel.State.{State, state_eq, is_privileged}
use shadows.Kernel.Records.{ProposalManifest, KernelDatabase}
use shadows.Kernel.Database.{
  row_of_manifest, manifest_of_row, record_proposal, get_proposal, get_proposal_state,
  raw_transition_proposal_state, execute_privileged_state_transition, transition_proposal_state,
  update_state,
}
use shadows.Kernel.Database.Rows.{HasKey, row_at-none, count-zero}
use shadows.Kernel.Operations.{
  Operation, seal, transition, privileged, update, receipt, strike, quarantine, wal_step, perform,
  perform_all,
}

-- The call carries no valid token, and seals no manifest that is in a privileged state already.
abbrev pub is_unprivileged : String → Operation → Bool
is_unprivileged token (privileged auth _ _ _ _) = not (auth == token)
is_unprivileged token (seal _ m) = not (is_privileged m.state)
is_unprivileged token _ = true

abbrev pub AllUnprivileged : String → List Operation → Type 0
AllUnprivileged token ops = All (λ op. is_unprivileged token op ≡ true) ops

-- A privileged state of `db'` was there in `db`.
abbrev MintsNothing : KernelDatabase → KernelDatabase → Type 0
MintsNothing db db' =
    (t : String) (s : State)
    → is_privileged s ≡ true
    → get_proposal_state t db' ≡ some s
    → get_proposal_state t db ≡ some s

not-raw :
    (now : ℕ) (t : String) (from to : State) (db db' : KernelDatabase)
    → is_privileged to ≡ false
    → HasKey db.proposals
    → raw_transition_proposal_state now t from to db ≡ ok db'
    → MintsNothing db db'
not-raw now t from to db db' plain key h j s priv at_j = split (t == j) refl
  where
    at_j' : (if t == j then some to else get_proposal_state j db) ≡ some s
    at_j' = sym (raw_transition_state now t from to db db' key h j) ∙ at_j

    split : (b : Bool) → (t == j) ≡ b → get_proposal_state j db ≡ some s
    split true e =
        cc (plain, subst (λ x. is_privileged x ≡ true) (sym (some_injective (rw e at at_j'))) priv)
    split false e = rw e at at_j'

not-seal :
    (now : ℕ) (m : ProposalManifest) (db db' : KernelDatabase)
    → is_privileged m.state ≡ false
    → record_proposal now m db ≡ ok db'
    → MintsNothing db db'
unfolding record_proposal
not-seal now m db db' plain h j s priv at_j =
    let (free, done) = guard-ok _ _ _ db' h in
    split (m.task_id == j) refl (
      rw
        (
          ← ok_injective done,
          get_proposal_state-eq_state_of,
          get_proposal-append j db (row_of_manifest now m)
              (row_at-none m.task_id db.proposals free),
        )
        at at_j)
  where
    split :
        (b : Bool)
        → (m.task_id == j) ≡ b
        → state_of (
            if m.task_id == j
            then some (manifest_of_row (row_of_manifest now m))
            else get_proposal j db)
          ≡ some s
        → get_proposal_state j db ≡ some s
    split true e at_end =
        cc (plain, subst (λ x. is_privileged x ≡ true) (sym (some_injective (rw e at at_end))) priv)
    split false e at_end = get_proposal_state-eq_state_of j db ∙ rw e at at_end

MintsNothing-same : (db db' : KernelDatabase) → db.proposals ≡ db'.proposals → MintsNothing db db'
unfolding get_proposal_state
MintsNothing-same db db' e j s priv at_j = rw e at_j

not-public :
    (now : ℕ) (t : String) (from to : State) (db db' : KernelDatabase)
    → HasKey db.proposals
    → transition_proposal_state now t from to db ≡ ok db'
    → MintsNothing db db'
unfolding transition_proposal_state
not-public now t from to db db' key h =
    let (plain, step) = guard-ok _ _ _ db' h in
    not-raw now t from to db db' (eq_false _ plain) key step

not-update :
    (now : ℕ) (t : String) (to : State) (db db' : KernelDatabase)
    → HasKey db.proposals
    → update_state now t to db ≡ ok db'
    → MintsNothing db db'
unfolding update_state
not-update now t to db db' key h = split (get_proposal_state t db) refl
  where
    split : (o : Option State) → get_proposal_state t db ≡ o → MintsNothing db db'
    split none e = cc (h, e)
    split (some from) e = not-public now t from to db db' key (rw (e, update_state) at h)

perform-MintsNothing :
    (token : String) (op : Operation) (db db' : KernelDatabase)
    → HasKey db.proposals
    → is_unprivileged token op ≡ true
    → perform token op db ≡ ok db'
    → MintsNothing db db'
unfolding perform execute_privileged_state_transition record_strike record_quarantine_entry
    record_promotion_wal_step
perform-MintsNothing token (seal now m) db db' key u h = not-seal now m db db' (eq_false _ u) h
perform-MintsNothing token (transition now t from to) db db' key u h =
    not-public now t from to db db' key h
perform-MintsNothing token (privileged auth now t from to) db db' key u h = cc (
  (guard-ok (auth == token) privileged_state_mutation_prohibited
      (raw_transition_proposal_state now t from to db) db' h).0,
  eq_false (auth == token) u,
)
perform-MintsNothing token (update now t to) db db' key u h = not-update now t to db db' key h
perform-MintsNothing token (receipt now r) db db' key u h =
    MintsNothing-same db db' (proposals-receipt now r db db' h)
perform-MintsNothing token (strike now t c signature) db db' key u h =
    MintsNothing-same db db' (ap (λ (d : KernelDatabase). d.proposals) (ok_injective h))
perform-MintsNothing token (quarantine r) db db' key u h =
    MintsNothing-same db db' (ap (λ (d : KernelDatabase). d.proposals) (ok_injective h))
perform-MintsNothing token (wal_step now t branch sha s) db db' key u h =
    MintsNothing-same db db' (ap (λ (d : KernelDatabase). d.proposals) (ok_injective h))

-- From a database with one row for a task, a client that never shows the token and seals no
-- manifest in a privileged state brings no proposal into a privileged state: one that is in such
-- a state after its calls was in that very state before them.
pub perform_all-MintsNothing :
    (token : String) (ops : List Operation) (db : KernelDatabase)
    → HasKey db.proposals
    → AllUnprivileged token ops
    → (t : String) (s : State) → is_privileged s ≡ true
    → get_proposal_state t (perform_all token ops db) ≡ some s
    → get_proposal_state t db ≡ some s
unfolding perform_all
perform_all-MintsNothing token [] db key u t s priv at_end = at_end
perform_all-MintsNothing token (op ∷ ops) db key u t s priv at_end =
    step (λ d k. perform_all-MintsNothing token ops d k u.1 t s priv) (perform token op db) refl
      at_end
  where
    step :
        ((d : KernelDatabase)
          → HasKey d.proposals
          → get_proposal_state t (perform_all token ops d) ≡ some s
          → get_proposal_state t d ≡ some s)
        → (r : Result KernelDatabase) → perform token op db ≡ r
        → get_proposal_state t (perform_all token ops (or_else r db)) ≡ some s
        → get_proposal_state t db ≡ some s
    step later (raise e) h last = later db key last
    step later (ok db') h last =
        perform-MintsNothing token op db db' key u.0 h t s priv
          (later db' (perform-Continues token op db db' key h).key last)

-- Sealing a manifest for a new task stores it in whatever state it claims, a privileged one too.
pub record_proposal_state :
    (now : ℕ) (m : ProposalManifest) (db : KernelDatabase)
    → get_proposal_state m.task_id db ≡ none
    → (db' : KernelDatabase) × (record_proposal now m db ≡ ok db')
      × (get_proposal_state m.task_id db' ≡ some m.state)
unfolding record_proposal
record_proposal_state now m db absent =
    let free = row_at-none_of_state m.task_id db absent in
    (
      record db { proposals = db.proposals ++ row_of_manifest now m ∷ [] },
      rw (count-zero m.task_id db.proposals free),
      rw (
        get_proposal_state-eq_state_of,
        get_proposal-append m.task_id db (row_of_manifest now m) free,
        eqb_refl m.task_id,
      ),
    )
