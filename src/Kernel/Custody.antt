-- ===== src/Kernel/Custody.antt =====
-- What every sequence of calls on the kernel database keeps of a sealed proposal.
use shadows.Prelude.{
  if◌then◌else◌, Bool-cases, some_injective, ◌==◌, number_eq, text_eq, select_one-snoc, ℕ, String,
  ◌≡◌, refl, sym, ap, ◌∙◌, subst, inl, inr, true, Option, none, some, List, [], ◌∷◌, ◌++◌, arith,
  eq_iff,
}
use shadows.Outcome.{Result, raise, ok, ◌>>=◌, or_else, ok_injective, guard-ok, bind-ok}
use shadows.Kernel.Ledger.{
  record_verified_receipt, record_strike, record_quarantine_entry, record_promotion_wal_step,
}
use shadows.Kernel.Database.Transitions.{
  with_state, state_of, get_proposal_state-eq_state_of, raw_transition_effect, raw_transition_iff,
}
use shadows.Kernel.State.{State, post_promotion_verified, state_eq, is_legal}
use shadows.Kernel.Records.{ProposalManifest, VerificationReceipt, ProposalRow, KernelDatabase}
use shadows.Kernel.Database.{
  has_task, row_of_manifest, record_proposal, get_proposal, get_proposal_state,
  raw_transition_proposal_state, execute_privileged_state_transition, transition_proposal_state,
  update_state,
}
use shadows.Kernel.Database.Rows.{row_at, HasKey, HasKey-snoc, row_at-none}
use shadows.Kernel.Operations.{
  Operation, seal, transition, privileged, update, receipt, strike, quarantine, wal_step, perform,
  perform_all,
}

-- A path through LEGAL_STATE_TRANSITIONS.
pub data Lineage (a : State) : State → Type 0 where
  here : Lineage a a
  next : {b c : State} → Lineage a b → is_legal b c ≡ true → Lineage a c

Lineage-trans : {a b c : State} → Lineage a b → Lineage b c → Lineage a c
Lineage-trans p here = p
Lineage-trans p (next q h) = next (Lineage-trans p q) h

-- Nothing but the state has changed, and that along legal transitions.
pub record IsSuccessor (p q : ProposalManifest) : Type 0 where
  pub sealed : q ≡ record p { state = q.state }
  pub lineage : Lineage p.state q.state

IsSuccessor-refl : (p : ProposalManifest) → IsSuccessor p p
IsSuccessor-refl p = record { sealed = refl; lineage = here }

IsSuccessor-trans : (p q r : ProposalManifest) → IsSuccessor p q → IsSuccessor q r → IsSuccessor p r
IsSuccessor-trans p q r f g = record {
  sealed = g.sealed ∙ ap (λ (m : ProposalManifest). record m { state = r.state }) f.sealed;
  lineage = Lineage-trans f.lineage g.lineage;
}

-- Each proposal of `db` is in `db'`, as a successor of itself, and the primary key still holds.
pub record Continues (db db' : KernelDatabase) : Type 0 where
  pub key : HasKey db'.proposals
  pub kept :
      (t : String) (p : ProposalManifest)
      → get_proposal t db ≡ some p
      → (q : ProposalManifest) × (get_proposal t db' ≡ some q) × IsSuccessor p q

Continues-trans : {a b c : KernelDatabase} → Continues a b → Continues b c → Continues a c
Continues-trans f g = record {
  key = g.key;
  kept = λ t p h.
      let (q, at_b, pq) = f.kept t p h in
      let (r, at_c, qr) = g.kept t q at_b in (r, at_c, IsSuccessor-trans p q r pq qr);
}

Continues-same :
    (db db' : KernelDatabase)
    → HasKey db.proposals
    → db.proposals ≡ db'.proposals
    → Continues db db'
unfolding get_proposal
Continues-same db db' key e = record {
  key = rw e at key;
  kept = λ t p h. (p, rw e at h, IsSuccessor-refl p);
}

Continues-raw :
    (now : ℕ) (t : String) (from to : State) (db db' : KernelDatabase)
    → HasKey db.proposals
    → raw_transition_proposal_state now t from to db ≡ ok db'
    → Continues db db'
Continues-raw now t from to db db' key h = record {
  key = (raw_transition_effect now t from to db db' key h).0;
  kept = λ j p here_at. elim (Bool-cases (t == j)) [
    | inl same ↦ (
      record p { state = to },
      rw (effect j, same, here_at),
      record { sealed = refl; lineage = next here (legal j p same here_at) },
    )
    | inr other ↦ (p, rw (effect j, other) here_at, IsSuccessor-refl p)
  ];
}
  where
    effect :
        (j : String)
        → get_proposal j db'
          ≡ (if t == j then with_state to (get_proposal j db) else get_proposal j db)
    effect = (raw_transition_effect now t from to db db' key h).1

    legal :
        (j : String) (p : ProposalManifest)
        → (t == j) ≡ true
        → get_proposal j db ≡ some p
        → is_legal p.state to ≡ true
    legal j p same here_at =
        let (ok_step, at_from) = (raw_transition_iff now t from to db key).0 (db', h) in
        let at_p : some p.state ≡ some from =
          ap state_of (sym here_at)
          ∙ sym (get_proposal_state-eq_state_of j db)
          ∙ subst (λ k. get_proposal_state k db ≡ some from) ((eq_iff t j).0 same) at_from in
        subst (λ s. is_legal s to ≡ true) (sym (some_injective at_p)) ok_step

Continues-append :
    (db : KernelDatabase) (row : ProposalRow)
    → HasKey db.proposals
    → row_at row.task_id db.proposals ≡ none
    → Continues db (record db { proposals = db.proposals ++ row ∷ [] })
unfolding get_proposal
Continues-append db row key free = record {
  key = HasKey-snoc db.proposals row key free;
  kept = λ t p h.
      (p, ground (arith, select_one-snoc (has_task t) db.proposals row, h), IsSuccessor-refl p);
}

Continues-seal :
    (now : ℕ) (m : ProposalManifest) (db db' : KernelDatabase)
    → HasKey db.proposals
    → record_proposal now m db ≡ ok db'
    → Continues db db'
unfolding record_proposal
Continues-seal now m db db' key h =
    let (free, done) = guard-ok _ _ _ db' h in
    let e = ok_injective done in
    subst (Continues db) e
      (Continues-append db (row_of_manifest now m) key (row_at-none m.task_id db.proposals free))

Continues-update :
    (now : ℕ) (t : String) (to : State) (db db' : KernelDatabase)
    → HasKey db.proposals
    → update_state now t to db ≡ ok db'
    → Continues db db'
unfolding update_state transition_proposal_state
Continues-update now t to db db' key h = split (get_proposal_state t db) refl
  where
    split : (o : Option State) → get_proposal_state t db ≡ o → Continues db db'
    split none e = cc (h, e)
    split (some from) e =
        Continues-raw now t from to db db' key (guard-ok _ _ _ db' (rw (e, update_state) at h)).1

pub proposals-receipt :
    (now : ℕ) (r : VerificationReceipt) (db db' : KernelDatabase)
    → (record_verified_receipt now r db >>= λ written. ok written.1) ≡ ok db'
    → db.proposals ≡ db'.proposals
unfolding record_verified_receipt
proposals-receipt now r db db' h =
    let (written, stored, same) = bind-ok (record_verified_receipt now r db) _ db' h in
    let (_, done) = guard-ok _ _ _ written stored in
    ap (λ (w : ℕ × KernelDatabase). w.1.proposals) (ok_injective done)
    ∙ ap (λ (d : KernelDatabase). d.proposals) (ok_injective same)

pub perform-Continues :
    (token : String) (op : Operation) (db db' : KernelDatabase)
    → HasKey db.proposals
    → perform token op db ≡ ok db'
    → Continues db db'
unfolding perform transition_proposal_state execute_privileged_state_transition update_state
    record_verified_receipt record_strike record_quarantine_entry record_promotion_wal_step
perform-Continues token (seal now m) db db' key h = Continues-seal now m db db' key h
perform-Continues token (transition now t from to) db db' key h =
    Continues-raw now t from to db db' key (guard-ok _ _ _ db' h).1
perform-Continues token (privileged auth now t from to) db db' key h =
    Continues-raw now t from to db db' key (guard-ok _ _ _ db' h).1
perform-Continues token (update now t to) db db' key h = Continues-update now t to db db' key h
perform-Continues token (receipt now r) db db' key h =
    Continues-same db db' key (proposals-receipt now r db db' h)
perform-Continues token (strike now t c signature) db db' key h =
    Continues-same db db' key (ap (λ (d : KernelDatabase). d.proposals) (ok_injective h))
perform-Continues token (quarantine r) db db' key h =
    Continues-same db db' key (ap (λ (d : KernelDatabase). d.proposals) (ok_injective h))
perform-Continues token (wal_step now t branch sha s) db db' key h =
    Continues-same db db' key (ap (λ (d : KernelDatabase). d.proposals) (ok_injective h))

pub perform_all-Continues :
    (token : String) (ops : List Operation) (db : KernelDatabase)
    → HasKey db.proposals
    → Continues db (perform_all token ops db)
unfolding perform_all
perform_all-Continues token [] db key = Continues-same db db key refl
perform_all-Continues token (op ∷ ops) db key =
    step (λ d. perform_all-Continues token ops d) (perform token op db) refl
  where
    step :
        ((d : KernelDatabase) → HasKey d.proposals → Continues d (perform_all token ops d))
        → (r : Result KernelDatabase) → perform token op db ≡ r
        → Continues db (perform_all token ops (or_else r db))
    step later (raise e) h = later db key
    step later (ok db') h =
        let first = perform-Continues token op db db' key h in
        Continues-trans first (later db' first.key)

-- In a database with one row for a task, whatever calls follow, a sealed proposal stays, keeps
-- all its fields but the state, and its state moves along legal transitions only.
pub perform_all-IsSuccessor :
    (token : String) (ops : List Operation) (db : KernelDatabase) (t : String)
    (p : ProposalManifest)
    → HasKey db.proposals
    → get_proposal t db ≡ some p
    → (q : ProposalManifest) × (get_proposal t (perform_all token ops db) ≡ some q)
      × IsSuccessor p q
perform_all-IsSuccessor token ops db t p key here_at =
    (perform_all-Continues token ops db key).kept t p here_at

Lineage-terminal : {a b : State} → Lineage a b → a ≡ post_promotion_verified → b ≡ a
Lineage-terminal here e = refl
Lineage-terminal (next {b} {c} p h) e =
    let at_end = Lineage-terminal p e ∙ e in cc (subst (λ s. is_legal s c ≡ true) at_end h)

-- In a database with one row for a task, a proposal that has reached POST_PROMOTION_VERIFIED is
-- never changed again, whatever calls follow.
pub perform_all-terminal :
    (token : String) (ops : List Operation) (db : KernelDatabase) (t : String)
    (p : ProposalManifest)
    → HasKey db.proposals
    → get_proposal t db ≡ some p
    → p.state ≡ post_promotion_verified
    → get_proposal t (perform_all token ops db) ≡ some p
perform_all-terminal token ops db t p key at_t done =
    let (q, at_end, step) = (perform_all-Continues token ops db key).kept t p at_t in
    let same = Lineage-terminal step.lineage done in
    at_end ∙ ap some (step.sealed ∙ ap (λ s. record p { state = s }) same)
