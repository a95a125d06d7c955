-- ===== src/Kernel/Transition/Verdicts.antt =====
-- When the engine accepts, and what a denial and an acceptance do to the engine.
use shadows.Prelude.{
  if◌then◌else◌, Bool-cases, and_left, and_right, eq_false, ◌==◌, number_eq, text_eq, eqb_refl,
  contains, ℕ, String, ◌≡◌, refl, ◌∙◌, ◌≢◌, ◌⊎◌, inl, inr, Bool, true, false, not, ◌&&◌, some, ◌∷◌,
}
use shadows.Outcome.{Result, raise, ok, or_else}
use shadows.Epistemic.Status.{
  EpistemicDisposition, semantic_binding_deficit, insufficient_evidence, unresolved, origin_eq,
  status_eq,
}
use shadows.Kernel.State.{state_eq, is_legal}
use shadows.Kernel.Records.{KernelDatabase}
use shadows.Kernel.Database.{
  get_proposal_state, raw_transition_proposal_state, execute_privileged_state_transition,
}
use shadows.Kernel.Authority.{Tcb, verify}
use shadows.Kernel.Transition.{
  TransitionRequest, Engine, is_accepted, claim_of, illegal_reason, replay_reason,
  governance_reason, witness_reason, deny, commit, execute_transition,
}
use shadows.Kernel.Database.Rows.{HasKey}
use shadows.Kernel.Database.Transitions.{raw_transition_iff, raw_transition_state}

module _ (tcb : Tcb) (gov token : String) (now : ℕ) (r : TransitionRequest) (e : Engine) where
  -- The four guards of `execute_transition`.
  abbrev pub passes_guards : Bool
  passes_guards =
      is_legal r.from_state r.to_state
      && (not (contains r.witness.witness_id e.spent_witness_ids)
          && ((r.governance_hash == gov)
              && verify tcb r.witness (claim_of tcb r) r.authority_scope))

  abbrev legal : Bool
  legal = is_legal r.from_state r.to_state

  abbrev replayed : Bool
  replayed = contains r.witness.witness_id e.spent_witness_ids

  abbrev governed : Bool
  governed = r.governance_hash == gov

  abbrev witnessed : Bool
  witnessed = verify tcb r.witness (claim_of tcb r) r.authority_scope

  -- The verdict by the outcome of the guards, in the order of the code.
  pub verdict_cases :
      (passes_guards ≡ true)
        × (execute_transition tcb gov token now r e ≡ commit tcb gov token now r e)
      ⊎ (passes_guards ≡ false)
        × ((reason : String) × (d : EpistemicDisposition) × (execute_transition tcb gov token now r
                e
              ≡ deny tcb gov token r reason d e))
  unfolding execute_transition
  verdict_cases = elim (Bool-cases legal) [
    | inr p ↦ inr (rw p, (illegal_reason r, semantic_binding_deficit, rw p))
    | inl p ↦ elim (Bool-cases replayed) [
      | inl q ↦ inr (rw (p, q), (replay_reason r, insufficient_evidence, rw (p, q)))
      | inr q ↦ elim (Bool-cases governed) [
        | inr g ↦ inr (rw (p, q, g), (governance_reason, semantic_binding_deficit, rw (p, q, g)))
        | inl g ↦ elim (Bool-cases witnessed) [
          | inr w ↦ inr (rw (p, q, g, w), (witness_reason, unresolved, rw (p, q, g, w)))
          | inl w ↦ inl (rw (p, q, g, w), rw (p, q, g, w))
        ]
      ]
    ]
  ]

  -- The engine accepts a request exactly if the transition is legal, the witness is not spent,
  -- the governance digest is the current one, and the witness passes for the digest and the
  -- scope of the claim.
  pub accepts-eq-passes : is_accepted (execute_transition tcb gov token now r e).0 ≡ passes_guards
  accepts-eq-passes = elim verdict_cases [
    | inl (p, q) ↦ rw (p, q)
    | inr (p, (reason, d, q)) ↦ rw (p, q)
  ]

  -- A denial leaves the database and the spent witnesses as they were.
  pub denial_changes_nothing :
      passes_guards ≡ false
      → ((execute_transition tcb gov token now r e).1.kernel_db ≡ e.kernel_db)
        × ((execute_transition tcb gov token now r e).1.spent_witness_ids ≡ e.spent_witness_ids)
  denial_changes_nothing h = elim verdict_cases [
    | inl (p, q) ↦ cc (h, p)
    | inr (p, (reason, d, q)) ↦ rw q (refl, refl)
  ]

  -- An acceptance spends the witness, and hands the database the transition; what the database
  -- raises is dropped.
  pub acceptance_effect :
      passes_guards ≡ true
      → ((execute_transition tcb gov token now r e).1.kernel_db
          ≡ or_else
              (raw_transition_proposal_state now r.task_id r.from_state r.to_state e.kernel_db)
              e.kernel_db)
        × ((execute_transition tcb gov token now r e).1.spent_witness_ids
            ≡ r.witness.witness_id ∷ e.spent_witness_ids)
  unfolding execute_privileged_state_transition
  acceptance_effect h = elim verdict_cases [
    | inl (p, q) ↦ rw (q, eqb_refl token) (refl, refl)
    | inr (p, (reason, d, q)) ↦ cc (h, p)
  ]

  -- In a database with one row for a task, an accepted request whose proposal stands in
  -- `from_state` moves it to `to_state`, and no other proposal.
  pub accepted_moves :
      HasKey e.kernel_db.proposals
      → passes_guards ≡ true
      → get_proposal_state r.task_id e.kernel_db ≡ some r.from_state
      → (j : String)
      → get_proposal_state j (execute_transition tcb gov token now r e).1.kernel_db
        ≡ (if r.task_id == j then some r.to_state else get_proposal_state j e.kernel_db)
  accepted_moves key h at_from j =
      let legal_step = and_left _ _ h in
      let (db', done) =
        (raw_transition_iff now r.task_id r.from_state r.to_state e.kernel_db key).1
          (legal_step, at_from) in
      rw ((acceptance_effect h).0, done)
        (raw_transition_state now r.task_id r.from_state r.to_state e.kernel_db db' key done j)

  -- In a database with one row for a task, a request that passes the guards but whose proposal
  -- does not stand in `from_state` is accepted and leaves the database as it was: the caller
  -- holds a receipt for a transition that did not happen.
  pub accepted_stale :
      HasKey e.kernel_db.proposals
      → passes_guards ≡ true
      → get_proposal_state r.task_id e.kernel_db ≢ some r.from_state
      → (is_accepted (execute_transition tcb gov token now r e).0 ≡ true)
        × ((execute_transition tcb gov token now r e).1.kernel_db ≡ e.kernel_db)
  accepted_stale key h elsewhere = (
    accepts-eq-passes ∙ h,
    (acceptance_effect h).0
        ∙ dropped (raw_transition_proposal_state now r.task_id r.from_state r.to_state e.kernel_db)
            refl,
  )
    where
      dropped :
          (m : Result KernelDatabase)
          → raw_transition_proposal_state now r.task_id r.from_state r.to_state e.kernel_db ≡ m
          → or_else m e.kernel_db ≡ e.kernel_db
      dropped (raise _) done = refl
      dropped (ok db') done = absurd (
          elsewhere
            ((raw_transition_iff now r.task_id r.from_state r.to_state e.kernel_db key).0
              (db', done)).1)

  pub accepted_commit :
      passes_guards ≡ true → execute_transition tcb gov token now r e ≡ commit tcb gov token now r e
  accepted_commit h = elim verdict_cases [ inl (p, q) ↦ q | inr (p, (reason, d, q)) ↦ cc (h, p) ]

  pub passes-fresh :
      passes_guards ≡ true → contains r.witness.witness_id e.spent_witness_ids ≡ false
  passes-fresh h = eq_false replayed (and_left _ _ (and_right legal _ h))
