-- ===== src/Kernel/Transition/Replay.antt =====
-- No witness serves twice.
use shadows.Prelude.{
  Bool-cases, ◌==◌, number_eq, text_eq, contains, count_where, ℕ, ◌≤◌, String, ◌≡◌, refl, inl, inr,
  Bool, true, false, ◌||◌, List, [], ◌∷◌, arith, eq_iff,
}
use shadows.Kernel.State.{state_eq}
use shadows.Kernel.Authority.{Tcb}
use shadows.Kernel.Transition.{
  TransitionRequest, Verdict, accepted, denied, Engine, execute_transition,
}
use shadows.Kernel.Transition.Verdicts.{verdict_cases, passes-fresh}

-- The verdict is an acceptance that spent this witness.
abbrev pub is_spending : String → Verdict → Bool
is_spending witness_id (accepted receipt) = receipt.witness_id == witness_id
is_spending witness_id (denied _) = false

spent_differs :
    (w id : String) (spent : List String)
    → contains w spent ≡ true
    → contains id spent ≡ false
    → (id == w) ≡ false
spent_differs w id spent h fresh = elim (Bool-cases (id == w)) [
  | inl same ↦ cc (h, rw ((eq_iff id w).0 same) at fresh)
  | inr other ↦ other
]

or_right : (a b : Bool) → b ≡ true → (a || b) ≡ true
or_right a b h = ground arith

contains_head :
    (w id : String) (spent : List String) → (id == w) ≡ true → contains w (id ∷ spent) ≡ true
contains_head w id spent h = ground (arith, eq_iff id w, eq_iff w id)

module _ (tcb : Tcb) (gov token : String) where
  -- Requests that come one after the other, each at its time, from whatever callers.
  unfoldable pub submit_all : List (ℕ × TransitionRequest) → Engine → List Verdict
  submit_all [] e = []
  submit_all ((now, r) ∷ rest) e =
      let (verdict, e') = execute_transition tcb gov token now r e in verdict ∷ submit_all rest e'

  -- A spent witness stays spent, and is accepted no more.
  spent_step :
      (w : String) (now : ℕ) (r : TransitionRequest) (e : Engine)
      → contains w e.spent_witness_ids ≡ true
      → (is_spending w (execute_transition tcb gov token now r e).0 ≡ false)
        × (contains w (execute_transition tcb gov token now r e).1.spent_witness_ids ≡ true)
  spent_step w now r e h = elim (verdict_cases tcb gov token now r e) [
    | inl (p, q) ↦
        let fresh = passes-fresh tcb gov token now r e p in
        rw q (
          spent_differs w r.witness.witness_id e.spent_witness_ids h fresh,
          or_right (w == r.witness.witness_id) _ h,
        )
    | inr (p, (reason, d, q)) ↦ rw q (refl, h)
  ]

  -- An acceptance that spends `w` leaves it spent.
  fresh_step :
      (w : String) (now : ℕ) (r : TransitionRequest) (e : Engine)
      → is_spending w (execute_transition tcb gov token now r e).0 ≡ true
      → contains w (execute_transition tcb gov token now r e).1.spent_witness_ids ≡ true
  fresh_step w now r e h = elim (verdict_cases tcb gov token now r e) [
    | inl (p, q) ↦ rw q (contains_head w r.witness.witness_id e.spent_witness_ids (rw q at h))
    | inr (p, (reason, d, q)) ↦ cc (rw q at h)
  ]

  none-spending :
      (w : String) (requests : List (ℕ × TransitionRequest)) (e : Engine)
      → contains w e.spent_witness_ids ≡ true
      → count_where (is_spending w) (submit_all requests e) ≡ 0
  unfolding submit_all
  none-spending w [] e h = refl
  none-spending w ((now, r) ∷ rest) e h =
      let (not_now, spent) = spent_step w now r e h in
      rw (not_now, none-spending w rest (execute_transition tcb gov token now r e).1 spent) refl

  -- Whatever requests are submitted one after the other, at most one acceptance spends a given
  -- witness.
  pub replay_bound :
      (w : String) (requests : List (ℕ × TransitionRequest)) (e : Engine)
      → count_where (is_spending w) (submit_all requests e) ≤ 1
  unfolding submit_all
  replay_bound w [] e = omega arith
  replay_bound w ((now, r) ∷ rest) e =
      let step = execute_transition tcb gov token now r e in
      elim (Bool-cases (is_spending w step.0)) [
        | inl spends ↦
            rw (spends, none-spending w rest step.1 (fresh_step w now r e spends)) (omega arith)
        | inr other ↦ rw other (omega (arith, replay_bound w rest step.1))
      ]
