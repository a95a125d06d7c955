-- ===== src/Promotion/Steps.antt =====
-- Changes of one proposal's state, and the witnesses that are still to be drawn
-- (loop_engine/promoter.py).
use shadows.Prelude.{
  if◌then◌else◌, some_injective, ◌==◌, number_eq, text_eq, contains, concat, ℕ, ◌+◌, ◌≤◌, ◌<◌,
  String, ◌≡◌, refl, ap, ◌↔◌, Bool, true, false, Option, none, some, [], ◌∷◌, arith,
}
use shadows.Kernel.State.{State, state_eq}
use shadows.Kernel.Database.{get_proposal_state}
use shadows.Kernel.Database.Rows.{HasKey}
use shadows.Kernel.Ledger.{record_promotion_wal_step}
use shadows.Kernel.Authority.{Tcb}
use shadows.Kernel.Transition.{Engine}
use shadows.Promotion.{is_in, log_step}

-- The compare-and-set of one state.
abbrev pub advance : State → State → State → State
advance from to s = if s == from then to else s

abbrev pub on_some : (State → State) → Option State → Option State
on_some f none = none
on_some f (some s) = some (f s)

pub unmoved :
    (from to : State) (o : Option State) → is_in from o ≡ false → on_some (advance from to) o ≡ o
unmoved from to none h = refl
unmoved from to (some s) h = rw h

pub is_in_iff : (s : State) (o : Option State) → (is_in s o ≡ true) ↔ (o ≡ some s)
is_in_iff s none = ground arith
is_in_iff s (some a) =
    let same = state_eq.eqb_iff a s in (λ h. ap some (same.0 h), λ e. same.1 (some_injective e))

module _ (tcb : Tcb) where
  abbrev pub witness_name : ℕ → String
  witness_name k = concat ("wit_" ∷ tcb.token_hex k ∷ [])

  -- None of the witnesses that the next `count` tokens name is spent, and no two are the same.
  abbrev pub Fresh : ℕ → Engine → Type 0
  Fresh count e =
      (k : ℕ)
      → e.drawn ≤ k
      → k < e.drawn + count
      → (contains (witness_name k) e.spent_witness_ids ≡ false)
        × ((j : ℕ) → e.drawn ≤ j → j < k → (witness_name k == witness_name j) ≡ false)

  pub Fresh-fewer : (count : ℕ) (e : Engine) → Fresh (count + 2) e → Fresh count e
  Fresh-fewer count e fresh k later soon = fresh k later (omega (arith, soon))

  -- The state of the proposal of `t` has changed by `f`, and that of no other, and `count`
  -- tokens are still fresh.
  pub record Moves (count : ℕ) (t : String) (f : State → State) (e e' : Engine) : Type 0 where
    pub key : HasKey e'.kernel_db.proposals
    pub fresh : Fresh count e'
    pub at :
        (j : String)
        → get_proposal_state j e'.kernel_db ≡ (
            if t == j
            then on_some f (get_proposal_state j e.kernel_db)
            else get_proposal_state j e.kernel_db)

  pub Moves-trans :
      (count left : ℕ) (t : String) (f g : State → State) (a b c : Engine)
      → Moves count t f a b
      → Moves left t g b c
      → Moves left t (λ s. g (f s)) a c
  Moves-trans count left t f g a b c m n = record {
    key = n.key;
    fresh = n.fresh;
    at = λ j. rw (n.at j, m.at j) (composed (t == j) (get_proposal_state j a.kernel_db));
  }
    where
      composed :
          (b : Bool) (o : Option State)
          → (if b then on_some g (if b then on_some f o else o) else (if b then on_some f o else o))
            ≡ (if b then on_some (λ s. g (f s)) o else o)
      composed true none = refl
      composed true (some s) = refl
      composed false o = refl

  pub Moves-log :
      (count : ℕ) (clock : ℕ → ℕ) (branch t sha : String) (s : State) (j : String)
      (f : State → State) (e e' : Engine)
      → Moves count j f e e'
      → Moves count j f e (log_step clock branch t sha s e')
  unfolding record_promotion_wal_step get_proposal_state
  Moves-log count clock branch t sha s j f e e' m = record {
    key = m.key;
    fresh = m.fresh;
    at = m.at;
  }
