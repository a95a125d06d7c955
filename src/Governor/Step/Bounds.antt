-- ===== src/Governor/Step/Bounds.antt =====
-- What run_step (loop_engine/governor.py) returns: the strike ceiling bounds the turns, the ledger
-- has an entry for each strike, and a success was verified.
use shadows.Prelude.{
  ltb, if◌then◌else◌, Bool-cases, length, length-snoc, ℕ, zero, suc, ◌+◌, ◌≤◌, ◌<◌, String, ◌≡◌,
  refl, sym, ◌∙◌, subst, inl, inr, Bool, true, false, ◌&&◌, Option, some, [], ◌∷◌, ◌++◌, arith,
}
use shadows.Outcome.{Result, raise, ok}
use shadows.Governor.Step.{
  Staged, failed, staged, BaseLoop, StepGovernor, Phase, execution, oscillation, verification,
  Status, success, aborted, StepExecutionResult, StepState, Turn, returned, struck, raised,
  is_forced, strike_with, abort,
}
use shadows.Governor.Step.Run.{
  repeats_last, on_commit, on_verify, judge, screen, on_staging, turn, run_from, run_step,
}

module _ {L : Type 0} (g : StepGovernor) (base : BaseLoop L) (forced_failure_attempt : Option ℕ)
    (forced_failure_msg : Option String) where
  -- `verify` has passed the loop at some point.
  abbrev pub WasVerified : Type 0
  WasVerified = (l l' : L) × (message : String) × (base.verify l ≡ (ok (true, message), l'))

  -- A success comes after one attempt more than there were strikes, and an abort with all of them.
  abbrev pub IsSoundAs : Status → StepExecutionResult → Type 0
  IsSoundAs success r =
      (r.attempts_used ≡ r.strikes_used + 1)
      × ((r.strikes_used < g.max_strikes)
          × ((length r.negative_constraints_ledger ≡ r.strikes_used) × WasVerified))
  IsSoundAs aborted r =
      (r.attempts_used ≡ g.max_strikes)
      × ((r.strikes_used ≡ g.max_strikes) × (length r.negative_constraints_ledger ≡ g.max_strikes))

  abbrev pub IsSound : Result StepExecutionResult → Type 0
  IsSound (raise e) = Unit
  IsSound (ok r) = IsSoundAs r.status r

  -- The state after `k` strikes, in an attempt.
  record InAttempt (k : ℕ) (s : StepState L) : Type 0 where
    strikes : s.strike ≡ k
    attempts : s.attempt ≡ k + 1
    entries : length s.ledger ≡ k

  -- The state after `k` strikes, between two attempts.
  record Between (k : ℕ) (s : StepState L) : Type 0 where
    strikes : s.strike ≡ k
    attempts : s.attempt ≡ k
    entries : length s.ledger ≡ k

  IsGoodTurn : ℕ → Turn L → Type 0
  IsGoodTurn k (returned r) =
      (r.status ≡ success)
      × ((r.attempts_used ≡ k + 1)
          × ((r.strikes_used ≡ k) × ((length r.negative_constraints_ledger ≡ k) × WasVerified)))
  IsGoodTurn k (struck s) = Between (k + 1) s
  IsGoodTurn k (raised e) = Unit

  module _ (k : ℕ) where
    strike_with-Between :
        (phase : Phase) (error feedback : String) (s : StepState L)
        → InAttempt k s
        → Between (k + 1) (strike_with g phase error feedback s)
    strike_with-Between phase error feedback s m = record {
      strikes = omega (arith, m.strikes);
      attempts = m.attempts;
      entries = length-snoc s.ledger _ ∙ omega (arith, m.entries);
    }

    on_commit-Good :
        (hash : String) (s : StepState L) (c : Result String × L)
        → InAttempt k s
        → WasVerified
        → IsGoodTurn k (on_commit g base forced_failure_attempt forced_failure_msg hash s c)
    unfolding IsGoodTurn
    on_commit-Good hash s (raise e, _) m v = tt
    on_commit-Good hash s (ok receipt, _) m v = (refl, (m.attempts, (m.strikes, (m.entries, v))))

    on_verify-Good :
        (hash : String) (s : StepState L) (c : Result (Bool × String) × L)
        → base.verify s.loop ≡ c
        → InAttempt k s
        → IsGoodTurn k (on_verify g base forced_failure_attempt forced_failure_msg hash s c)
    unfolding IsGoodTurn
    on_verify-Good hash s (raise e, _) h m = tt
    on_verify-Good hash s (ok (true, message), loop) h m =
        on_commit-Good hash (record s { loop = loop }) _
          (record { strikes = m.strikes; attempts = m.attempts; entries = m.entries })
          (s.loop, loop, message, h)
    on_verify-Good hash s (ok (false, message), loop) h m =
        strike_with-Between verification _ _ (record s { loop = loop })
          (record { strikes = m.strikes; attempts = m.attempts; entries = m.entries })

    judge-Good :
        (hash : String) (s : StepState L)
        → InAttempt k s
        → IsGoodTurn k (judge g base forced_failure_attempt forced_failure_msg hash s)
    unfolding judge IsGoodTurn
    judge-Good hash s m = elim (Bool-cases (base.is_untampered s.loop)) [
      | inr tampered ↦ rw tampered tt
      | inl sealed ↦ elim (Bool-cases (is_forced forced_failure_attempt s.attempt)) [
        | inl forced ↦ rw (sealed, forced) (strike_with-Between verification _ _ s m)
        | inr free ↦ rw (sealed, free) (on_verify-Good hash s (base.verify s.loop) refl m)
      ]
    ]

    screen-Good :
        (hash : String) (s : StepState L)
        → InAttempt k s
        → IsGoodTurn k (screen g base forced_failure_attempt forced_failure_msg hash s)
    unfolding screen IsGoodTurn
    screen-Good hash s m =
        elim (Bool-cases (ltb 1 s.attempt && (repeats_last hash s.history && ltb 0 s.strike))) [
          | inl repeated ↦ rw repeated (
              strike_with-Between oscillation _ _ (record s { last_candidate_hash = some hash })
                (record { strikes = m.strikes; attempts = m.attempts; entries = m.entries }))
          | inr new ↦ rw new (
              judge-Good hash
                (record s { last_candidate_hash = some hash; history = s.history ++ hash ∷ [] })
                (record { strikes = m.strikes; attempts = m.attempts; entries = m.entries }))
        ]

    on_staging-Good :
        (s : StepState L) (c : Staged × L)
        → InAttempt k s
        → IsGoodTurn k (on_staging g base forced_failure_attempt forced_failure_msg s c)
    unfolding IsGoodTurn
    on_staging-Good s (failed message, loop) m =
        strike_with-Between execution _ _ (record s { loop = loop })
          (record { strikes = m.strikes; attempts = m.attempts; entries = m.entries })
    on_staging-Good s (staged text, loop) m =
        screen-Good _ (record s { loop = loop })
          (record { strikes = m.strikes; attempts = m.attempts; entries = m.entries })

    turn-Good :
        (s : StepState L)
        → Between k s
        → IsGoodTurn k (turn g base forced_failure_attempt forced_failure_msg s)
    unfolding turn IsGoodTurn
    turn-Good s b = elim (Bool-cases (base.is_untampered s.loop)) [
      | inr tampered ↦ rw tampered tt
      | inl sealed ↦ rw sealed (
          on_staging-Good (record s { attempt = s.attempt + 1 }) _
            (record {
              strikes = b.strikes;
              attempts = omega (arith, b.attempts);
              entries = b.entries;
            }))
    ]

  abbrev pub Ends : Option (Result StepExecutionResult) → Type 0
  Ends o = (res : Result StepExecutionResult) × (o ≡ some res) × IsSound res

  -- What the loop does with the outcome of a turn.
  abbrev continue : ℕ → Turn L → Option (Result StepExecutionResult)
  continue fuel (returned r) = some (ok r)
  continue fuel (raised e) = some (raise e)
  continue fuel (struck s) = run_from g base forced_failure_attempt forced_failure_msg fuel s

  run_from-eq :
      (fuel : ℕ) (s : StepState L)
      → run_from g base forced_failure_attempt forced_failure_msg (suc fuel) s ≡ (
          if ltb s.strike g.max_strikes
          then continue fuel (turn g base forced_failure_attempt forced_failure_msg s)
          else some (ok (abort g s)))
  unfolding run_from
  run_from-eq fuel s = ground arith

  run_from-Ends :
      (fuel k : ℕ) (s : StepState L)
      → Between k s
      → k + fuel ≡ g.max_strikes + 1
      → k ≤ g.max_strikes
      → Ends (run_from g base forced_failure_attempt forced_failure_msg fuel s)
  unfolding IsGoodTurn
  run_from-Ends zero k s b enough within = absurd (omega (arith, enough, within))
  run_from-Ends (suc fuel) k s b enough within = elim (Bool-cases (ltb s.strike g.max_strikes)) [
    | inr exhausted ↦
        rw (run_from-eq fuel s, exhausted)
          (
            ok (abort g s),
            refl,
            (
              ground (arith, exhausted, b.strikes, b.attempts, within),
              (refl, ground (arith, exhausted, b.strikes, b.entries, within)),
            ),
          )
    | inl below ↦
        rw (run_from-eq fuel s, below)
          (next
            (λ s' b' more.
              run_from-Ends fuel (k + 1) s' b' (omega (arith, enough)) (omega (arith, more)))
            (turn g base forced_failure_attempt forced_failure_msg s) (turn-Good k s b)
            (ground (arith, below, b.strikes)))
  ]
    where
      next :
          ((s' : StepState L)
            → Between (k + 1) s'
            → k < g.max_strikes
            → Ends (run_from g base forced_failure_attempt forced_failure_msg fuel s'))
          → (t : Turn L) → IsGoodTurn k t
          → k < g.max_strikes
          → Ends (continue fuel t)
      next later (raised e) good more = (raise e, refl, tt)
      next later (struck s') good more = later s' good more
      next later (returned r) (status, (attempts, (strikes, (entries, verified)))) more = (
        ok r,
        refl,
        subst (λ st. IsSoundAs st r) (sym status)
            (
              omega (arith, attempts, strikes),
              (omega (arith, strikes, more), (entries ∙ sym strikes, verified)),
            ),
      )

  -- `run_step` ends within one turn of the loop more than the strike ceiling, by an exception
  -- or with a result. A success has one attempt more than strikes, fewer strikes than the
  -- ceiling, an entry in the ledger for each strike, and a state of the loop that `verify`
  -- passed; an abort has as many attempts, strikes and entries as the ceiling.
  pub run_step-Ends :
      (loop : L) → Ends (run_step g base forced_failure_attempt forced_failure_msg loop)
  unfolding run_step
  run_step-Ends loop =
      run_from-Ends (g.max_strikes + 1) 0 _
        (record { strikes = refl; attempts = refl; entries = refl }) (omega arith) (omega arith)
