-- ===== src/Governor/Retry.antt =====
-- RetryGovernor (loop_engine/governor.py).
use shadows.Prelude.{
  ltb, nat_beq, if◌then◌else◌, Bool-cases, ℕ, zero, suc, ◌+◌, ◌-◌, ◌≤◌, ◌<◌, min, ◌≡◌, refl, ◌∙◌,
  subst, ◌↔◌, inl, inr, Bool, true, List, [], ◌∷◌, arith,
}
use shadows.Outcome.{value_error, type_error, Result, raise, ok, ok_injective}

-- A Python integer, and what else the constructor may be given; a Boolean is refused.
pub data ℤ : Type 0 where
  pos : ℕ → ℤ
  negsuc : ℕ → ℤ

pub data Value : Type 0 where
  int : ℤ → Value
  bool : Bool → Value
  other : Value

pub record RetryGovernor : Type 0 where
  pub max_attempts : ℕ
  pub attempts_used : ℕ

abbrev pub check_bounds : ℤ → ℤ → Result RetryGovernor
check_bounds (negsuc _) _ = raise value_error
check_bounds (pos max_attempts) used =
    if nat_beq max_attempts 0 then raise value_error else elim used [
      | negsuc _ ↦ raise value_error
      | pos attempts_used ↦
          if ltb max_attempts attempts_used
          then raise value_error
          else ok (record { max_attempts = max_attempts; attempts_used = attempts_used })
    ]

unfoldable pub new_retry_governor : Value → Value → Result RetryGovernor
new_retry_governor (int max_attempts) (int attempts_used) = check_bounds max_attempts attempts_used
new_retry_governor _ _ = raise type_error

unfoldable pub can_retry : RetryGovernor → Bool
can_retry g = ltb g.attempts_used g.max_attempts

unfoldable pub record_failure : RetryGovernor → RetryGovernor
record_failure g =
    if ltb g.attempts_used g.max_attempts
    then record g { attempts_used = g.attempts_used + 1 }
    else g

unfoldable pub remaining_attempts : RetryGovernor → ℕ
remaining_attempts g = g.max_attempts - g.attempts_used

unfoldable pub reset : RetryGovernor → RetryGovernor
reset g = record g { attempts_used = 0 }

-- The first two invariants of the class.
abbrev pub IsBounded : RetryGovernor → Type 0
IsBounded g = (0 < g.max_attempts) × (g.attempts_used ≤ g.max_attempts)

-- The calls of a client that change the governor.
pub data Call : Type 0 where
  failure restart : Call

unfoldable pub run_calls : List Call → RetryGovernor → RetryGovernor
run_calls [] g = g
run_calls (failure ∷ calls) g = run_calls calls (record_failure g)
run_calls (restart ∷ calls) g = run_calls calls (reset g)

checked-IsBounded :
    (m u : ℕ) (g : RetryGovernor) → check_bounds (pos m) (pos u) ≡ ok g → IsBounded g
checked-IsBounded m u g h = elim (Bool-cases (nat_beq m 0)) [
  | inl none_left ↦ cc (rw none_left at h)
  | inr some_left ↦ elim (Bool-cases (ltb m u)) [
    | inl above ↦ cc (rw (some_left, above) at h)
    | inr within ↦
        subst IsBounded (ok_injective (rw (some_left, within) at h))
          (ground (arith, some_left), ground (arith, within))
  ]
]

new_retry_governor-IsBounded :
    (a b : Value) (g : RetryGovernor) → new_retry_governor a b ≡ ok g → IsBounded g
unfolding new_retry_governor
new_retry_governor-IsBounded (int (pos m)) (int (pos u)) g h = checked-IsBounded m u g h
new_retry_governor-IsBounded (int (pos m)) (int (negsuc u)) g h = elim (Bool-cases (nat_beq m 0)) [
  | inl none_left ↦ cc (rw none_left at h)
  | inr some_left ↦ cc (rw some_left at h)
]
new_retry_governor-IsBounded (int (negsuc m)) (int _) g h = cc h
new_retry_governor-IsBounded (int _) (bool _) g h = cc h
new_retry_governor-IsBounded (int _) other g h = cc h
new_retry_governor-IsBounded (bool _) _ g h = cc h
new_retry_governor-IsBounded other _ g h = cc h

record_failure-IsBounded : (g : RetryGovernor) → IsBounded g → IsBounded (record_failure g)
unfolding record_failure
record_failure-IsBounded g h = elim (Bool-cases (ltb g.attempts_used g.max_attempts)) [
  | inl below ↦ rw below (h.0, ground (arith, below))
  | inr above ↦ rw above h
]

run_calls-IsBounded :
    (calls : List Call) (g : RetryGovernor) → IsBounded g → IsBounded (run_calls calls g)
unfolding run_calls reset
run_calls-IsBounded [] g h = h
run_calls-IsBounded (failure ∷ calls) g h =
    run_calls-IsBounded calls (record_failure g) (record_failure-IsBounded g h)
run_calls-IsBounded (restart ∷ calls) g h = run_calls-IsBounded calls (reset g) (h.0, omega arith)

-- A retry governor that the constructor accepts has a positive ceiling that the attempts never
-- exceed, whatever failures and resets follow, and it permits another attempt exactly if some
-- remain.
pub created-IsBounded :
    (a b : Value) (g : RetryGovernor) (calls : List Call)
    → new_retry_governor a b ≡ ok g
    → IsBounded (run_calls calls g)
      × ((can_retry (run_calls calls g) ≡ true) ↔ (0 < remaining_attempts (run_calls calls g)))
unfolding can_retry remaining_attempts
created-IsBounded a b g calls h =
    (run_calls-IsBounded calls g (new_retry_governor-IsBounded a b g h), ground arith)

record_failure-used :
    (g : RetryGovernor)
    → IsBounded g
    → ((record_failure g).attempts_used ≡ min g.max_attempts (g.attempts_used + 1))
      × ((record_failure g).max_attempts ≡ g.max_attempts)
unfolding record_failure
record_failure-used g h = elim (Bool-cases (ltb g.attempts_used g.max_attempts)) [
  | inl below ↦ rw below (ground (arith, below), refl)
  | inr above ↦ rw above (ground (arith, above, h.1), refl)
]

abbrev pub fail_times : ℕ → RetryGovernor → RetryGovernor
fail_times zero g = g
fail_times (suc n) g = fail_times n (record_failure g)

-- After n failures a bounded retry governor has used its attempts and n more, at most the
-- ceiling, which stays.
fail_times-used :
    (n : ℕ) (g : RetryGovernor)
    → IsBounded g
    → ((fail_times n g).attempts_used ≡ min g.max_attempts (g.attempts_used + n))
      × ((fail_times n g).max_attempts ≡ g.max_attempts)
fail_times-used zero g h = (omega (arith, h.1), refl)
fail_times-used (suc n) g h =
    let (used, kept) = fail_times-used n (record_failure g) (record_failure-IsBounded g h) in
    let (next_used, next_kept) = record_failure-used g h in
    (omega (arith, used, next_used, next_kept), kept ∙ next_kept)
