-- ===== src/Tests/Governor.antt =====
-- The theorems on the governors at concrete inputs.
use shadows.Prelude.{
  ltb, leb, count_where, ℕ, ◌+◌, ◌-◌, ◌*◌, ◌≤◌, ◌<◌, ◌≡◌, refl, ◌↔◌, true, false, Option, none,
  some, List, [], ◌∷◌, arith,
}
use shadows.Outcome.{Result, ok}
use shadows.Kernel.State.{candidate_failure, regression_failure, network_failure}
use shadows.Kernel.Records.{empty}
use shadows.Governor.Retry.{
  pos, int, RetryGovernor, new_retry_governor, can_retry, remaining_attempts, IsBounded, failure,
  restart, run_calls, created-IsBounded,
}
use shadows.Governor.Bucket.{
  Floats, FloatLaws, TokenBucket, new_token_bucket, refill, allow, get_available_tokens, BucketCall,
  ask, look, after_bucket_calls, bucket_bound,
}
use shadows.Governor.Strikes.{is_aborted, Failure, evaluate_all, strikes_at, is_aborted_iff}
use shadows.Governor.Step.{staged, BaseLoop, StepGovernor, StepExecutionResult, compact_error_trace}
use shadows.Governor.Step.Run.{judge, screen, turn, run_from, run_step}
use shadows.Governor.Step.Bounds.{Ends, run_step-Ends}
use shadows.Tests.Samples.{tally}
use shadows.Kernel.Ledger.{get_strikes}

abbrev three_attempts : RetryGovernor
three_attempts = record { max_attempts = 3; attempts_used = 1 }

three_attempts_created : new_retry_governor (int (pos 3)) (int (pos 1)) ≡ ok three_attempts
unfolding new_retry_governor
three_attempts_created = refl

created-IsBounded_example :
    IsBounded (run_calls (failure ∷ restart ∷ failure ∷ []) three_attempts)
    × ((can_retry (run_calls (failure ∷ restart ∷ failure ∷ []) three_attempts) ≡ true)
        ↔ (0 < remaining_attempts (run_calls (failure ∷ restart ∷ failure ∷ []) three_attempts)))
created-IsBounded_example =
    created-IsBounded (int (pos 3)) (int (pos 1)) three_attempts (failure ∷ restart ∷ failure ∷ [])
      three_attempts_created

-- Numbers up to a hundred stand in for the floats.
abbrev floats : Floats
floats = record {
  Float = ℕ;
  zero_float = 0;
  infinity = 100;
  lt = ltb;
  le = leb;
  add = λ a b. a + b;
  sub = λ a b. a - b;
  mul = λ a b. a * b;
}

floats-FloatLaws : FloatLaws floats
floats-FloatLaws = record {
  lt-le = λ a b h. ground arith;
  le_trans = λ a b c h k. ground arith;
  le_self = λ a b h. ground arith;
  above_zero = λ a b h k. ground arith;
  add_nonneg = λ a b h k. ground arith;
  mul_nonneg = λ a b h k. ground arith;
  sub_between = λ a b c h k l m. (ground arith, ground arith);
}

abbrev full_bucket : TokenBucket floats
full_bucket = record { capacity = 4; refill_rate = 2; tokens = 4; last_refill_time = 1 }

full_bucket_created : new_token_bucket floats 4 2 1 ≡ ok full_bucket
unfolding new_token_bucket
full_bucket_created = refl

abbrev bursts : List (BucketCall floats)
bursts = ask 1 3 ∷ ask 2 2 ∷ look 2 ∷ ask 3 4 ∷ []

bucket_bound_example :
    ((leb 0 (after_bucket_calls floats bursts full_bucket).tokens ≡ true)
      × (leb (after_bucket_calls floats bursts full_bucket).tokens 4 ≡ true))
    × ((now amount : ℕ)
        → leb amount 0 ≡ false
        → leb amount 4 ≡ false
        → (allow floats now amount (after_bucket_calls floats bursts full_bucket)).0 ≡ false)
bucket_bound_example =
    bucket_bound floats floats-FloatLaws 4 2 1 full_bucket bursts full_bucket_created refl refl

left_here : (after_bucket_calls floats bursts full_bucket).tokens ≡ 3
unfolding after_bucket_calls allow get_available_tokens refill
left_here = refl

abbrev failures : List Failure
failures =
    record { time = 1; task_id = "task"; classification = candidate_failure; signature = "same" }
    ∷ record { time = 2; task_id = "task"; classification = network_failure; signature = "net" }
    ∷ record { time = 3; task_id = "task"; classification = regression_failure; signature = "same" }
    ∷ []

is_aborted_iff_example :
    (is_aborted 3 "task" (evaluate_all failures empty) ≡ true)
    ↔ (3 ≤ get_strikes "task" empty + count_where (strikes_at "task") failures)
is_aborted_iff_example = is_aborted_iff 3 "task" failures empty

abbrev step_governor : StepGovernor
step_governor = record {
  max_strikes = 3;
  max_error_lines = 25;
  sha256 = λ s. s;
  decimal = tally;
  stripped_lines = λ s. s ∷ [];
}

-- A loop whose candidates change, and pass from the second one on.
abbrev improving : BaseLoop ℕ
improving = record {
  is_untampered = λ n. true;
  set_governor_state = λ attempt strike n. n;
  execute_staging = λ feedback n. (staged (some (tally n)), n + 1);
  verify = λ n. (ok (leb 2 n, "not yet"), n);
  commit = λ attempt strikes hash n. (ok "receipt", n);
}

run_step-Ends_example :
    Ends step_governor improving none none (run_step step_governor improving none none 0)
run_step-Ends_example = run_step-Ends step_governor improving none none 0

abbrev attempts_of : Option (Result StepExecutionResult) → ℕ
attempts_of (some (ok r)) = r.attempts_used
attempts_of _ = 0

second_attempt : attempts_of (run_step step_governor improving none none 0) ≡ 2
unfolding run_step run_from turn screen judge compact_error_trace
second_attempt = refl
