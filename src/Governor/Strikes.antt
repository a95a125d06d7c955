-- ===== src/Governor/Strikes.antt =====
-- GovernorEngine (loop_engine/governor.py), over the strike log of the kernel database.
use shadows.Prelude.{
  leb, if◌then◌else◌, Bool-cases, ◌==◌, number_eq, text_eq, contains, count_where,
  count_where-append, concat, ℕ, ◌+◌, ◌≤◌, String, ◌≡◌, ◌∙◌, ◌↔◌, inl, inr, Bool, true, false, not,
  ◌&&◌, List, [], ◌∷◌, arith,
}
use shadows.Kernel.State.{state_eq, FailureClassification, candidate_failure, regression_failure}
use shadows.Kernel.Records.{KernelDatabase}
use shadows.Kernel.Ledger.{struck, record_strike, get_strikes, get_failure_signatures}

-- `classification in (CANDIDATE_FAILURE, REGRESSION_FAILURE)`
abbrev pub is_implementation_failure : FailureClassification → Bool
is_implementation_failure candidate_failure = true
is_implementation_failure regression_failure = true
is_implementation_failure _ = false

unfoldable pub evaluate_failure :
    ℕ → String → FailureClassification → String → KernelDatabase → Bool × KernelDatabase
evaluate_failure now task_id classification signature db =
    if not (is_implementation_failure classification)
    then (false, db)
    else if contains signature (get_failure_signatures task_id db)
    then (
      true,
      record_strike now task_id classification (concat ("OSCILLATION_DETECTED:" ∷ signature ∷ []))
          db,
    )
    else (true, record_strike now task_id classification signature db)

unfoldable pub get_strike_count : String → KernelDatabase → ℕ
get_strike_count task_id db = get_strikes task_id db

unfoldable pub is_aborted : (max_strikes : ℕ) → String → KernelDatabase → Bool
is_aborted max_strikes task_id db = leb max_strikes (get_strike_count task_id db)

-- A failure that is reported to the governor, at its time.
pub record Failure : Type 0 where
  pub time : ℕ
  pub task_id : String
  pub classification : FailureClassification
  pub signature : String

unfoldable pub evaluate_all : List Failure → KernelDatabase → KernelDatabase
evaluate_all [] db = db
evaluate_all (f ∷ failures) db =
    evaluate_all failures (evaluate_failure f.time f.task_id f.classification f.signature db).1

-- A failure of the implementation for this task.
abbrev pub strikes_at : String → Failure → Bool
strikes_at task_id f = f.task_id == task_id && is_implementation_failure f.classification

get_strikes-record_strike :
    (now : ℕ) (j t : String) (c : FailureClassification) (s : String) (db : KernelDatabase)
    → get_strikes j (record_strike now t c s db) ≡ get_strikes j db + (if t == j then 1 else 0)
unfolding get_strikes record_strike
get_strikes-record_strike now j t c s db =
    count_where-append (struck j) db.strike_log _ ∙ omega arith

get_strikes-evaluate_failure :
    (j : String) (f : Failure) (db : KernelDatabase)
    → get_strikes j (evaluate_failure f.time f.task_id f.classification f.signature db).1
      ≡ get_strikes j db + (if strikes_at j f then 1 else 0)
unfolding evaluate_failure
get_strikes-evaluate_failure j f db =
    let known = contains f.signature (get_failure_signatures f.task_id db) in
    elim (Bool-cases (is_implementation_failure f.classification)) [
      | inr skipped ↦ rw skipped (ground arith)
      | inl counted ↦ elim (Bool-cases known) [
        | inl again ↦
            rw (counted, again)
              (get_strikes-record_strike f.time j f.task_id f.classification
                  (concat ("OSCILLATION_DETECTED:" ∷ f.signature ∷ [])) db
                ∙ ground arith)
        | inr new ↦
            rw (counted, new)
              (get_strikes-record_strike f.time j f.task_id f.classification f.signature db
                ∙ ground arith)
      ]
    ]

get_strikes-evaluate_all :
    (j : String) (failures : List Failure) (db : KernelDatabase)
    → get_strikes j (evaluate_all failures db)
      ≡ get_strikes j db + count_where (strikes_at j) failures
unfolding evaluate_all
get_strikes-evaluate_all j [] db = omega arith
get_strikes-evaluate_all j (f ∷ failures) db =
    let next = (evaluate_failure f.time f.task_id f.classification f.signature db).1 in
    omega (arith, get_strikes-evaluate_all j failures next, get_strikes-evaluate_failure j f db)

-- After any failures a task is aborted exactly if its strikes before and its candidate and
-- regression failures among them reach the ceiling; a failure whose signature was seen before
-- counts once like any other, and those of other tasks or classes do not count.
pub is_aborted_iff :
    (max_strikes : ℕ) (j : String) (failures : List Failure) (db : KernelDatabase)
    → (is_aborted max_strikes j (evaluate_all failures db) ≡ true)
      ↔ (max_strikes ≤ get_strikes j db + count_where (strikes_at j) failures)
unfolding is_aborted get_strike_count
is_aborted_iff max_strikes j failures db =
    rw (get_strikes-evaluate_all j failures db) (ground arith)
