-- ===== src/Governor/Step.antt =====
-- StepGovernor.run_step (loop_engine/governor.py). The loop that is run is a parameter: what its
-- methods do to it and return, a tampered specification included. SHA-256, the decimal text of a
-- number and `raw_error.strip().splitlines()` are the standard library's, and parameters too. The
-- identifiers, the staging directory and the times of the entries are left out.
pub mod Run
pub mod Bounds
use shadows.Prelude.{
  leb, nat_beq, if◌then◌else◌, length, drop, ◌==◌, number_eq, text_eq, concat, join, ℕ, ◌+◌, ◌-◌,
  String, Bool, false, Option, none, some, List, [], ◌∷◌, ◌++◌,
}
use shadows.Outcome.{Error, Result}

pub data Staged : Type 0 where
  -- what `str(e)` is of the exception
  failed : String → Staged
  -- the text of the candidate, if the file exists
  staged : Option String → Staged

pub record BaseLoop (L : Type 0) : Type 0 where
  -- `assert_spec_untampered` passes
  pub is_untampered : L → Bool
  pub set_governor_state : (attempt strike : ℕ) → L → L
  pub execute_staging : (feedback : Option String) → L → Staged × L
  pub verify : L → Result (Bool × String) × L
  pub commit : (attempt strikes_used : ℕ) → (candidate_hash : String) → L → Result String × L

pub record StepGovernor : Type 0 where
  pub max_strikes : ℕ
  pub max_error_lines : ℕ
  pub sha256 : String → String
  pub decimal : ℕ → String
  pub stripped_lines : String → List String

pub data Phase : Type 0 where
  execution oscillation verification : Phase

pub record FailureEntry : Type 0 where
  pub attempt : ℕ
  pub strike : ℕ
  pub phase : Phase
  pub error : String

pub data Status : Type 0 where
  success aborted : Status

pub record StepExecutionResult : Type 0 where
  pub status : Status
  pub attempts_used : ℕ
  pub strikes_used : ℕ
  pub candidate_hash : Option String
  pub negative_constraints_count : ℕ
  pub negative_constraints_ledger : List FailureEntry
  pub receipt : Option String
  pub last_error : Option String

-- The local variables of `run_step`, and the loop.
pub record StepState (L : Type 0) : Type 0 where
  pub loop : L
  pub ledger : List FailureEntry
  pub history : List String
  pub feedback : Option String
  pub strike : ℕ
  pub attempt : ℕ
  pub last_candidate_hash : Option String

-- What one turn of the `while` comes to.
pub data Turn (L : Type 0) : Type 0 where
  returned : StepExecutionResult → Turn L
  struck : StepState L → Turn L
  raised : Error → Turn L

-- `lines[-n:]`, which is all of them for 0
abbrev pub last_lines : ℕ → List String → List String
last_lines n lines = if nat_beq n 0 then lines else drop (length lines - n) lines

unfoldable pub compact_error_trace : StepGovernor → String → String
compact_error_trace g raw_error =
    if raw_error == ""
    then ""
    else let lines = g.stripped_lines raw_error in
      if leb (length lines) g.max_error_lines
      then join "\n" lines
      else join "\n" (last_lines g.max_error_lines lines)

abbrev pub oscillation_error : String
oscillation_error =
    "Anti-Oscillation Violation: Candidate generated on retry is mathematically identical to prior failed candidate."

-- `forced_failure_attempt == attempt`
abbrev pub is_forced : Option ℕ → ℕ → Bool
is_forced forced_failure_attempt attempt = elim forced_failure_attempt [
  | none ↦ false
  | some forced ↦ nat_beq forced attempt
]

abbrev pub forced_message : StepGovernor → Option String → ℕ → String
forced_message g forced_failure_msg attempt =
    let default = concat ("Forced Failure Seam triggered on attempt " ∷ g.decimal attempt ∷ []) in
    elim forced_failure_msg [ none ↦ default | some m ↦ if m == "" then default else m ]

module _ {L : Type 0} (g : StepGovernor) where
  -- A new strike with its entry in the ledger.
  abbrev pub strike_with : Phase → String → String → StepState L → StepState L
  strike_with phase error feedback s = record s {
    strike = s.strike + 1;
    ledger =
        s.ledger
        ++ (record { attempt = s.attempt; strike = s.strike + 1; phase = phase; error = error })
          ∷ [];
    feedback = some feedback;
  }

  abbrev pub execution_strike : String → StepState L → StepState L
  execution_strike message s =
      let error = compact_error_trace g message in
      strike_with execution error
        (concat (
          "Execution Failure on Attempt "
          ∷ g.decimal s.attempt
          ∷ " (Strike "
          ∷ g.decimal (s.strike + 1)
          ∷ "): "
          ∷ error
          ∷ []))
        s

  abbrev pub oscillation_strike : StepState L → StepState L
  oscillation_strike s =
      strike_with oscillation oscillation_error
        (concat (
          "Oscillation Detected on Strike "
          ∷ g.decimal (s.strike + 1)
          ∷ ": "
          ∷ oscillation_error
          ∷ []))
        s

  abbrev pub verification_strike : String → StepState L → StepState L
  verification_strike message s =
      let error = compact_error_trace g message in
      strike_with verification error
        (concat (
          "Verification Gate Failed on Strike "
          ∷ g.decimal (s.strike + 1)
          ∷ "/"
          ∷ g.decimal g.max_strikes
          ∷ " (Attempt "
          ∷ g.decimal s.attempt
          ∷ ").\nCumulative Failures: "
          ∷ g.decimal (length s.ledger + 1)
          ∷ "\nError Signature:\n"
          ∷ error
          ∷ []))
        s

  abbrev pub succeed : String → String → StepState L → StepExecutionResult
  succeed hash receipt s = record {
    status = success;
    attempts_used = s.attempt;
    strikes_used = s.strike;
    candidate_hash = some hash;
    negative_constraints_count = length s.ledger;
    negative_constraints_ledger = s.ledger;
    receipt = some receipt;
    last_error = none;
  }

  abbrev pub abort : StepState L → StepExecutionResult
  abort s = record {
    status = aborted;
    attempts_used = s.attempt;
    strikes_used = g.max_strikes;
    candidate_hash = s.last_candidate_hash;
    negative_constraints_count = length s.ledger;
    negative_constraints_ledger = s.ledger;
    receipt = none;
    last_error = s.feedback;
  }
