-- ===== src/Governor/Step/Run.antt =====
-- The `while` of StepGovernor.run_step (loop_engine/governor.py). Its fuel is one more than the
-- strike ceiling.
use shadows.Prelude.{
  ltb, if◌then◌else◌, last?, ◌==◌, number_eq, text_eq, ℕ, zero, suc, ◌+◌, String, Bool, true, false,
  not, ◌&&◌, Option, none, some, List, [], ◌∷◌, ◌++◌,
}
use shadows.Outcome.{spec_tampered, Result, raise, ok}
use shadows.Governor.Step.{
  Staged, failed, staged, BaseLoop, StepGovernor, StepExecutionResult, StepState, Turn, returned,
  struck, raised, is_forced, forced_message, execution_strike, oscillation_strike,
  verification_strike, succeed, abort,
}

-- `len(candidate_hashes_history) > 0` and its last item is this hash
abbrev pub repeats_last : String → List String → Bool
repeats_last hash history = elim (last? history) [ none ↦ false | some prior ↦ hash == prior ]

abbrev pub hash_of : StepGovernor → Option String → String
hash_of g none = "missing_candidate"
hash_of g (some text) = g.sha256 text

module _ {L : Type 0} (g : StepGovernor) (base : BaseLoop L) (forced_failure_attempt : Option ℕ)
    (forced_failure_msg : Option String) where
  -- What follows `commit`.
  abbrev pub on_commit : String → StepState L → Result String × L → Turn L
  on_commit hash s (raise e, _) = raised e
  on_commit hash s (ok receipt, _) = returned (succeed g hash receipt s)

  -- What follows `verify`.
  abbrev pub on_verify : String → StepState L → Result (Bool × String) × L → Turn L
  on_verify hash s (raise e, _) = raised e
  on_verify hash s (ok (true, _), loop) =
      on_commit hash (record s { loop = loop }) (base.commit s.attempt s.strike hash loop)
  on_verify hash s (ok (false, message), loop) =
      struck (verification_strike g message (record s { loop = loop }))

  unfoldable pub judge : String → StepState L → Turn L
  judge hash s =
      if not (base.is_untampered s.loop)
      then raised spec_tampered
      else if is_forced forced_failure_attempt s.attempt
      then struck (verification_strike g (forced_message g forced_failure_msg s.attempt) s)
      else on_verify hash s (base.verify s.loop)

  unfoldable pub screen : String → StepState L → Turn L
  screen hash s =
      if ltb 1 s.attempt && (repeats_last hash s.history && ltb 0 s.strike)
      then struck (oscillation_strike g (record s { last_candidate_hash = some hash }))
      else judge hash
          (record s { last_candidate_hash = some hash; history = s.history ++ hash ∷ [] })

  -- What follows `execute_staging`.
  abbrev pub on_staging : StepState L → Staged × L → Turn L
  on_staging s (failed message, loop) =
      struck (execution_strike g message (record s { loop = loop }))
  on_staging s (staged text, loop) = screen (hash_of g text) (record s { loop = loop })

  unfoldable pub turn : StepState L → Turn L
  turn s =
      let attempt = s.attempt + 1 in
      let loop = base.set_governor_state attempt s.strike s.loop in
      if not (base.is_untampered s.loop)
      then raised spec_tampered
      else on_staging (record s { attempt = attempt }) (base.execute_staging s.feedback loop)

  unfoldable pub run_from : ℕ → StepState L → Option (Result StepExecutionResult)
  run_from zero s = none
  run_from (suc fuel) s = elim (ltb s.strike g.max_strikes) [
    | false ↦ some (ok (abort g s))
    | true ↦ elim (turn s) [
      | returned r ↦ some (ok r)
      | raised e ↦ some (raise e)
      | struck s' ↦ run_from fuel s'
    ]
  ]

  abbrev pub start : L → StepState L
  start loop = record {
    loop = loop;
    ledger = [];
    history = [];
    feedback = none;
    strike = 0;
    attempt = 0;
    last_candidate_hash = none;
  }

  unfoldable pub run_step : L → Option (Result StepExecutionResult)
  run_step loop = run_from (g.max_strikes + 1) (start loop)
