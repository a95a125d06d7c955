-- ===== src/Tests/Promotion.antt =====
-- The theorems on the promotion coordinator at concrete inputs.
use text.Mathlib.TextLemmas.{length-append}
use Prim.Native.String.{count}
use shadows.Prelude.{
  if◌then◌else◌, Bool-cases, ◌==◌, number_eq, text_eq, ℕ, zero, suc, ◌<◌, String, ◌≡◌, refl, ap,
  inl, inr, true, false, some, arith, eq_iff,
}
use shadows.Outcome.{ok}
use shadows.Kernel.State.{State, verified, rejected, promotion_pending, state_eq}
use shadows.Kernel.Records.{KernelDatabase}
use shadows.Kernel.Database.{get_proposal, get_proposal_state}
use shadows.Kernel.Ledger.{get_verified_receipt}
use shadows.Kernel.Transition.{Engine}
use shadows.Promotion.{number, run_post_promotion_verification, stands_on_base, promote}
use shadows.Promotion.Steps.{witness_name}
use shadows.Promotion.Outcomes.{is_merged, succeeds, IsReady, promote_verified, promote_bystander}
use shadows.Promotion.Reconcile.{reconciled, reconcile_interrupted_promotions, reconcile-reconciled}
use shadows.Tests.Samples.{
  tally, base, manifest, sealed_in, sealed_in-HasKey, receipt, reviewed_in, repository,
}
use shadows.Promotion.Journey.{destination}

count-tally : (n : ℕ) → count (tally n) ≡ n
count-tally zero = refl
count-tally (suc n) = omega (arith, length-append "1" (tally n), count-tally n)

base-distinct : (i j : ℕ) → (witness_name base i == witness_name base j) ≡ true → i ≡ j
base-distinct i j same = omega (
  arith,
  count-tally i,
  count-tally j,
  length-append "wit_" (tally i),
  length-append "wit_" (tally j),
  ap count ((eq_iff (witness_name base i) (witness_name base j)).0 same),
)

equal_not_below : (k j : ℕ) → k ≡ j → j < k → ⊥
equal_not_below k j same below = omega arith

base-apart : (k j : ℕ) → j < k → (witness_name base k == witness_name base j) ≡ false
base-apart k j below = elim (Bool-cases (witness_name base k == witness_name base j)) [
  | inl same ↦ absurd (equal_not_below k j (base-distinct k j same) below)
  | inr other ↦ other
]

reviewed-IsReady :
    (s : State)
    → IsReady repository base "gov" "token" (λ k. k) "task" receipt 1 (manifest s) (reviewed_in s)
unfolding get_verified_receipt get_proposal stands_on_base
reviewed-IsReady s = record {
  key = sealed_in-HasKey s;
  fresh = λ k later soon. (refl, λ j from below. base-apart k j below);
  stored = refl;
  of_task = refl;
  is_verified = refl;
  found = refl;
  on_base = refl;
}

promote_verified_example :
    (e' : Engine) × (promote base "gov" "token"
        (λ k. k)
        repository
        "task"
        (number 1)
        (reviewed_in verified)
      ≡ ok (succeeds repository receipt, e'))
    × ((j : String)
        → get_proposal_state j e'.kernel_db ≡ (
            if "task" == j
            then some (
                destination
                  (is_merged repository receipt)
                  (run_post_promotion_verification repository))
            else get_proposal_state j (reviewed_in verified).kernel_db))
promote_verified_example =
    promote_verified repository base "gov" "token" (λ k. k) "task" receipt 1 (manifest verified)
      (reviewed_in verified) (reviewed-IsReady verified) refl

promote_bystander_example :
    (e' : Engine) × (promote base "gov" "token"
        (λ k. k)
        repository
        "task"
        (number 1)
        (reviewed_in rejected)
      ≡ ok (succeeds repository receipt, e'))
    × (get_proposal_state "task" e'.kernel_db ≡ some rejected)
promote_bystander_example =
    promote_bystander repository base "gov" "token" (λ k. k) "task" receipt 1 (manifest rejected)
      (reviewed_in rejected) (reviewed-IsReady rejected) refl

succeeds_here : succeeds repository receipt ≡ true
unfolding is_merged run_post_promotion_verification
succeeds_here = refl

reconcile-reconciled_example :
    (db' : KernelDatabase) × (reconcile_interrupted_promotions repository 9
        (sealed_in promotion_pending)
      ≡ ok db')
    × ((j : String)
        → get_proposal j db' ≡ reconciled repository (get_proposal j (sealed_in promotion_pending)))
reconcile-reconciled_example =
    reconcile-reconciled repository 9 (sealed_in promotion_pending)
      (sealed_in-HasKey promotion_pending)

rolled_back : reconciled repository (some (manifest promotion_pending)) ≡ some (manifest verified)
rolled_back = refl
