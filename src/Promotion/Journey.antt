-- ===== src/Promotion/Journey.antt =====
-- Where the steps of `promote` (loop_engine/promoter.py) lead the state of a proposal.
use shadows.Prelude.{
  if◌then◌else◌, number_eq, text_eq, contains, merged, ◌≡◌, refl, Bool, true, false, List, [], ◌∷◌,
}
use shadows.Kernel.State.{
  State, candidate_sealed, verifying, verified, rejected, blocked, promotion_pending, promoted,
  post_promotion_verified, state_eq,
}
use shadows.Promotion.Steps.{advance}

-- The last step, by whether the tests pass on the target branch.
abbrev pub settle : Bool → State → State
settle tested =
    if tested then advance promoted post_promotion_verified else advance promoted rejected

-- The steps from PROMOTION_PENDING on, by whether the candidate is merged.
abbrev pub forward : Bool → Bool → State → State
forward merged tested =
    if merged
    then (λ s. settle tested (advance promotion_pending promoted s))
    else advance promotion_pending verified

-- Where a promotion leads a proposal that is VERIFIED.
abbrev pub destination : Bool → Bool → State
destination merged tested =
    if merged then (if tested then post_promotion_verified else rejected) else verified

pub forward-destination :
    (merged tested : Bool)
    → forward merged tested (advance verified promotion_pending verified)
      ≡ destination merged tested
forward-destination true true = refl
forward-destination true false = refl
forward-destination false _ = refl

-- The states that no step of a promotion leaves.
abbrev pub bystanders : List State
bystanders = candidate_sealed ∷ verifying ∷ rejected ∷ blocked ∷ []

pub stands_by :
    (merged tested : Bool) (s : State)
    → contains s bystanders ≡ true
    → forward merged tested (advance verified promotion_pending s) ≡ s
stands_by true true candidate_sealed h = refl
stands_by true false candidate_sealed h = refl
stands_by false _ candidate_sealed h = refl
stands_by true true verifying h = refl
stands_by true false verifying h = refl
stands_by false _ verifying h = refl
stands_by true true rejected h = refl
stands_by true false rejected h = refl
stands_by false _ rejected h = refl
stands_by true true blocked h = refl
stands_by true false blocked h = refl
stands_by false _ blocked h = refl
stands_by _ _ verified h = cc h
stands_by _ _ promotion_pending h = cc h
stands_by _ _ promoted h = cc h
stands_by _ _ post_promotion_verified h = cc h
