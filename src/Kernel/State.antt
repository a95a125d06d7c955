-- ===== src/Kernel/State.antt =====
-- The states of a proposal and the classes of failure (loop_engine/schema.py), and the states
-- that only the transition engine may enter (loop_engine/kernel_db.py).
use shadows.Prelude.{
  Comparable, number_eq, text_eq, enum_eq, contains, ℕ, zero, suc, ◌≡◌, refl, Bool, List, [], ◌∷◌,
}

pub data State : Type 0 where
  candidate_sealed verifying verified rejected blocked : State
  promotion_pending promoted post_promotion_verified : State

abbrev position : State → ℕ
position candidate_sealed = 0
position verifying = 1
position verified = 2
position rejected = 3
position blocked = 4
position promotion_pending = 5
position promoted = 6
position post_promotion_verified = 7

abbrev member : ℕ → State
member zero = candidate_sealed
member (suc zero) = verifying
member (suc (suc zero)) = verified
member (suc (suc (suc zero))) = rejected
member (suc (suc (suc (suc zero)))) = blocked
member (suc (suc (suc (suc (suc zero))))) = promotion_pending
member (suc (suc (suc (suc (suc (suc zero)))))) = promoted
member _ = post_promotion_verified

pub member-position : (s : State) → member (position s) ≡ s
member-position candidate_sealed = refl
member-position _ = refl

instance abbrev pub state_eq : Comparable State
state_eq = enum_eq position member member-position

-- LEGAL_STATE_TRANSITIONS
abbrev pub legal_state_transitions : State → List State
legal_state_transitions candidate_sealed = verifying ∷ verified ∷ rejected ∷ []
legal_state_transitions verifying = verified ∷ rejected ∷ blocked ∷ []
legal_state_transitions verified = promotion_pending ∷ verifying ∷ []
legal_state_transitions rejected = verifying ∷ candidate_sealed ∷ []
legal_state_transitions blocked = verifying ∷ candidate_sealed ∷ []
legal_state_transitions promotion_pending =
    promoted ∷ post_promotion_verified ∷ verified ∷ rejected ∷ []
legal_state_transitions promoted = post_promotion_verified ∷ rejected ∷ []
legal_state_transitions post_promotion_verified = []

-- PRIVILEGED_STATES
abbrev pub privileged_states : List State
privileged_states = verified ∷ promotion_pending ∷ promoted ∷ post_promotion_verified ∷ []

abbrev pub is_legal : State → State → Bool
is_legal from_state to_state = contains to_state (legal_state_transitions from_state)

abbrev pub is_privileged : State → Bool
is_privileged s = contains s privileged_states

pub data FailureClassification : Type 0 where
  candidate_failure regression_failure spec_failure environment_failure : FailureClassification
  network_failure permission_failure flaky_failure governor_failure : FailureClassification
