-- ===== src/Kernel/Authority.antt =====
-- Witnesses that the trusted base signs (loop_engine/authority.py). SHA-256, HMAC, the random
-- tokens and the text of a time are the standard library's: they are fields of `Tcb`. A signature is
-- ASCII, as hexdigest makes it; on any other text compare_digest raises.
use shadows.Prelude.{
  if◌then◌else◌, ◌==◌, number_eq, text_eq, eqb_refl, concat, join, ℕ, ◌+◌, String, ◌≡◌, Bool, false,
  not, ◌&&◌, ◌||◌, [], ◌∷◌, arith,
}

pub record Tcb : Type 0 where
  -- `hashlib.sha256(s.encode("utf-8")).hexdigest()`
  pub sha256 : String → String
  -- `hmac.new(key, payload.encode("utf-8"), hashlib.sha256).hexdigest()`
  pub hmac_sha256 : String → String → String
  -- _TCB_SESSION_SECRET
  pub session_secret : String
  -- what the n-th call of `secrets.token_hex` returns
  pub token_hex : ℕ → String
  -- `str` of a reading of the clock
  pub time_text : ℕ → String

pub record ProofWitness : Type 0 where
  pub witness_id : String
  pub issuer : String
  pub target_digest : String
  pub scope : String
  pub timestamp : ℕ
  pub signature : String

module _ (tcb : Tcb) where
  abbrev pub payload : String → String → String → String → ℕ → String
  payload witness_id issuer target_digest scope timestamp =
      join ":" (witness_id ∷ issuer ∷ target_digest ∷ scope ∷ tcb.time_text timestamp ∷ [])

  unfoldable pub verify : ProofWitness → String → String → Bool
  verify w expected_digest expected_scope =
      if not (w.target_digest == expected_digest) || not (w.scope == expected_scope)
      then false
      else w.signature
        == tcb.hmac_sha256 tcb.session_secret
            (payload w.witness_id w.issuer w.target_digest w.scope w.timestamp)

  -- `drawn` counts the tokens that were drawn before.
  unfoldable pub issue_proof_witness : ℕ → ℕ → String → String → String → ProofWitness
  issue_proof_witness drawn now issuer target_digest scope =
      let witness_id = concat ("wit_" ∷ tcb.token_hex drawn ∷ []) in
      record {
        witness_id = witness_id;
        issuer = issuer;
        target_digest = target_digest;
        scope = scope;
        timestamp = now;
        signature =
            tcb.hmac_sha256 tcb.session_secret (payload witness_id issuer target_digest scope now);
      }

  -- An issued witness passes for the digest and the scope that it was issued for, and for no
  -- other.
  pub verify-issue :
      (drawn now : ℕ) (issuer digest scope digest' scope' : String)
      → verify (issue_proof_witness drawn now issuer digest scope) digest' scope'
        ≡ ((digest == digest') && (scope == scope'))
  unfolding verify issue_proof_witness
  verify-issue drawn now issuer digest scope digest' scope' =
      let witness_id = concat ("wit_" ∷ tcb.token_hex drawn ∷ []) in
      let signature =
        tcb.hmac_sha256 tcb.session_secret (payload witness_id issuer digest scope now) in
      ground (arith, eqb_refl signature)

pub record VerificationContractWitness : Type 0 where
  pub contract_id : String
  pub objective_hash : String
  pub acceptance_test_digest : String
  pub witness : ProofWitness

module _ (tcb : Tcb) where
  abbrev combined_digest : String → String → String
  combined_digest objective_hash acceptance_test_digest =
      tcb.sha256 (join ":" (objective_hash ∷ acceptance_test_digest ∷ []))

  unfoldable pub is_valid : VerificationContractWitness → Bool
  is_valid v =
      verify tcb v.witness (combined_digest v.objective_hash v.acceptance_test_digest)
        "VERIFICATION_CONTRACT"

  unfoldable pub create_verification_contract_witness :
      ℕ → ℕ → String → String → VerificationContractWitness
  create_verification_contract_witness drawn now objective_hash acceptance_test_digest = record {
    contract_id = concat ("vcw_" ∷ tcb.token_hex drawn ∷ []);
    objective_hash = objective_hash;
    acceptance_test_digest = acceptance_test_digest;
    witness =
        issue_proof_witness tcb (drawn + 1) now "loop_engine.authority"
          (combined_digest objective_hash acceptance_test_digest) "VERIFICATION_CONTRACT";
  }
