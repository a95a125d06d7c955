-- ===== src/Kernel/Transition/Digest.antt =====
-- The claim digest joins its fields by ":" without escaping them (loop_engine/transition.py), so
-- claims that differ share a digest.
use shadows.Prelude.{
  and_intro, ◌==◌, number_eq, text_eq, eqb_refl, concat, join_shift, ℕ, String, ◌≡◌, ap, ◌∙◌, true,
  ◌&&◌, [], ◌∷◌,
}
use shadows.Kernel.State.{State, state_eq}
use shadows.Kernel.Authority.{Tcb, verify, issue_proof_witness, verify-issue}
use shadows.Kernel.Transition.{value, compute_complete_claim_digest}

module _ (tcb : Tcb) (task_id : String) (from to : State)
    (spec_hash acceptance_test_digest evidence_digest authority_scope
      governance_hash : String) where
  abbrev digest_of : String → String → String
  digest_of subject_identity candidate_tree_sha =
      compute_complete_claim_digest tcb task_id from to subject_identity candidate_tree_sha
        spec_hash acceptance_test_digest evidence_digest authority_scope governance_hash

  digest-shifted :
      (s t u : String)
      → digest_of (concat (s ∷ ":" ∷ t ∷ [])) u ≡ digest_of s (concat (t ∷ ":" ∷ u ∷ []))
  unfolding compute_complete_claim_digest
  digest-shifted s t u =
      ap
        (λ (shifted : String).
          tcb.sha256 (concat (task_id ∷ ":" ∷ value from ∷ ":" ∷ value to ∷ ":" ∷ shifted ∷ [])))
        (join_shift ":" s t u spec_hash
          (acceptance_test_digest ∷ evidence_digest ∷ authority_scope ∷ governance_hash ∷ []))

  -- A witness that was issued for a claim whose subject ends in a colon and a text passes for
  -- the claim in which that text and the colon stand before the tree instead: the digest of a
  -- claim does not tell its fields apart.
  pub verify-shifted :
      (drawn now : ℕ) (issuer : String) (s t u : String)
      → verify tcb
          (issue_proof_witness tcb drawn now issuer
            (compute_complete_claim_digest tcb task_id from to
              (concat (s ∷ ":" ∷ t ∷ []))
              u
              spec_hash
              acceptance_test_digest
              evidence_digest
              authority_scope
              governance_hash)
            authority_scope)
          (compute_complete_claim_digest tcb task_id from to s
            (concat (t ∷ ":" ∷ u ∷ []))
            spec_hash
            acceptance_test_digest
            evidence_digest
            authority_scope
            governance_hash)
          authority_scope
        ≡ true
  verify-shifted drawn now issuer s t u =
      let digest = digest_of s (concat (t ∷ ":" ∷ u ∷ [])) in
      verify-issue tcb drawn now issuer (digest_of (concat (s ∷ ":" ∷ t ∷ [])) u) authority_scope
        digest authority_scope
      ∙ ap (λ (d : String). d == digest && authority_scope == authority_scope)
          (digest-shifted s t u)
      ∙ and_intro (digest == digest) (authority_scope == authority_scope) (eqb_refl digest)
          (eqb_refl authority_scope)
