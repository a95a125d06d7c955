-- ===== src/Relational/Truth/Ends.antt =====
-- The loop of the cascade ends on the fuel it is given, and the rule for its invariants.
use shadows.Prelude.{
  if◌then◌else◌, Bool-cases, some_injective, length, length-append, ◌==◌, number_eq, text_eq,
  contains, count_where, ℕ, zero, suc, ◌+◌, ◌≤◌, String, ◌≡◌, refl, sym, ap, ◌∙◌, subst, ◌⊎◌, inl,
  inr, Bool, true, false, not, ◌&&◌, Option, none, some, List, [], ◌∷◌, arith, eq_iff,
}
use shadows.Relational.Schema.{status_eq, node_type_eq, relation_eq, RelationalEdge}
use shadows.Relational.Truth.{Cascade, is_justification, turn, cascade}
use shadows.Relational.Truth.Turn.{shape, sources}
use shadows.Relational.Truth.Steps.{turn-Visits, turn-again}

-- A justification edge that is still to be followed.
abbrev waits : List String → RelationalEdge → Bool
waits visited e = is_justification e.relation_type && not (contains e.target_id visited)

abbrev waiting : List String → List RelationalEdge → ℕ
waiting visited edges = count_where (waits visited) edges

waiting-shape :
    (visited : List String) (edges : List RelationalEdge)
    → waiting visited (shape edges) ≡ waiting visited edges
waiting-shape visited [] = refl
waiting-shape visited (e ∷ edges) =
    ap (λ n. (if waits visited e then 1 else 0) + n) (waiting-shape visited edges)

pub waiting-bound :
    (visited : List String) (edges : List RelationalEdge) → waiting visited edges ≤ length edges
waiting-bound visited [] = omega arith
waiting-bound visited (e ∷ edges) = ground (arith, waiting-bound visited edges)

contains_same :
    (a b : String) (xs : List String)
    → (a == b) ≡ true
    → contains b xs ≡ false
    → contains a xs ≡ false
contains_same a b xs same h = subst (λ k. contains k xs ≡ false) (sym ((eq_iff a b).0 same)) h

-- A visit queues the edges into the node, and they wait no more.
waiting-visit :
    (u : String) (visited : List String) (edges : List RelationalEdge)
    → contains u visited ≡ false
    → waiting (u ∷ visited) edges + length (sources u edges) ≡ waiting visited edges
waiting-visit u visited [] new = refl
waiting-visit u visited (e ∷ edges) new =
    let ih = waiting-visit u visited edges new in
    ground (arith, ih, contains_same e.target_id u visited)

module _ (clock : ℕ → String) (reason : String) where
  abbrev work : Cascade → ℕ
  work c = waiting c.visited c.store.edges + length c.queue

  waiting_of_shape :
      (visited : List String) (xs ys : List RelationalEdge)
      → shape xs ≡ shape ys
      → waiting visited xs ≡ waiting visited ys
  waiting_of_shape visited xs ys h =
      sym (waiting-shape visited xs) ∙ ap (waiting visited) h ∙ waiting-shape visited ys

  work-turn : (u : String) (c : Cascade) → work (turn clock reason u c) ≤ work c
  work-turn u c = elim (Bool-cases (contains u c.visited)) [
    | inl old ↦ rw (turn-again clock reason u c old) (omega arith)
    | inr new ↦
        let v = turn-Visits clock reason u c new in
        let d = turn clock reason u c in
        omega (
          arith,
          waiting-visit u c.visited c.store.edges new,
          waiting_of_shape d.visited d.store.edges c.store.edges v.shaped,
          ap (λ xs. waiting xs c.store.edges) v.visits,
          ap length v.queued,
          length-append c.queue (sources u c.store.edges),
        )
  ]

  queue-cases :
      (q : List String) → (q ≡ []) ⊎ ((u : String) × (rest : List String) × (q ≡ u ∷ rest))
  queue-cases [] = inl refl
  queue-cases (u ∷ rest) = inr (u, rest, refl)

  step_back :
      (fuel : ℕ) (c d : Cascade) (u : String) (rest : List String)
      → c.queue ≡ u ∷ rest
      → cascade clock reason fuel (turn clock reason u (record c { queue = rest })) ≡ some d
      → cascade clock reason (suc fuel) c ≡ some d
  unfolding cascade
  step_back fuel c d u rest e h = rw (cascade, e) h

  pub cascade_ends :
      (fuel : ℕ) (c : Cascade)
      → work c ≤ fuel
      → (d : Cascade) × (cascade clock reason fuel c ≡ some d)
  unfolding cascade
  cascade_ends zero c h = elim (queue-cases c.queue) [
    | inl empty ↦ (c, rw empty refl)
    | inr (u, rest, e) ↦ absurd (omega (arith, h, ap length e))
  ]
  cascade_ends (suc fuel) c h = elim (queue-cases c.queue) [
    | inl empty ↦ (c, rw empty refl)
    | inr (u, rest, e) ↦
        let (d, ends) =
          cascade_ends fuel (turn clock reason u (record c { queue = rest }))
            (omega (arith, h, work-turn u (record c { queue = rest }), ap length e)) in
        (d, step_back fuel c d u rest e ends)
  ]

  no_result : (d : Cascade) → ◌≡◌ {A = Option Cascade} none (some d) → ⊥
  no_result d h = cc h

  -- An invariant that a turn keeps holds at the end, where the queue is empty.
  pub cascade_rule {ℓ} :
      (P : Cascade → Type ℓ)
      → ((c : Cascade) (u : String) (rest : List String)
          → c.queue ≡ u ∷ rest
          → P c
          → P (turn clock reason u (record c { queue = rest })))
      → (fuel : ℕ) (c d : Cascade) → P c
      → cascade clock reason fuel c ≡ some d
      → P d × (d.queue ≡ [])
  unfolding cascade
  cascade_rule P keep zero c d p h = elim (queue-cases c.queue) [
    | inl empty ↦
        subst (λ x. P x × (x.queue ≡ [])) (some_injective (rw (empty, cascade) at h)) (p, empty)
    | inr (u, rest, e) ↦ absurd (no_result d (rw (e, cascade) at h))
  ]
  cascade_rule P keep (suc fuel) c d p h = elim (queue-cases c.queue) [
    | inl empty ↦
        subst (λ x. P x × (x.queue ≡ [])) (some_injective (rw (empty, cascade) at h)) (p, empty)
    | inr (u, rest, e) ↦
        cascade_rule P keep fuel (turn clock reason u (record c { queue = rest })) d
          (keep c u rest e p) (rw (e, cascade) at h)
  ]
