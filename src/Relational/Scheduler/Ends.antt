-- ===== src/Relational/Scheduler/Ends.antt =====
-- The loop of the topological order ends on the fuel it is given.
use shadows.Prelude.{
  nat_beq, if◌then◌else◌, some_injective, length, length-snoc, text_eq, count_where, get_item,
  set_item, ℕ, zero, suc, ◌+◌, ◌≤◌, String, ◌≡◌, refl, ap, ◌∙◌, subst, ◌⊎◌, inl, inr, not, Option,
  none, some, List, [], ◌∷◌, arith,
}
use shadows.Relational.Schema.{RelationalNode, RelationalEdge}
use shadows.Relational.Scheduler.{
  degree, neighbors, node_map, sources_of, Kahn, lowered, release, appended, schedule, run,
  dependencies, kahn_start,
}

abbrev positive : List (String × ℕ) → ℕ
positive d = count_where (λ item. not (nat_beq item.1 0)) d

positive-set_item :
    (v : String) (n : ℕ) (d : List (String × ℕ))
    → degree v d ≡ suc n
    → positive (set_item v n d) + (if nat_beq n 0 then 1 else 0) ≡ positive d
positive-set_item v n [] h = absurd (omega (arith, h))
positive-set_item v n (item ∷ d) h = ground (arith, positive-set_item v n d)

-- What is left to do: a turn pops one id, and queues only ids whose degree falls to zero.
abbrev work : Kahn → ℕ
work s = positive s.in_degree + length s.queue

work-lowered :
    (n : ℕ) (v : String) (s : Kahn) → degree v s.in_degree ≡ n → work (lowered n v s) ≡ work s
work-lowered zero v s h = refl
work-lowered (suc d) v s h =
    ground (arith, positive-set_item v d s.in_degree h, length-snoc s.queue v)

work-release : (vs : List String) (s : Kahn) → work (release vs s) ≡ work s
unfolding release
work-release [] s = refl
work-release (v ∷ vs) s =
    work-release vs (lowered (degree v s.in_degree) v s)
    ∙ work-lowered (degree v s.in_degree) v s refl

work-start : (d : List (String × ℕ)) → positive d + length (sources_of d) ≡ length d
unfolding sources_of
work-start [] = omega arith
work-start (item ∷ d) = ground (arith, work-start d)

queue-cases : (q : List String) → (q ≡ []) ⊎ ((u : String) × (rest : List String) × (q ≡ u ∷ rest))
queue-cases [] = inl refl
queue-cases (u ∷ rest) = inr (u, rest, refl)

module _ (nodes : List RelationalNode) (adj_list : List (String × List String)) where
  step_back :
      (fuel : ℕ) (s t : Kahn) (u : String) (rest : List String)
      → s.queue ≡ u ∷ rest
      → run nodes adj_list fuel (schedule nodes adj_list u (record s { queue = rest })) ≡ some t
      → run nodes adj_list (suc fuel) s ≡ some t
  unfolding run
  step_back fuel s t u rest e h = rw (run, e) h

  run_ends :
      (fuel : ℕ) (s : Kahn) → work s ≤ fuel → (t : Kahn) × (run nodes adj_list fuel s ≡ some t)
  unfolding run schedule
  run_ends zero s h = elim (queue-cases s.queue) [
    | inl empty ↦ (s, rw empty refl)
    | inr (u, rest, e) ↦ absurd (omega (arith, h, ap length e))
  ]
  run_ends (suc fuel) s h = elim (queue-cases s.queue) [
    | inl empty ↦ (s, rw empty refl)
    | inr (u, rest, e) ↦
        let s' = record s { queue = rest } in
        let (t, ends) = run_ends fuel (schedule nodes adj_list u s') (
          omega (
            arith,
            h,
            work-release (neighbors u adj_list)
                (record s' { ordered = appended (get_item u (node_map nodes [])) s.ordered }),
            ap length e,
          )) in
        (t, step_back fuel s t u rest e ends)
  ]

  no_result : (t : Kahn) → ◌≡◌ {A = Option Kahn} none (some t) → ⊥
  no_result t h = cc h

  -- An invariant that a turn keeps holds at the end, where the queue is empty.
  pub run_rule {ℓ} :
      (P : Kahn → Type ℓ)
      → ((s : Kahn) (u : String) (rest : List String)
          → s.queue ≡ u ∷ rest
          → P s
          → P (schedule nodes adj_list u (record s { queue = rest })))
      → (fuel : ℕ) (s t : Kahn) → P s
      → run nodes adj_list fuel s ≡ some t
      → P t × (t.queue ≡ [])
  unfolding run
  run_rule P keep zero s t p h = elim (queue-cases s.queue) [
    | inl empty ↦
        subst (λ x. P x × (x.queue ≡ [])) (some_injective (rw (empty, run) at h)) (p, empty)
    | inr (u, rest, e) ↦ absurd (no_result t (rw (e, run) at h))
  ]
  run_rule P keep (suc fuel) s t p h = elim (queue-cases s.queue) [
    | inl empty ↦
        subst (λ x. P x × (x.queue ≡ [])) (some_injective (rw (empty, run) at h)) (p, empty)
    | inr (u, rest, e) ↦
        run_rule P keep fuel (schedule nodes adj_list u (record s { queue = rest })) t
          (keep s u rest e p) (rw (e, run) at h)
  ]

-- The fuel is enough: the queue is empty at the end.
pub run_returns :
    (nodes : List RelationalNode) (edges : List RelationalEdge)
    → let g = dependencies nodes edges in
      (t : Kahn) × (run nodes g.adj_list (length g.in_degree) (kahn_start g) ≡ some t)
run_returns nodes edges =
    let g = dependencies nodes edges in
    run_ends nodes g.adj_list (length g.in_degree) (kahn_start g)
      (omega (arith, work-start g.in_degree))
