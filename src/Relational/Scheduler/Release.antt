-- ===== src/Relational/Scheduler/Release.antt =====
-- The degree of an id is the number of its dependencies that are not yet scheduled, and what is
-- scheduled or queued is what has none left.
use shadows.Prelude.{
  nat_beq, if◌then◌else◌, ◌==◌, number_eq, text_eq, eqb_refl, contains, count_where,
  count_where-append, ℕ, zero, suc, ◌+◌, ◌≤◌, ◌<◌, String, ◌≡◌, refl, sym, ap, ◌∙◌, true, ◌&&◌,
  List, [], ◌∷◌, map, arith, eq_iff,
}
use shadows.Relational.Schema.{status_eq, node_type_eq, relation_eq, RelationalNode, RelationalEdge}
use shadows.Relational.Scheduler.{degree, Kahn, lowered, release}
use shadows.Relational.Scheduler.Degrees.{times, depends, degree-set_item}

abbrev pub ids : List RelationalNode → List String
ids nodes = map (λ n. n.node_id) nodes

pub times_same :
    (a b : String) (xs : List String) → (a == b) ≡ true → times b xs ≡ 0 → times a xs ≡ 0
times_same a b xs e h = ap (λ k. times k xs) ((eq_iff a b).0 e) ∙ h

module _ (nodes : List RelationalNode) (edges : List RelationalEdge) where
  -- The dependencies of `v` on ids that are not among these.
  abbrev pub unmet : List String → String → ℕ
  unmet past v = count_where (λ e. depends v e && nat_beq (times e.target_id past) 0) edges

  abbrev pub known : List String → Kahn → String → ℕ
  known past s v = times v past + times v s.queue

  -- After `past` was scheduled, with `vs` still to be released.
  pub record Balanced (past vs : List String) (s : Kahn) : Type 0 where
    pub deg : (v : String) → degree v s.in_degree ≡ unmet past v + times v vs
    pub once : (v : String) → known past s v ≤ 1
    pub zeros : (v : String) → 0 < known past s v → degree v s.in_degree ≡ 0
    pub full :
        (v : String) → contains v (ids nodes) ≡ true → degree v s.in_degree ≡ 0 → 0 < known past s v

  module _ (past vs : List String) (u : String) (s : Kahn) (d : ℕ)
      (at : degree u s.in_degree ≡ suc d) (h : Balanced past (u ∷ vs) s) where
    queued :
        (v : String)
        → times v (lowered (suc d) u s).queue
          ≡ times v s.queue + (if nat_beq d 0 && u == v then 1 else 0)
    queued v = ground (arith, count_where-append (λ x. x == v) s.queue (u ∷ []))

    same_degree : (v : String) → (u == v) ≡ true → degree v s.in_degree ≡ suc d
    same_degree v e = ap (λ k. degree k s.in_degree) (sym ((eq_iff u v).0 e)) ∙ at

    lowered-Balanced : Balanced past vs (lowered (suc d) u s)
    lowered-Balanced = record {
      deg = λ v. ground (arith, degree-set_item v u d s.in_degree, h.deg v, same_degree v);
      once = λ v. ground (arith, queued v, h.once v, h.zeros v, same_degree v);
      zeros = λ v k.
          ground (arith, queued v, degree-set_item v u d s.in_degree, h.zeros v, same_degree v, k);
      full = λ v k e.
          ground
            (arith, queued v, degree-set_item v u d s.in_degree, h.full v, same_degree v, k, e);
    }

  step-Balanced :
      (past vs : List String) (u : String) (s : Kahn) (n : ℕ)
      → degree u s.in_degree ≡ n
      → Balanced past (u ∷ vs) s
      → Balanced past vs (lowered n u s)
  step-Balanced past vs u s zero at h = absurd (ground (arith, h.deg u, eqb_refl u))
  step-Balanced past vs u s (suc d) at h = lowered-Balanced past vs u s d at h

  pub release-Balanced :
      (past vs : List String) (s : Kahn) → Balanced past vs s → Balanced past [] (release vs s)
  unfolding release
  release-Balanced past [] s h = h
  release-Balanced past (u ∷ vs) s h =
      release-Balanced past vs (lowered (degree u s.in_degree) u s)
        (step-Balanced past vs u s (degree u s.in_degree) refl h)
