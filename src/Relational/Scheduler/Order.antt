-- ===== src/Relational/Scheduler/Order.antt =====
-- Where the topological order is returned, no id precedes what it depends on.
use shadows.Prelude.{
  if◌then◌else◌, Bool-cases, some_injective, or_left, length, ◌==◌, number_eq, text_eq, eqb_refl,
  contains, count_where, get_item, set_item, get_item-set_item, HasKeys, ℕ, zero, suc, ◌+◌, String,
  ◌≡◌, refl, sym, ap, ◌∙◌, subst, inl, inr, Bool, true, false, ◌||◌, Option, some, List, [], ◌∷◌,
  ◌++◌, arith, eq_iff,
}
use shadows.Relational.Schema.{status_eq, node_type_eq, relation_eq, RelationalNode, RelationalEdge}
use shadows.Relational.Scheduler.{
  degree, neighbors, zero_degrees, node_map, Dependencies, Kahn, lowered, release, appended,
  schedule, run, dependencies, kahn_start,
}
use shadows.Relational.Scheduler.Degrees.{
  times, depends, depends_on_id, str_sym, count_edges-degree, count_edges-neighbors,
  HasKeys-zero_degrees, HasKeys-count_edges, degree-zero_degrees, has_key, has_key-zero_degrees,
  has_key-count_edges, times-sources_of,
}
use shadows.Relational.Scheduler.Release.{ids, times_same, unmet, known, Balanced, release-Balanced}
use shadows.Relational.Scheduler.Ends.{run_rule}

-- `t` stands in the list before `s`, if `s` stands in it at all.
abbrev pub precedes : String → String → List String → Bool
precedes t s [] = true
precedes t s (x ∷ xs) = if x == s then false else x == t || precedes t s xs

pub precedes-snoc :
    (t s x : String) (xs : List String)
    → precedes t s xs ≡ true
    → ((x == s) ≡ true → contains t xs ≡ true)
    → precedes t s (xs ++ x ∷ []) ≡ true
precedes-snoc t s x [] h k = ground (arith, k)
precedes-snoc t s x (y ∷ xs) h k = ground (arith, precedes-snoc t s x xs, k, str_sym t y)

set_id :
    (t : String) (m n : RelationalNode) (d : List (String × RelationalNode))
    → ((n : RelationalNode) → get_item t d ≡ some n → n.node_id ≡ t)
    → (if m.node_id == t then some m else get_item t d) ≡ some n
    → n.node_id ≡ t
set_id t m n d h e = elim (Bool-cases (m.node_id == t)) [
  | inl hit ↦ subst (λ k. k.node_id ≡ t) (some_injective (rw hit at e)) ((eq_iff m.node_id t).0 hit)
  | inr miss ↦ h n (rw miss at e)
]

pub node_map-id :
    (t : String) (nodes : List RelationalNode) (d : List (String × RelationalNode))
    → ((n : RelationalNode) → get_item t d ≡ some n → n.node_id ≡ t)
    → (n : RelationalNode) → get_item t (node_map nodes d) ≡ some n
    → n.node_id ≡ t
unfolding node_map
node_map-id t [] d h = h
node_map-id t (m ∷ nodes) d h =
    node_map-id t nodes (set_item m.node_id m d)
      (λ n e. set_id t m n d h (sym (get_item-set_item t m.node_id m d) ∙ e))

module _ (nodes : List RelationalNode) (edges : List RelationalEdge) where
  abbrev pub node_at : String → Option RelationalNode
  node_at v = get_item v (node_map nodes [])

  -- The nodes among the ids that were scheduled, the last one first.
  abbrev pub collected : List String → List RelationalNode
  collected [] = []
  collected (v ∷ past) = appended (node_at v) (collected past)

  -- Each id was scheduled after all that it depends on.
  abbrev pub Met : List String → Type 0
  Met [] = Unit
  Met (v ∷ past) = (unmet nodes edges past v ≡ 0) × Met past

  release-ordered : (vs : List String) (s : Kahn) → (release vs s).ordered ≡ s.ordered
  unfolding release
  release-ordered [] s = refl
  release-ordered (v ∷ vs) s =
      release-ordered vs (lowered (degree v s.in_degree) v s)
      ∙ lowered_same (degree v s.in_degree) v s
    where
      lowered_same : (n : ℕ) (v : String) (s : Kahn) → (lowered n v s).ordered ≡ s.ordered
      lowered_same zero v s = refl
      lowered_same (suc d) v s = refl

  unmet-nil :
      (v : String) (es : List RelationalEdge) → unmet nodes es [] v ≡ count_where (depends v) es
  unmet-nil v [] = refl
  unmet-nil v (e ∷ es) = ground (arith, unmet-nil v es)

  unmet-cons :
      (u v : String) (past : List String) (es : List RelationalEdge)
      → times u past ≡ 0
      → unmet nodes es (u ∷ past) v + count_where (depends_on_id v u) es ≡ unmet nodes es past v
  unmet-cons u v past [] new = refl
  unmet-cons u v past (e ∷ es) new =
      ground
        (arith, unmet-cons u v past es new, times_same e.target_id u past, str_sym u e.target_id)

  pub record Inv (s : Kahn) : Type 0 where
    pub past : List String
    pub balanced : Balanced nodes edges past [] s
    pub met : Met past
    pub in_order : s.ordered ≡ collected past

  abbrev graph : Dependencies
  graph = dependencies nodes edges

  neighbors-graph :
      (v u : String) → times v (neighbors u graph.adj_list) ≡ count_where (depends_on_id v u) edges
  neighbors-graph v u = omega (
    arith,
    count_edges-neighbors v u edges (record { adj_list = []; in_degree = zero_degrees nodes [] }),
  )

  degree-graph : (v : String) → degree v graph.in_degree ≡ count_where (depends v) edges
  degree-graph v = omega (
    arith,
    count_edges-degree v edges (record { adj_list = []; in_degree = zero_degrees nodes [] }),
    degree-zero_degrees v nodes [] refl,
  )

  keys-graph : HasKeys graph.in_degree
  keys-graph = HasKeys-count_edges edges _ (HasKeys-zero_degrees nodes [] (λ k. tt))

  has_key-graph : (v : String) → contains v (ids nodes) ≡ true → has_key v graph.in_degree ≡ true
  has_key-graph v h =
      has_key-count_edges v edges _ (has_key-zero_degrees v nodes [] ∙ or_left _ _ h)

  Inv-start : Inv (kahn_start graph)
  Inv-start = record {
    past = [];
    balanced = record {
      deg = λ v. omega (arith, degree-graph v, unmet-nil v edges);
      once = λ v. ground (arith, times-sources_of v graph.in_degree keys-graph);
      zeros = λ v h. ground (arith, times-sources_of v graph.in_degree keys-graph, h);
      full = λ v k h.
          ground (arith, times-sources_of v graph.in_degree keys-graph, has_key-graph v k, h);
    };
    met = tt;
    in_order = refl;
  }

  module _ (s : Kahn) (u : String) (rest : List String) (e : s.queue ≡ u ∷ rest) (h : Inv s) where
    open h use {past, balanced}

    abbrev popped : Kahn
    popped = record s { queue = rest; ordered = appended (node_at u) s.ordered }

    known-popped : (v : String) → known nodes edges (u ∷ past) popped v ≡ known nodes edges past s v
    known-popped v = omega (arith, ap (times v) e)

    new : times u past ≡ 0
    new = ground (arith, ap (times u) e, eqb_refl u, balanced.once u)

    met-popped : unmet nodes edges past u ≡ 0
    met-popped = ground (arith, ap (times u) e, eqb_refl u, balanced.zeros u, balanced.deg u)

    Balanced-popped : Balanced nodes edges (u ∷ past) (neighbors u graph.adj_list) popped
    Balanced-popped = record {
      deg = λ v. omega (arith, balanced.deg v, unmet-cons u v past edges new, neighbors-graph v u);
      once = λ v. omega (arith, known-popped v, balanced.once v);
      zeros = λ v k. balanced.zeros v (omega (arith, known-popped v, k));
      full = λ v k d. omega (arith, known-popped v, balanced.full v k d);
    }

    Inv-schedule : Inv (schedule nodes graph.adj_list u (record s { queue = rest }))
    unfolding schedule
    Inv-schedule = record {
      past = u ∷ past;
      balanced =
          release-Balanced nodes edges (u ∷ past) (neighbors u graph.adj_list) popped
            Balanced-popped;
      met = (met-popped, h.met);
      in_order =
          release-ordered (neighbors u graph.adj_list) popped
          ∙ ap (appended (node_at u)) h.in_order;
    }

  -- What the loop ends with.
  pub ended :
      (t : Kahn)
      → run nodes graph.adj_list (length graph.in_degree) (kahn_start graph) ≡ some t
      → Inv t × (t.queue ≡ [])
  ended t e =
      run_rule nodes graph.adj_list Inv Inv-schedule (length graph.in_degree) (kahn_start graph) t
        Inv-start e
