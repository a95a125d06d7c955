-- ===== src/Relational/Scheduler/Degrees.antt =====
-- The dictionaries that the topological order starts from: the degree of an id is the number of
-- its dependencies, and its neighbours are the sources of the edges that lead to it.
use shadows.Prelude.{
  nat_beq, if◌then◌else◌, Bool-cases, or_right, ◌==◌, number_eq, text_eq, contains, select_one,
  count_where, count_where-append, holds_at, get_item, set_item, get_item-set_item, HasKeys,
  HasKeys-set_item, ℕ, ◌+◌, String, ◌≡◌, refl, sym, ap, ◌∙◌, inl, inr, Bool, true, false, ◌&&◌,
  ◌||◌, none, List, [], ◌∷◌, ◌++◌, map, arith, eq_iff,
}
use shadows.Relational.Schema.{status_eq, node_type_eq, relation_eq, RelationalNode, RelationalEdge}
use shadows.Relational.Scheduler.{
  is_dependency, degree, neighbors, zero_degrees, Dependencies, counted, count_edges, sources_of,
}

abbrev pub times : String → List String → ℕ
times v xs = count_where (λ x. x == v) xs

-- The dependencies of `v`, and those of them on `u`.
abbrev pub depends : String → RelationalEdge → Bool
depends v e = is_dependency e && e.source_id == v

abbrev pub depends_on_id : String → String → RelationalEdge → Bool
depends_on_id v u e = depends v e && u == e.target_id

pub degree-set_item :
    (v k : String) (n : ℕ) (d : List (String × ℕ))
    → degree v (set_item k n d) ≡ (if k == v then n else degree v d)
degree-set_item v k n d = ground (arith, get_item-set_item v k n d)

neighbors-set_item :
    (v k : String) (xs : List String) (d : List (String × List String))
    → neighbors v (set_item k xs d) ≡ (if k == v then xs else neighbors v d)
neighbors-set_item v k xs d = ground (arith, get_item-set_item v k xs d)

str_ne_of_eq_sym : (a b : String) → (a == b) ≡ false → (b == a) ≡ false
str_ne_of_eq_sym a b h = ground (arith, eq_iff a b, eq_iff b a)

pub str_sym : (a b : String) → (a == b) ≡ (b == a)
str_sym a b = ground (arith, eq_iff a b, eq_iff b a)

counted-degree :
    (v : String) (e : RelationalEdge) (g : Dependencies)
    → degree v (counted e g).in_degree ≡ degree v g.in_degree + (if e.source_id == v then 1 else 0)
counted-degree v e g =
    degree-set_item v e.source_id (degree e.source_id g.in_degree + 1) g.in_degree
    ∙ elim (Bool-cases (e.source_id == v)) [
      | inl same ↦ rw same (ap (λ k. degree k g.in_degree + 1) ((eq_iff e.source_id v).0 same))
      | inr apart ↦ rw apart (omega arith)
    ]

counted-neighbors :
    (v u : String) (e : RelationalEdge) (g : Dependencies)
    → times v (neighbors u (counted e g).adj_list)
      ≡ times v (neighbors u g.adj_list) + (if e.source_id == v && u == e.target_id then 1 else 0)
counted-neighbors v u e g =
    ap (times v) (
      neighbors-set_item u e.target_id (neighbors e.target_id g.adj_list ++ e.source_id ∷ [])
        g.adj_list)
    ∙ elim (Bool-cases (e.target_id == u)) [
      | inl same ↦
          rw (same, (eq_iff u e.target_id).1 (sym ((eq_iff e.target_id u).0 same)))
            (ground (
              arith,
              count_where-append (λ x. x == v) (neighbors e.target_id g.adj_list)
                  (e.source_id ∷ []),
              ap (λ k. times v (neighbors k g.adj_list)) ((eq_iff e.target_id u).0 same),
            ))
      | inr apart ↦ rw (apart, str_ne_of_eq_sym e.target_id u apart) (ground arith)
    ]

pub count_edges-degree :
    (v : String) (edges : List RelationalEdge) (g : Dependencies)
    → degree v (count_edges edges g).in_degree
      ≡ degree v g.in_degree + count_where (depends v) edges
unfolding count_edges
count_edges-degree v [] g = omega arith
count_edges-degree v (e ∷ edges) g = elim (Bool-cases (is_dependency e)) [
  | inl hit ↦
      rw (count_edges, hit)
        (omega (arith, count_edges-degree v edges (counted e g), counted-degree v e g))
  | inr miss ↦ rw (count_edges, miss) (omega (arith, count_edges-degree v edges g))
]

pub count_edges-neighbors :
    (v u : String) (edges : List RelationalEdge) (g : Dependencies)
    → times v (neighbors u (count_edges edges g).adj_list)
      ≡ times v (neighbors u g.adj_list) + count_where (depends_on_id v u) edges
unfolding count_edges
count_edges-neighbors v u [] g = omega arith
count_edges-neighbors v u (e ∷ edges) g = elim (Bool-cases (is_dependency e)) [
  | inl hit ↦
      rw (count_edges, hit)
        (omega (arith, count_edges-neighbors v u edges (counted e g), counted-neighbors v u e g))
  | inr miss ↦ rw (count_edges, miss) (omega (arith, count_edges-neighbors v u edges g))
]

pub HasKeys-zero_degrees :
    (nodes : List RelationalNode) (d : List (String × ℕ))
    → HasKeys d
    → HasKeys (zero_degrees nodes d)
unfolding zero_degrees
HasKeys-zero_degrees [] d h = h
HasKeys-zero_degrees (n ∷ nodes) d h =
    HasKeys-zero_degrees nodes (set_item n.node_id 0 d) (HasKeys-set_item n.node_id 0 d h)

HasKeys-counted :
    (b : Bool) (e : RelationalEdge) (g : Dependencies)
    → HasKeys g.in_degree
    → HasKeys (if b then counted e g else g).in_degree
HasKeys-counted true e g h =
    HasKeys-set_item e.source_id (degree e.source_id g.in_degree + 1) g.in_degree h
HasKeys-counted false e g h = h

pub HasKeys-count_edges :
    (edges : List RelationalEdge) (g : Dependencies)
    → HasKeys g.in_degree
    → HasKeys (count_edges edges g).in_degree
unfolding count_edges
HasKeys-count_edges [] g h = h
HasKeys-count_edges (e ∷ edges) g h =
    HasKeys-count_edges edges (if is_dependency e then counted e g else g)
      (HasKeys-counted (is_dependency e) e g h)

pub degree-zero_degrees :
    (v : String) (nodes : List RelationalNode) (d : List (String × ℕ))
    → degree v d ≡ 0
    → degree v (zero_degrees nodes d) ≡ 0
unfolding zero_degrees
degree-zero_degrees v [] d h = h
degree-zero_degrees v (n ∷ nodes) d h =
    degree-zero_degrees v nodes (set_item n.node_id 0 d)
      (degree-set_item v n.node_id 0 d ∙ ground (arith, h))

abbrev pub has_key : String → List (String × ℕ) → Bool
has_key v d = holds_at (λ _. true) (get_item v d)

has_key-set_item :
    (v k : String) (n : ℕ) (d : List (String × ℕ))
    → has_key v (set_item k n d) ≡ (k == v || has_key v d)
has_key-set_item v k n d = ground (arith, get_item-set_item v k n d)

pub has_key-zero_degrees :
    (v : String) (nodes : List RelationalNode) (d : List (String × ℕ))
    → has_key v (zero_degrees nodes d) ≡ (contains v (map (λ n. n.node_id) nodes) || has_key v d)
unfolding zero_degrees
has_key-zero_degrees v [] d = refl
has_key-zero_degrees v (n ∷ nodes) d =
    has_key-zero_degrees v nodes (set_item n.node_id 0 d)
    ∙ ap (λ b. contains v (map (λ m. m.node_id) nodes) || b) (has_key-set_item v n.node_id 0 d)
    ∙ ground (arith, str_sym v n.node_id)

has_key-counted :
    (v : String) (b : Bool) (e : RelationalEdge) (g : Dependencies)
    → has_key v g.in_degree ≡ true
    → has_key v (if b then counted e g else g).in_degree ≡ true
has_key-counted v true e g h =
    has_key-set_item v e.source_id (degree e.source_id g.in_degree + 1) g.in_degree
    ∙ or_right (e.source_id == v) (has_key v g.in_degree) h
has_key-counted v false e g h = h

pub has_key-count_edges :
    (v : String) (edges : List RelationalEdge) (g : Dependencies)
    → has_key v g.in_degree ≡ true
    → has_key v (count_edges edges g).in_degree ≡ true
unfolding count_edges
has_key-count_edges v [] g h = h
has_key-count_edges v (e ∷ edges) g h =
    has_key-count_edges v edges (if is_dependency e then counted e g else g)
      (has_key-counted v (is_dependency e) e g h)

get_item-none :
    (v : String) (d : List (String × ℕ))
    → select_one (λ item. item.0 == v) d ≡ none
    → get_item v d ≡ none
get_item-none v [] h = refl
get_item-none v (item ∷ d) h = ground (arith, get_item-none v d)

-- An id is a source once if its degree is zero, and not at all if not.
pub times-sources_of :
    (v : String) (d : List (String × ℕ))
    → HasKeys d
    → times v (sources_of d) ≡ (if has_key v d && nat_beq (degree v d) 0 then 1 else 0)
unfolding sources_of
times-sources_of v [] h = refl
times-sources_of v (item ∷ d) h =
    ground (arith, times-sources_of v d (λ k. (h k).1), (h v).0, get_item-none v d)
