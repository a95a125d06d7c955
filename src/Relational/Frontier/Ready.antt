-- ===== src/Relational/Frontier/Ready.antt =====
-- Which nodes the ready frontier holds.
use shadows.Prelude.{
  if◌then◌else◌, Bool-cases, or_left, or_right, any, ◌==◌, number_eq, text_eq, contains,
  contains-append, select, select_one-sat, holds_at, get_item, ℕ, ◌≤◌, String, ◌≡◌, refl, sym, ap,
  ◌∙◌, ◌↔◌, ◌⊎◌, inl, inr, Bool, true, false, not, ◌&&◌, ◌||◌, Option, none, some, List, [], ◌∷◌,
  ◌++◌, map, arith, eq_iff,
}
use shadows.Relational.Schema.{
  EpistemicStatus, invalidated, depends_on, status_eq, node_type_eq, relation_eq, RelationalNode,
  RelationalEdge,
}
use shadows.Relational.Store.{
  RelationalGraphStore, has_node_id, get_node, is_allowed, get_outgoing_edges,
}
use shadows.Relational.Frontier.{
  is_followed, find_transitive_dependencies, tree_relations, sub_node_ids, is_blocked, live, listed,
  ready_among, get_ready_frontier,
}
use shadows.Relational.Frontier.Walks.{Walk, found_walk, walk_found}

abbrev pub is_live : Option RelationalNode → Bool
is_live o = holds_at (λ node. not (node.epistemic_status == invalidated)) o

abbrev pub ids_of : List RelationalNode → List String
ids_of nodes = map (λ n. n.node_id) nodes

kept : (a b : Bool) → (a || b) ≡ ((a && not false) || b)
kept a b = ground arith

dropped : (a b : Bool) → b ≡ ((a && not true) || b)
dropped a b = ground arith

contains-listed :
    (v : String) (o : Option RelationalNode) (nid : String) (ready : List RelationalNode)
    → ((n : RelationalNode) → o ≡ some n → n.node_id ≡ nid)
    → contains v (ids_of (listed (live o) ready))
      ≡ ((v == nid && is_live o) || contains v (ids_of ready))
contains-listed v none nid ready id = ground arith
contains-listed v (some n) nid ready id = elim (Bool-cases (n.epistemic_status == invalidated)) [
  | inl dead ↦ rw dead (dropped (v == nid) (contains v (ids_of ready)))
  | inr alive ↦ rw (alive, id n refl) (kept (v == nid) (contains v (ids_of ready)))
]

get_node-id :
    (nid : String) (store : RelationalGraphStore) (n : RelationalNode)
    → get_node nid store ≡ some n
    → n.node_id ≡ nid
unfolding get_node
get_node-id nid store n h =
    (eq_iff n.node_id nid).0 (select_one-sat (has_node_id nid) store.nodes n h)

module _ (done blocked : String → Bool) (store : RelationalGraphStore) where
  abbrev passes : String → Bool
  passes v = not (done v) && (not (blocked v) && is_live (get_node v store))

  contains-ready_among :
      (v : String) (nids : List String)
      → contains v (ids_of (ready_among done blocked store nids)) ≡ (contains v nids && passes v)
  unfolding ready_among
  contains-ready_among v [] = refl
  contains-ready_among v (nid ∷ nids) =
      let ih = contains-ready_among v nids in
      let rest = ready_among done blocked store nids in
      elim (Bool-cases (done nid)) [
        | inl d ↦ rw d (ground (arith, ih, same_done, d))
        | inr nd ↦ elim (Bool-cases (blocked nid)) [
          | inl b ↦ rw (nd, b) (ground (arith, ih, same_blocked, b))
          | inr nb ↦
              rw (nd, nb)
                (ground (
                  arith,
                  ih,
                  contains-listed v (get_node nid store) nid rest (get_node-id nid store),
                  same_done,
                  same_blocked,
                  same_live,
                  nd,
                  nb,
                ))
        ]
      ]
    where
      same_done : (v == nid) ≡ true → done v ≡ done nid
      same_done h = ap done ((eq_iff v nid).0 h)

      same_blocked : (v == nid) ≡ true → blocked v ≡ blocked nid
      same_blocked h = ap blocked ((eq_iff v nid).0 h)

      same_live : (v == nid) ≡ true → is_live (get_node v store) ≡ is_live (get_node nid store)
      same_live h = ap (λ k. is_live (get_node k store)) ((eq_iff v nid).0 h)

contains-keys :
    (v : String) (rows : List (String × ℕ))
    → contains v (map (λ row. row.0) rows) ≡ holds_at (λ _. true) (get_item v rows)
contains-keys v [] = refl
contains-keys v (row ∷ rows) = ground (arith, contains-keys v rows, eq_iff v row.0, eq_iff row.0 v)

contains-add :
    (v root : String) (xs : List String)
    → contains v (if contains root xs then xs else xs ++ root ∷ []) ≡ (v == root || contains v xs)
contains-add v root xs = elim (Bool-cases (contains root xs)) [
  | inl there ↦ rw there (ground (arith, there, same))
  | inr new ↦ rw new (ground (arith, contains-append v xs (root ∷ [])))
]
  where
    same : (v == root) ≡ true → contains v xs ≡ contains root xs
    same h = ap (λ k. contains k xs) ((eq_iff v root).0 h)

any-select :
    (p q : RelationalEdge → Bool) (edges : List RelationalEdge)
    → any p (select q edges) ≡ any (λ e. q e && p e) edges
any-select p q [] = refl
any-select p q (e ∷ edges) = ground (arith, any-select p q edges)

module _ (root : String) (completed : List String) (statuses : Option (List EpistemicStatus))
    (store : RelationalGraphStore) where
  abbrev pub sub : List String
  sub = sub_node_ids root statuses store

  -- A DEPENDS_ON edge from `v` that counts, to a node of the tree that is not completed.
  abbrev pub holds_up : String → RelationalEdge → Bool
  holds_up v e =
      (e.source_id == v && e.relation_type == depends_on)
      && (is_allowed statuses e.epistemic_status
          && (contains e.target_id sub && not (contains e.target_id completed)))

  blocked-lem :
      (v : String) → is_blocked sub completed statuses store v ≡ any (holds_up v) store.edges
  unfolding is_blocked get_outgoing_edges
  blocked-lem v = any-select _ _ (select _ store.edges) ∙ any-select _ _ store.edges

  -- The root, or the end of a walk of at most fifty edges from it.
  abbrev pub InTree : String → Type 0
  InTree v =
      (v ≡ root)
      ⊎ ((n : ℕ) × (Walk (is_followed tree_relations statuses) store.edges root n v) × (n ≤ 50))

  contains-sub :
      (v : String)
      → contains v sub ≡ (
          v == root
          || holds_at
              (λ _. true)
              (get_item v (find_transitive_dependencies root tree_relations statuses store)))
  unfolding sub_node_ids
  contains-sub v =
      let rows = find_transitive_dependencies root tree_relations statuses store in
      contains-add v root (map (λ row. row.0) rows)
      ∙ ap (λ b. v == root || b) (contains-keys v rows)

  bound-some : (o : Option ℕ) → holds_at (λ _. true) o ≡ true → (d : ℕ) × (o ≡ some d)
  bound-some none h = cc h
  bound-some (some d) h = (d, refl)

  sub-InTree : (v : String) → contains v sub ≡ true → InTree v
  sub-InTree v h = elim (Bool-cases (v == root)) [
    | inl here ↦ inl ((eq_iff v root).0 here)
    | inr away ↦
        let (d, e) = bound-some _ (rw away at (sym (contains-sub v) ∙ h)) in
        let (w, low) = found_walk root v tree_relations statuses store d e in inr (d, w, low)
  ]

  InTree-sub : (v : String) → InTree v → contains v sub ≡ true
  InTree-sub v (inl here) = contains-sub v ∙ or_left _ _ ((eq_iff v root).1 here)
  InTree-sub v (inr (n, w, low)) =
      let (d, e, _) = walk_found root v tree_relations statuses store n w low in
      contains-sub v ∙ or_right _ _ (ap (holds_at (λ _. true)) e)

  all_four :
      (a b c d : Bool)
      → ((a && (not b && (not c && d))) ≡ true)
        ↔ ((a ≡ true) × (b ≡ false) × (c ≡ false) × (d ≡ true))
  all_four a b c d = ground arith

  -- The ready frontier holds the nodes that are the root or the end of a walk of at most fifty
  -- edges from it, are not completed, are there and not INVALIDATED, and have no DEPENDS_ON
  -- edge of an allowed status to a node of the tree that is not completed.
  pub ready_iff :
      (v : String)
      → (contains v (ids_of (get_ready_frontier root completed statuses store)) ≡ true) ↔ (
          InTree v
          × (contains v completed ≡ false)
          × (any (holds_up v) store.edges ≡ false)
          × (is_live (get_node v store) ≡ true))
  unfolding get_ready_frontier
  ready_iff v =
      let blocked = is_blocked sub completed statuses store in
      let same = contains-ready_among (λ nid. contains nid completed) blocked store v sub in
      let four =
        all_four (contains v sub) (contains v completed) (blocked v) (is_live (get_node v store)) in
      (
        λ h.
            let (a, b, c, d) = four.0 (sym same ∙ h) in
            (sub-InTree v a, b, sym (blocked-lem v) ∙ c, d),
        λ h. let (a, b, c, d) = h in same ∙ four.1 (InTree-sub v a, b, blocked-lem v ∙ c, d),
      )
