-- ===== src/Relational/Store/Integrity.antt =====
-- The keys and the foreign keys of the graph store: an id names one row, and an edge joins nodes
-- that are there.
use shadows.Prelude.{
  Bool-cases, and_left, and_right, and_intro, All, All-map, ◌==◌, number_eq, text_eq, select_one,
  Once, Once-update, All-update_where, upsert, select_one-any-none, Once-upsert, All-upsert, String,
  ◌≡◌, refl, sym, ap, ◌∙◌, subst, inl, inr, true, ◌&&◌, none, List, [], ◌∷◌, arith, eq_iff,
}
use shadows.Relational.Schema.{
  status_eq, node_type_eq, relation_eq, RelationalNode, RelationalEdge, node_with_status,
  edge_with_status,
}
use shadows.Relational.Store.{
  RelationalGraphStore, has_node_id, has_edge_id, upsert_node, has_ends, upsert_edge, get_node,
  update_node_status, update_edge_status,
}
use shadows.Relational.Store.View.{
  View, StoreCall, put_node, put_edge, set_node_status, set_edge_status, perform, perform_all, view,
  rewritten_node, rewritten_edge, is_bound, specified, has_ends-view, perform-specified,
}

pub record IsConsistent (store : RelationalGraphStore) : Type 0 where
  pub node_key : (j : String) → Once (has_node_id j) store.nodes
  pub edge_key : (j : String) → Once (has_edge_id j) store.edges
  pub joined : All (λ edge. has_ends store.nodes edge ≡ true) store.edges

Once-upsert-id :
    (A : Type 0) (id_of : A → String) (f : A → A) (row : A) (rows : List A) (j : String)
    → ((r : A) → id_of (f r) ≡ id_of row)
    → Once (λ r. id_of r == j) rows
    → Once (λ r. id_of r == j) (upsert (λ r. id_of r == id_of row) f row rows)
Once-upsert-id A id_of f row rows j same =
    Once-upsert (λ r. id_of r == j) (λ r. id_of r == id_of row) f row
      (λ r hit. ap (λ i. i == j) (same r ∙ sym ((eq_iff (id_of r) (id_of row)).0 hit)))
      (λ hit rs free.
        subst (λ k. select_one (λ r. id_of r == k) rs ≡ none) ((eq_iff (id_of row) j).0 hit)
          (select_one-any-none (λ r. id_of r == id_of row) rs free))
      rows

-- No call unbinds an id.
bound_stays :
    (call : StoreCall) (v : View) (j : String)
    → is_bound (v.node_of j) ≡ true
    → is_bound ((specified call v).node_of j) ≡ true
unfolding specified
bound_stays (put_node node) v j h = ground arith
bound_stays (put_edge edge) v j h =
    elim (Bool-cases (is_bound (v.node_of edge.source_id) && is_bound (v.node_of edge.target_id))) [
      | inl there ↦ rw there h
      | inr missing ↦ rw missing h
    ]
bound_stays (set_node_status node_id status) v j h = ground arith
bound_stays (set_edge_status edge_id status) v j h = h

node_stays :
    (call : StoreCall) (store : RelationalGraphStore) (j : String)
    → is_bound (get_node j store) ≡ true
    → is_bound (get_node j (perform call store)) ≡ true
node_stays call store j h =
    subst (λ v. is_bound (v.node_of j) ≡ true) (sym (perform-specified call store))
      (bound_stays call (view store) j h)

ends_stay :
    (call : StoreCall) (store : RelationalGraphStore) (edge : RelationalEdge)
    → has_ends store.nodes edge ≡ true
    → has_ends (perform call store).nodes edge ≡ true
ends_stay call store edge h =
    let a = is_bound (get_node edge.source_id store) in
    let b = is_bound (get_node edge.target_id store) in
    let both = sym (has_ends-view edge store) ∙ h in
    has_ends-view edge (perform call store)
    ∙ and_intro _ _ (node_stays call store edge.source_id (and_left a b both))
        (node_stays call store edge.target_id (and_right a b both))

perform-IsConsistent :
    (call : StoreCall) (store : RelationalGraphStore)
    → IsConsistent store
    → IsConsistent (perform call store)
unfolding perform upsert_node upsert_edge update_node_status update_edge_status
perform-IsConsistent (put_node node) store h = record {
  node_key = λ j.
      Once-upsert-id RelationalNode (λ n. n.node_id) (rewritten_node node) node store.nodes j
        (λ r. refl) (h.node_key j);
  edge_key = h.edge_key;
  joined = All-map _ _ (ends_stay (put_node node) store) store.edges h.joined;
}
perform-IsConsistent (put_edge edge) store h = elim (Bool-cases (has_ends store.nodes edge)) [
  | inl there ↦ rw there (record {
    node_key = h.node_key;
    edge_key = λ j.
        Once-upsert-id RelationalEdge (λ e. e.edge_id) (rewritten_edge edge) edge store.edges j
          (λ r. refl) (h.edge_key j);
    joined =
        All-upsert (λ e. has_ends store.nodes e ≡ true) (has_edge_id edge.edge_id)
          (rewritten_edge edge) edge (λ r. there) there store.edges h.joined;
  })
  | inr missing ↦ rw missing h
]
perform-IsConsistent (set_node_status node_id status) store h = record {
  node_key = λ j.
      Once-update (has_node_id j) (has_node_id node_id) (node_with_status status) (λ r. refl)
        store.nodes (h.node_key j);
  edge_key = h.edge_key;
  joined = All-map _ _ (ends_stay (set_node_status node_id status) store) store.edges h.joined;
}
perform-IsConsistent (set_edge_status edge_id status) store h = record {
  node_key = h.node_key;
  edge_key = λ j.
      Once-update (has_edge_id j) (has_edge_id edge_id) (edge_with_status status) (λ r. refl)
        store.edges (h.edge_key j);
  joined =
      All-update_where (λ e. has_ends store.nodes e ≡ true) (has_edge_id edge_id)
        (edge_with_status status) (λ r k. k) store.edges h.joined;
}

-- After any sequence of calls each id names one node or edge at most, and every edge joins nodes
-- that are there, if this was so before.
pub perform_all-IsConsistent :
    (calls : List StoreCall) (store : RelationalGraphStore)
    → IsConsistent store
    → IsConsistent (perform_all calls store)
unfolding perform_all
perform_all-IsConsistent [] store h = h
perform_all-IsConsistent (call ∷ calls) store h =
    perform_all-IsConsistent calls (perform call store) (perform-IsConsistent call store h)
