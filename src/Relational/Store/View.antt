-- ===== src/Relational/Store/View.antt =====
-- What the graph store promises: two maps, from ids to nodes and to edges.
use shadows.Prelude.{
  if◌then◌else◌, Bool-cases, ◌==◌, number_eq, text_eq, eqb_refl, select_one, update_where,
  select_one-sat, updated, select_one-update, holds_at, upsert, any-select_one, merged,
  select_one-upsert, select_one-upsert_other, String, ◌≡◌, refl, sym, ap, ap₂, ◌∙◌, subst, fun_ext,
  inl, inr, Bool, true, false, ◌&&◌, Option, none, some, map_option, List, [], ◌∷◌, arith, eq_iff,
}
use shadows.Outcome.{or_else}
use shadows.Relational.Schema.{
  EpistemicStatus, status_eq, node_type_eq, relation_eq, RelationalNode, RelationalEdge,
  node_with_status, edge_with_status,
}
use shadows.Relational.Store.{
  RelationalGraphStore, has_node_id, has_edge_id, upsert_node, has_ends, upsert_edge, get_node,
  update_node_status, update_edge_status,
}

pub record View : Type 0 where
  pub node_of : String → Option RelationalNode
  pub edge_of : String → Option RelationalEdge

pub data StoreCall : Type 0 where
  put_node : RelationalNode → StoreCall
  put_edge : RelationalEdge → StoreCall
  set_node_status set_edge_status : String → EpistemicStatus → StoreCall

-- A call that raises has written nothing.
unfoldable pub perform : StoreCall → RelationalGraphStore → RelationalGraphStore
perform (put_node node) store = upsert_node node store
perform (put_edge edge) store = or_else (upsert_edge edge store) store
perform (set_node_status node_id status) store = update_node_status node_id status store
perform (set_edge_status edge_id status) store = update_edge_status edge_id status store

unfoldable pub perform_all : List StoreCall → RelationalGraphStore → RelationalGraphStore
perform_all [] store = store
perform_all (call ∷ calls) store = perform_all calls (perform call store)

abbrev pub view : RelationalGraphStore → View
view store = record {
  node_of = λ j. get_node j store;
  edge_of = λ j. select_one (has_edge_id j) store.edges;
}

abbrev pub rewritten_node : RelationalNode → RelationalNode → RelationalNode
rewritten_node node old = record node { created_at = old.created_at }

abbrev pub rewritten_edge : RelationalEdge → RelationalEdge → RelationalEdge
rewritten_edge edge old = record edge { created_at = old.created_at }

abbrev pub is_bound {ℓ} : {A : Type ℓ} → Option A → Bool
is_bound o = holds_at (λ _. true) o

-- The map with `k` bound to what `f` makes of its value.
abbrev pub rebound {ℓ} :
    {A : Type ℓ} → String → (Option A → Option A) → (String → Option A) → String → Option A
rebound k f m j = if k == j then f (m j) else m j

-- The maps after a call: an id is bound anew, its first time of creation kept; an edge only
-- between ids that are bound; a status is replaced where the id is bound.
unfoldable pub specified : StoreCall → View → View
specified (put_node node) v = record v {
  node_of = rebound node.node_id (λ o. merged (rewritten_node node) node o) v.node_of;
}
specified (put_edge edge) v =
    if is_bound (v.node_of edge.source_id) && is_bound (v.node_of edge.target_id)
    then record v {
      edge_of = rebound edge.edge_id (λ o. merged (rewritten_edge edge) edge o) v.edge_of;
    }
    else v
specified (set_node_status node_id status) v = record v {
  node_of = rebound node_id (λ o. map_option (node_with_status status) o) v.node_of;
}
specified (set_edge_status edge_id status) v = record v {
  edge_of = rebound edge_id (λ o. map_option (edge_with_status status) o) v.edge_of;
}

unfoldable pub specified_all : List StoreCall → View → View
specified_all [] v = v
specified_all (call ∷ calls) v = specified_all calls (specified call v)

-- Two texts that differ are not both equal to a third.
apart : (a b c : String) → (a == b) ≡ false → (c == a) ≡ true → (c == b) ≡ false
apart a b c h k = ground (arith, eq_iff a b, eq_iff c b, eq_iff c a)

updated-map :
    (A : Type 0) (id_of : A → String) (f : A → A) (k j : String) (o : Option A)
    → ((r : A) → o ≡ some r → (id_of r == j) ≡ true)
    → updated (λ r. id_of r == k) f o ≡ (if k == j then map_option f o else o)
updated-map A id_of f k j none hit = ground arith
updated-map A id_of f k j (some r) hit =
    ground (arith, hit r refl, eq_iff (id_of r) k, eq_iff (id_of r) j, eq_iff k j)

upsert-lookup :
    (A : Type 0) (id_of : A → String) (f : A → A) (row : A) (rows : List A) (j : String)
    → ((r : A) → id_of (f r) ≡ id_of row)
    → select_one (λ r. id_of r == j) (upsert (λ r. id_of r == id_of row) f row rows)
      ≡ rebound (id_of row) (λ o. merged f row o) (λ i. select_one (λ r. id_of r == i) rows) j
upsert-lookup A id_of f row rows j same = elim (Bool-cases (id_of row == j)) [
  | inl here ↦ rw here (
      subst
        (λ k.
          select_one (λ r. id_of r == k) (upsert (λ r. id_of r == id_of row) f row rows)
          ≡ merged f row (select_one (λ r. id_of r == k) rows))
        ((eq_iff (id_of row) j).0 here)
        (select_one-upsert (λ r. id_of r == id_of row) f row
          (λ r. (eq_iff (id_of (f r)) (id_of row)).1 (same r)) (eqb_refl (id_of row)) rows))
  | inr away ↦ rw away (
      select_one-upsert_other (λ r. id_of r == id_of row) (λ r. id_of r == j) f row
        (λ r. rw (same r) away) (λ r. apart (id_of row) j (id_of r) away) away rows)
]

status-lookup :
    (A : Type 0) (id_of : A → String) (f : A → A) (k j : String) (rows : List A)
    → ((r : A) → id_of (f r) ≡ id_of r)
    → select_one (λ r. id_of r == j) (update_where (λ r. id_of r == k) f rows)
      ≡ rebound k (λ o. map_option f o) (λ i. select_one (λ r. id_of r == i) rows) j
status-lookup A id_of f k j rows same =
    select_one-update (λ r. id_of r == j) (λ r. id_of r == k) f (λ r. ap (λ i. i == j) (same r))
      rows
    ∙ updated-map A id_of f k j (select_one (λ r. id_of r == j) rows)
        (select_one-sat (λ r. id_of r == j) rows)

pub has_ends-view :
    (edge : RelationalEdge) (store : RelationalGraphStore)
    → has_ends store.nodes edge
      ≡ (is_bound (get_node edge.source_id store) && is_bound (get_node edge.target_id store))
unfolding get_node
has_ends-view edge store =
    ap₂ (λ a b. a && b) (any-select_one (has_node_id edge.source_id) store.nodes)
      (any-select_one (has_node_id edge.target_id) store.nodes)

pub perform-specified :
    (call : StoreCall) (store : RelationalGraphStore)
    → view (perform call store) ≡ specified call (view store)
unfolding perform specified upsert_node upsert_edge get_node update_node_status update_edge_status
perform-specified (put_node node) store =
    ap (λ m. record (view store) { node_of = m })
      (fun_ext (λ j.
        upsert-lookup RelationalNode (λ n. n.node_id) (rewritten_node node) node store.nodes j
          (λ r. refl)))
perform-specified (put_edge edge) store = elim (Bool-cases (has_ends store.nodes edge)) [
  | inl there ↦
      rw (there, sym (has_ends-view edge store) ∙ there)
        (ap (λ m. record (view store) { edge_of = m })
          (fun_ext (λ j.
            upsert-lookup RelationalEdge (λ e. e.edge_id) (rewritten_edge edge) edge store.edges j
              (λ r. refl))))
  | inr missing ↦ rw (missing, sym (has_ends-view edge store) ∙ missing) refl
]
perform-specified (set_node_status node_id status) store =
    ap (λ m. record (view store) { node_of = m })
      (fun_ext (λ j.
        status-lookup RelationalNode (λ n. n.node_id) (node_with_status status) node_id j
          store.nodes (λ r. refl)))
perform-specified (set_edge_status edge_id status) store =
    ap (λ m. record (view store) { edge_of = m })
      (fun_ext (λ j.
        status-lookup RelationalEdge (λ e. e.edge_id) (edge_with_status status) edge_id j
          store.edges (λ r. refl)))

-- Seen as two maps, the store is after any sequence of calls what the specification of the calls
-- makes of the maps.
pub perform_all-specified :
    (calls : List StoreCall) (store : RelationalGraphStore)
    → view (perform_all calls store) ≡ specified_all calls (view store)
unfolding perform_all specified_all
perform_all-specified [] store = refl
perform_all-specified (call ∷ calls) store =
    perform_all-specified calls (perform call store)
    ∙ ap (specified_all calls) (perform-specified call store)
