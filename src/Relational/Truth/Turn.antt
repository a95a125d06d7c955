-- ===== src/Relational/Truth/Turn.antt =====
-- What one turn of the cascade does to the queue, the nodes and the edges.
use mathlib.Core.List.{append-nil, append_assoc}
use shadows.Prelude.{
  if◌then◌else◌, Bool-cases, ◌==◌, number_eq, text_eq, select, update_where, String, ◌≡◌, refl, sym,
  ap, ◌∙◌, subst, inl, inr, ◌&&◌, none, List, [], ◌∷◌, ◌++◌, map, arith,
}
use shadows.Relational.Schema.{
  invalidated, status_eq, node_type_eq, relation_eq, RelationalEdge, edge_with_status,
}
use shadows.Relational.Store.{
  has_edge_id, is_allowed, is_related, get_outgoing_edges, get_incoming_edges, update_edge_status,
}
use shadows.Relational.Truth.{
  Cascade, is_justification, cascade_incoming, cascade_outgoing, cascade_edges,
}

-- The edges but for their status, which is all that the cascade changes of them.
abbrev pub shape : List RelationalEdge → List RelationalEdge
shape edges = map (edge_with_status invalidated) edges

-- The sources of the justification edges into a node.
abbrev pub sources : String → List RelationalEdge → List String
sources u [] = []
sources u (e ∷ edges) =
    let rest = sources u edges in
    if (e.target_id == u) && is_justification e.relation_type then e.source_id ∷ rest else rest

sources-shape :
    (u : String) (edges : List RelationalEdge) → sources u (shape edges) ≡ sources u edges
sources-shape u [] = refl
sources-shape u (e ∷ edges) = ground (arith, sources-shape u edges)

shape-update :
    (i : String) (edges : List RelationalEdge)
    → shape (update_where (has_edge_id i) (edge_with_status invalidated) edges) ≡ shape edges
shape-update i [] = refl
shape-update i (e ∷ edges) = ground (arith, shape-update i edges)

pub sources_of_shape :
    (u : String) (xs ys : List RelationalEdge) → shape xs ≡ shape ys → sources u xs ≡ sources u ys
sources_of_shape u xs ys h = sym (sources-shape u xs) ∙ ap (sources u) h ∙ sources-shape u ys

-- What a part of a turn may change: the queue grows by `new`, the status of edges.
pub record Spreads (new : List String) (c d : Cascade) : Type 0 where
  pub queued : d.queue ≡ c.queue ++ new
  pub visits : d.visited ≡ c.visited
  pub listed : d.invalidated_node_ids ≡ c.invalidated_node_ids
  pub nodes : d.store.nodes ≡ c.store.nodes
  pub shaped : shape d.store.edges ≡ shape c.store.edges

Spreads-trans :
    (xs ys : List String) (c d e : Cascade)
    → Spreads xs c d
    → Spreads ys d e
    → Spreads (xs ++ ys) c e
Spreads-trans xs ys c d e h k = record {
  queued = k.queued ∙ ap (λ q. q ++ ys) h.queued ∙ append_assoc c.queue xs ys;
  visits = k.visits ∙ h.visits;
  listed = k.listed ∙ h.listed;
  nodes = k.nodes ∙ h.nodes;
  shaped = k.shaped ∙ h.shaped;
}

Spreads-refl : (c : Cascade) → Spreads [] c c
Spreads-refl c = record {
  queued = sym (append-nil c.queue);
  visits = refl;
  listed = refl;
  nodes = refl;
  shaped = refl;
}

-- The sources of the justification edges among these.
followed : List RelationalEdge → List String
followed [] = []
followed (e ∷ edges) =
    let rest = followed edges in
    if is_justification e.relation_type then e.source_id ∷ rest else rest

followed-select :
    (u : String) (edges : List RelationalEdge)
    → followed (
        select
          (λ e. is_allowed none e.epistemic_status)
          (select (λ e. e.target_id == u && is_related none e) edges))
      ≡ sources u edges
unfolding followed
followed-select u [] = refl
followed-select u (e ∷ edges) = ground (arith, followed-select u edges)

cascade_incoming-Spreads :
    (edges : List RelationalEdge) (c : Cascade)
    → Spreads (followed edges) c (cascade_incoming edges c)
unfolding cascade_incoming followed update_edge_status
cascade_incoming-Spreads [] c = Spreads-refl c
cascade_incoming-Spreads (e ∷ edges) c = elim (Bool-cases (is_justification e.relation_type)) [
  | inl hit ↦
      let d = record c {
        store = update_edge_status e.edge_id invalidated c.store;
        queue = c.queue ++ e.source_id ∷ [];
      } in
      rw hit (
        Spreads-trans (e.source_id ∷ []) (followed edges) c d (cascade_incoming edges d)
          (record {
            queued = refl;
            visits = refl;
            listed = refl;
            nodes = refl;
            shaped = shape-update e.edge_id c.store.edges;
          })
          (cascade_incoming-Spreads edges d))
  | inr miss ↦ rw miss (cascade_incoming-Spreads edges c)
]

cascade_outgoing-Spreads :
    (edges : List RelationalEdge) (c : Cascade) → Spreads [] c (cascade_outgoing edges c)
unfolding cascade_outgoing update_edge_status
cascade_outgoing-Spreads [] c = Spreads-refl c
cascade_outgoing-Spreads (e ∷ edges) c =
    let d = record c { store = update_edge_status e.edge_id invalidated c.store } in
    Spreads-trans [] [] c d (cascade_outgoing edges d)
      (record {
        queued = sym (append-nil c.queue);
        visits = refl;
        listed = refl;
        nodes = refl;
        shaped = shape-update e.edge_id c.store.edges;
      })
      (cascade_outgoing-Spreads edges d)

pub cascade_edges-Spreads :
    (u : String) (c : Cascade) → Spreads (sources u c.store.edges) c (cascade_edges u c)
unfolding cascade_edges get_incoming_edges get_outgoing_edges
cascade_edges-Spreads u c =
    let incoming = get_incoming_edges u none none c.store in
    let d = cascade_incoming incoming c in
    let outgoing = get_outgoing_edges u none none d.store in
    subst (λ xs. Spreads xs c (cascade_outgoing outgoing d))
      (append-nil (followed incoming) ∙ followed-select u c.store.edges)
      (Spreads-trans (followed incoming) [] c d (cascade_outgoing outgoing d)
        (cascade_incoming-Spreads incoming c) (cascade_outgoing-Spreads outgoing d))
