-- ===== src/Relational/Store.antt =====
-- RelationalGraphStore (loop_engine/relational/graph_db.py): the two tables, in the order of
-- insertion, which is also the order of the rows of a query.
pub mod View
pub mod Integrity
use shadows.Prelude.{
  is_empty, any, ◌==◌, number_eq, text_eq, contains, select, select_one, update_where, upsert,
  String, Bool, true, ◌&&◌, ◌||◌, Option, none, some, List,
}
use shadows.Outcome.{integrity_error, Result, ok, ◌>>◌, guard}
use shadows.Relational.Schema.{
  EpistemicStatus, RelationType, status_eq, node_type_eq, relation_eq, RelationalNode,
  RelationalEdge, node_with_status, edge_with_status,
}

pub record RelationalGraphStore : Type 0 where
  pub nodes : List RelationalNode
  pub edges : List RelationalEdge

abbrev pub has_node_id : String → RelationalNode → Bool
has_node_id node_id node = node.node_id == node_id

abbrev pub has_edge_id : String → RelationalEdge → Bool
has_edge_id edge_id edge = edge.edge_id == edge_id

-- ON CONFLICT(node_id) DO UPDATE SET everything but `created_at`
unfoldable pub upsert_node : RelationalNode → RelationalGraphStore → RelationalGraphStore
upsert_node node store = record store {
  nodes =
      upsert (has_node_id node.node_id) (λ old. record node { created_at = old.created_at }) node
        store.nodes;
}

-- FOREIGN KEY(source_id), FOREIGN KEY(target_id)
abbrev pub has_ends : List RelationalNode → RelationalEdge → Bool
has_ends nodes edge =
    any (has_node_id edge.source_id) nodes && any (has_node_id edge.target_id) nodes

unfoldable pub upsert_edge : RelationalEdge → RelationalGraphStore → Result RelationalGraphStore
upsert_edge edge store = do
  guard (has_ends store.nodes edge) integrity_error
  ok (record store {
    edges =
        upsert (has_edge_id edge.edge_id) (λ old. record edge { created_at = old.created_at }) edge
          store.edges;
  })

unfoldable pub get_node : String → RelationalGraphStore → Option RelationalNode
get_node node_id store = select_one (has_node_id node_id) store.nodes

-- `not min_status or status in min_status`: no set and the empty set filter nothing.
abbrev pub is_allowed : Option (List EpistemicStatus) → EpistemicStatus → Bool
is_allowed none status = true
is_allowed (some statuses) status = is_empty statuses || contains status statuses

-- `AND relation_type = ?`, if a relation is asked for
abbrev pub is_related : Option RelationType → RelationalEdge → Bool
is_related none edge = true
is_related (some relation_type) edge = edge.relation_type == relation_type

unfoldable pub get_outgoing_edges :
    String
    → Option RelationType
    → Option (List EpistemicStatus)
    → RelationalGraphStore
    → List RelationalEdge
get_outgoing_edges source_id relation_type min_status store =
    select (λ edge. is_allowed min_status edge.epistemic_status)
      (select (λ edge. edge.source_id == source_id && is_related relation_type edge) store.edges)

unfoldable pub get_incoming_edges :
    String
    → Option RelationType
    → Option (List EpistemicStatus)
    → RelationalGraphStore
    → List RelationalEdge
get_incoming_edges target_id relation_type min_status store =
    select (λ edge. is_allowed min_status edge.epistemic_status)
      (select (λ edge. edge.target_id == target_id && is_related relation_type edge) store.edges)

unfoldable pub update_node_status :
    String → EpistemicStatus → RelationalGraphStore → RelationalGraphStore
update_node_status node_id new_status store = record store {
  nodes = update_where (has_node_id node_id) (node_with_status new_status) store.nodes;
}

unfoldable pub update_edge_status :
    String → EpistemicStatus → RelationalGraphStore → RelationalGraphStore
update_edge_status edge_id new_status store = record store {
  edges = update_where (has_edge_id edge_id) (edge_with_status new_status) store.edges;
}
