-- ===== src/Relational/Frontier.antt =====
-- The recursive query find_transitive_dependencies (loop_engine/relational/graph_db.py) and
-- DependencyScheduler.get_ready_frontier (loop_engine/relational/dependency_scheduler.py). Rows of
-- one depth come in the order in which they are found; a set is a list.
pub mod Walks
pub mod Ready
use shadows.Prelude.{
  if◌then◌else◌, any, ◌==◌, number_eq, text_eq, contains, select, ℕ, zero, suc, String, Bool, not,
  ◌&&◌, Option, none, some, List, [], ◌∷◌, ◌++◌, map,
}
use shadows.Relational.Schema.{
  EpistemicStatus, invalidated, RelationType, requires, depends_on, decomposes_into, status_eq,
  node_type_eq, relation_eq, RelationalNode, RelationalEdge,
}
use shadows.Relational.Store.{RelationalGraphStore, get_node, is_allowed, get_outgoing_edges}

-- The set's items, each once.
abbrev pub unique : List String → List String
unique [] = []
unique (x ∷ xs) = let rest = unique xs in if contains x rest then rest else x ∷ rest

-- SELECT target_id FROM graph_edges WHERE source_id = ? AND ...
abbrev pub targets : (RelationalEdge → Bool) → String → List RelationalEdge → List String
targets followed u edges =
    map (λ e. e.target_id) (select (λ e. e.source_id == u && followed e) edges)

abbrev pub targets_all : (RelationalEdge → Bool) → List String → List RelationalEdge → List String
targets_all followed [] edges = []
targets_all followed (u ∷ us) edges = targets followed u edges ++ targets_all followed us edges

-- The rows of a depth from those of the depth before: UNION drops the row that is there.
unfoldable pub next_level :
    (RelationalEdge → Bool) → List RelationalEdge → List String → List String
next_level followed edges us = unique (targets_all followed us edges)

-- The rows of `levels` depths from `depth` on.
unfoldable pub dependency_tree :
    (RelationalEdge → Bool) → List RelationalEdge → ℕ → ℕ → List String → List (String × ℕ)
dependency_tree followed edges zero depth level = []
dependency_tree followed edges (suc levels) depth level =
    map (λ v. (v, depth)) level
    ++ dependency_tree followed edges levels (suc depth) (next_level followed edges level)

-- GROUP BY node_id, with the least depth: the first row of a node is the one.
abbrev pub grouped : List (String × ℕ) → List (String × ℕ)
grouped [] = []
grouped (row ∷ rows) = row ∷ select (λ r. not (r.0 == row.0)) (grouped rows)

-- relation_type IN (...) AND epistemic_status IN (...)
abbrev pub is_followed : List RelationType → Option (List EpistemicStatus) → RelationalEdge → Bool
is_followed relation_types statuses e =
    contains e.relation_type relation_types && is_allowed statuses e.epistemic_status

-- WHERE dt.depth < 50
unfoldable pub find_transitive_dependencies :
    String
    → List RelationType
    → Option (List EpistemicStatus)
    → RelationalGraphStore
    → List (String × ℕ)
find_transitive_dependencies start relation_types statuses store =
    let followed = is_followed relation_types statuses in
    grouped
      (dependency_tree followed store.edges 50 1 (next_level followed store.edges (start ∷ [])))

abbrev pub tree_relations : List RelationType
tree_relations = requires ∷ depends_on ∷ decomposes_into ∷ []

-- sub_node_ids
unfoldable pub sub_node_ids :
    String → Option (List EpistemicStatus) → RelationalGraphStore → List String
sub_node_ids root statuses store =
    let found =
      map (λ row. row.0) (find_transitive_dependencies root tree_relations statuses store) in
    if contains root found then found else found ++ root ∷ []

-- is_blocked
unfoldable pub is_blocked :
    List String → List String → Option (List EpistemicStatus) → RelationalGraphStore → String → Bool
is_blocked sub completed statuses store nid =
    any (λ e. contains e.target_id sub && not (contains e.target_id completed))
      (get_outgoing_edges nid (some depends_on) statuses store)

abbrev pub live : Option RelationalNode → Option RelationalNode
live none = none
live (some node) = if node.epistemic_status == invalidated then none else some node

abbrev pub listed : Option RelationalNode → List RelationalNode → List RelationalNode
listed none ready = ready
listed (some node) ready = node ∷ ready

-- for nid in sub_node_ids: ...
unfoldable pub ready_among :
    (is_completed is_blocked_here : String → Bool)
    → RelationalGraphStore
    → List String
    → List RelationalNode
ready_among is_completed is_blocked_here store [] = []
ready_among is_completed is_blocked_here store (nid ∷ nids) =
    let rest = ready_among is_completed is_blocked_here store nids in
    if is_completed nid
    then rest
    else if is_blocked_here nid
    then rest
    else listed (live (get_node nid store)) rest

unfoldable pub get_ready_frontier :
    String
    → List String
    → Option (List EpistemicStatus)
    → RelationalGraphStore
    → List RelationalNode
get_ready_frontier root completed statuses store =
    let sub = sub_node_ids root statuses store in
    ready_among (λ nid. contains nid completed) (is_blocked sub completed statuses store) store sub
