-- ===== src/Relational/Scheduler.antt =====
-- DependencyScheduler (loop_engine/relational/dependency_scheduler.py) and the recursive query
-- that it asks (find_transitive_dependencies of graph_db.py). A dictionary is a list of pairs, a
-- set a list; the loop of the topological order runs on fuel.
pub mod Degrees
pub mod Release
pub mod Ends
pub mod Order
pub mod Complete
pub mod Acyclic
use shadows.Prelude.{
  nat_beq, if◌then◌else◌, length, number_eq, text_eq, contains, get_item, set_item, ℕ, zero, suc,
  ◌+◌, String, Bool, Option, none, some, List, [], ◌∷◌, ◌++◌,
}
use shadows.Relational.Schema.{
  requires, depends_on, status_eq, node_type_eq, relation_eq, RelationalNode, RelationalEdge,
}

-- relation_type in {REQUIRES, DEPENDS_ON}
unfoldable pub is_dependency : RelationalEdge → Bool
is_dependency edge = contains edge.relation_type (requires ∷ depends_on ∷ [])

abbrev or_zero : Option ℕ → ℕ
or_zero none = 0
or_zero (some n) = n

abbrev or_nil : Option (List String) → List String
or_nil none = []
or_nil (some xs) = xs

-- `in_degree.get(v, 0)`
abbrev pub degree : String → List (String × ℕ) → ℕ
degree v in_degree = or_zero (get_item v in_degree)

-- `adj_list[v]` of the defaultdict
abbrev pub neighbors : String → List (String × List String) → List String
neighbors v adj_list = or_nil (get_item v adj_list)

-- {n.node_id: 0 for n in nodes} and {n.node_id: n for n in nodes}
unfoldable pub zero_degrees : List RelationalNode → List (String × ℕ) → List (String × ℕ)
zero_degrees [] d = d
zero_degrees (n ∷ nodes) d = zero_degrees nodes (set_item n.node_id 0 d)

unfoldable pub node_map :
    List RelationalNode → List (String × RelationalNode) → List (String × RelationalNode)
node_map [] d = d
node_map (n ∷ nodes) d = node_map nodes (set_item n.node_id n d)

pub record Dependencies : Type 0 where
  pub adj_list : List (String × List String)
  pub in_degree : List (String × ℕ)

abbrev pub counted : RelationalEdge → Dependencies → Dependencies
counted edge g = record {
  adj_list =
      set_item edge.target_id (neighbors edge.target_id g.adj_list ++ edge.source_id ∷ [])
        g.adj_list;
  in_degree = set_item edge.source_id (degree edge.source_id g.in_degree + 1) g.in_degree;
}

-- for edge in edges: ...
unfoldable pub count_edges : List RelationalEdge → Dependencies → Dependencies
count_edges [] g = g
count_edges (edge ∷ edges) g = count_edges edges (if is_dependency edge then counted edge g else g)

-- [nid for nid, deg in in_degree.items() if deg == 0]
unfoldable pub sources_of : List (String × ℕ) → List String
sources_of [] = []
sources_of (item ∷ items) =
    let rest = sources_of items in if nat_beq item.1 0 then item.0 ∷ rest else rest

pub record Kahn : Type 0 where
  pub in_degree : List (String × ℕ)
  pub queue : List String
  pub ordered : List RelationalNode

-- The neighbour's degree is lowered from `n`. A degree that is no more than zero is lowered
-- without effect, since it is not zero afterwards.
abbrev pub lowered : ℕ → String → Kahn → Kahn
lowered zero v s = s
lowered (suc d) v s = record s {
  in_degree = set_item v d s.in_degree;
  queue = if nat_beq d 0 then s.queue ++ v ∷ [] else s.queue;
}

-- for neighbor_id in adj_list[curr_id]: ...
unfoldable pub release : List String → Kahn → Kahn
release [] s = s
release (v ∷ vs) s = release vs (lowered (degree v s.in_degree) v s)

-- `if curr_id in node_map: ordered.append(node_map[curr_id])`
abbrev pub appended : Option RelationalNode → List RelationalNode → List RelationalNode
appended none ordered = ordered
appended (some node) ordered = ordered ++ node ∷ []

module _ (nodes : List RelationalNode) (adj_list : List (String × List String)) where
  -- The body of the loop, after `curr_id` left the head of the queue.
  unfoldable pub schedule : String → Kahn → Kahn
  schedule curr_id s =
      release (neighbors curr_id adj_list)
        (record s { ordered = appended (get_item curr_id (node_map nodes [])) s.ordered })

  unfoldable pub run : ℕ → Kahn → Option Kahn
  run zero s = elim s.queue [ [] ↦ some s | _ ∷ _ ↦ none ]
  run (suc fuel) s = elim s.queue [
    | [] ↦ some s
    | curr_id ∷ rest ↦ run fuel (schedule curr_id (record s { queue = rest }))
  ]

-- What `compute_topological_order` comes to.
pub data Schedule : Type 0 where
  scheduled : List RelationalNode → Schedule
  cyclic_dependency_error out_of_fuel : Schedule

abbrev pub dependencies : List RelationalNode → List RelationalEdge → Dependencies
dependencies nodes edges =
    count_edges edges (record { adj_list = []; in_degree = zero_degrees nodes [] })

abbrev pub kahn_start : Dependencies → Kahn
kahn_start g = record { in_degree = g.in_degree; queue = sources_of g.in_degree; ordered = [] }

-- if len(ordered) != len(nodes): raise
abbrev pub concluded : List RelationalNode → Option Kahn → Schedule
concluded nodes none = out_of_fuel
concluded nodes (some s) =
    if nat_beq (length s.ordered) (length nodes)
    then scheduled s.ordered
    else cyclic_dependency_error

-- Each id is queued once at most.
unfoldable pub compute_topological_order : List RelationalNode → List RelationalEdge → Schedule
compute_topological_order nodes edges =
    let g = dependencies nodes edges in
    concluded nodes (run nodes g.adj_list (length g.in_degree) (kahn_start g))
