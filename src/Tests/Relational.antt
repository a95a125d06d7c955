-- ===== src/Tests/Relational.antt =====
-- The theorems on the relational graph at concrete inputs: `b` is derived from `a`, and `c` depends
-- on `b`.
use shadows.Prelude.{
  if◌then◌else◌, length, any, All, ◌==◌, number_eq, text_eq, contains, ℕ, ◌≤◌, ◌<◌, String, ◌≡◌,
  refl, ◌↔◌, ◌⊎◌, true, false, none, some, List, [], ◌∷◌,
}
use shadows.Outcome.{value_error, raise, ok}
use shadows.Relational.Schema.{
  verified, qualified, contested, invalidated, claim, RelationType, depends_on, derived_from,
  status_eq, node_type_eq, relation_eq, RelationalNode, RelationalEdge,
}
use shadows.Relational.Store.{
  RelationalGraphStore, upsert_node, upsert_edge, get_node, update_node_status, update_edge_status,
}
use shadows.Relational.Store.View.{
  StoreCall, put_node, put_edge, set_node_status, set_edge_status, perform, perform_all, view,
  is_bound, specified_all, perform_all-specified,
}
use shadows.Relational.Store.Integrity.{IsConsistent, perform_all-IsConsistent}
use shadows.Relational.Truth.{retract_and_cascade, downgrade_evidence}
use shadows.Relational.Truth.Reach.{Rests, Outcome}
use shadows.Relational.Truth.Correct.{status_at, downgrade_cases, retract_decides}
use shadows.Relational.Scheduler.{
  is_dependency, scheduled, cyclic_dependency_error, compute_topological_order,
}
use shadows.Relational.Scheduler.Release.{ids}
use shadows.Relational.Scheduler.Complete.{respects, order_sound}
use shadows.Relational.Scheduler.Acyclic.{leads_down, acyclic_scheduled}
use shadows.Relational.Frontier.{get_ready_frontier}
use shadows.Relational.Frontier.Ready.{is_live, ids_of, holds_up, InTree, ready_iff}

abbrev a_node : String → RelationalNode
a_node node_id = record {
  node_id = node_id;
  node_type = claim;
  label = node_id;
  properties = [];
  epistemic_status = verified;
  provenance_digest = "";
  created_at = "monday";
}

abbrev an_edge : String → String → String → RelationType → RelationalEdge
an_edge edge_id source_id target_id relation_type = record {
  edge_id = edge_id;
  source_id = source_id;
  target_id = target_id;
  relation_type = relation_type;
  epistemic_status = verified;
  modality = "Structural";
  confidence = 1;
  created_at = "monday";
  metadata = [];
}

abbrev three_nodes : List RelationalNode
three_nodes = a_node "a" ∷ a_node "b" ∷ a_node "c" ∷ []

abbrev two_edges : List RelationalEdge
two_edges = an_edge "ba" "b" "a" derived_from ∷ an_edge "cb" "c" "b" depends_on ∷ []

abbrev graph : RelationalGraphStore
graph = record { nodes = three_nodes; edges = two_edges }

abbrev empty_graph : RelationalGraphStore
empty_graph = record { nodes = []; edges = [] }

abbrev building : List StoreCall
building =
    put_node (a_node "a")
    ∷ put_edge (an_edge "ba" "b" "a" derived_from)
    ∷ put_node (a_node "b")
    ∷ put_edge (an_edge "ba" "b" "a" derived_from)
    ∷ set_edge_status "ba" contested
    ∷ set_node_status "a" qualified
    ∷ []

building_edges : length (perform_all building empty_graph).edges ≡ 1
unfolding perform_all perform upsert_node upsert_edge update_node_status update_edge_status
building_edges = refl

perform_all-specified_example :
    view (perform_all building empty_graph) ≡ specified_all building (view empty_graph)
perform_all-specified_example = perform_all-specified building empty_graph

empty_graph-IsConsistent : IsConsistent empty_graph
empty_graph-IsConsistent = record { node_key = λ j. tt; edge_key = λ j. tt; joined = tt }

perform_all-IsConsistent_example : IsConsistent (perform_all building empty_graph)
perform_all-IsConsistent_example =
    perform_all-IsConsistent building empty_graph empty_graph-IsConsistent

abbrev noon : ℕ → String
noon n = "noon"

retract_decides_example :
    (out : List String) × (after : RelationalGraphStore) × (retract_and_cascade noon "a" "forged"
        graph
      ≡ some (out, after))
    × ((v : String)
        → ((contains v out ≡ true)
            ↔ (Rests graph.edges "a" v × (is_bound (get_node v graph) ≡ true)))
          × Outcome "forged" (contains v out) (get_node v graph) (get_node v after))
retract_decides_example = retract_decides noon "a" "forged" graph

a_there : get_node "a" graph ≡ some (a_node "a")
unfolding get_node
a_there = refl

downgrade_cases_example :
    ((7 < 3) × (downgrade_evidence noon "a" contested "forged" graph ≡ raise value_error))
    ⊎ ((3 ≤ 7)
        × ((out : List String × RelationalGraphStore) × (downgrade_evidence noon "a" contested
                "forged" graph
              ≡ ok (some out))
            × (status_at "a" out.1 ≡ some invalidated)))
downgrade_cases_example = downgrade_cases noon "a" "forged" graph (a_node "a") a_there contested

order_sound_example :
    (compute_topological_order three_nodes two_edges ≡ cyclic_dependency_error)
    ⊎ ((ordered : List RelationalNode) × (compute_topological_order three_nodes two_edges
          ≡ scheduled ordered)
        × All (λ e. respects three_nodes ordered e ≡ true) two_edges)
order_sound_example = order_sound three_nodes two_edges

abbrev rank : String → ℕ
rank v = if v == "c" then 1 else 0

two_edges-down : All (λ e. leads_down rank (ids three_nodes) e ≡ true) two_edges
unfolding is_dependency
two_edges-down = (refl, (refl, tt))

acyclic_scheduled_example :
    (ordered : List RelationalNode) × (compute_topological_order three_nodes two_edges
      ≡ scheduled ordered)
    × (length ordered ≡ 3)
    × ((v : String) → contains v (ids ordered) ≡ contains v (ids three_nodes))
acyclic_scheduled_example = acyclic_scheduled three_nodes two_edges rank refl two_edges-down

ready_iff_example :
    (contains {A = String} "b" (ids_of (get_ready_frontier "c" ("a" ∷ []) none graph)) ≡ true) ↔ (
      InTree "c" ("a" ∷ []) none graph "b"
      × (contains {A = String} "b" ("a" ∷ []) ≡ false)
      × (any (holds_up "c" ("a" ∷ []) none graph "b") graph.edges ≡ false)
      × (is_live (get_node "b" graph) ≡ true))
ready_iff_example = ready_iff "c" ("a" ∷ []) none graph "b"
