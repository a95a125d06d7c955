-- ===== src/Relational/Truth.antt =====
-- TruthMaintenanceEngine (loop_engine/relational/truth_maintenance.py). `clock n` is the n-th
-- reading of the clock. The `while` loop runs on fuel.
pub mod Turn
pub mod Steps
pub mod Ends
pub mod Reach
pub mod Correct
use shadows.Prelude.{
  leb, if◌then◌else◌, length, number_eq, text_eq, contains, set_item, ℕ, zero, suc, String, Bool,
  Option, none, some, map_option, List, [], ◌∷◌, ◌++◌,
}
use shadows.Outcome.{value_error, Result, ok, ◌>>◌, guard}
use shadows.Relational.Schema.{
  EpistemicStatus, proposed, inferred, observed, verified, qualified, authoritative, contested,
  superseded, invalidated, RelationType, supported_by, derived_from, status_eq, node_type_eq,
  relation_eq, text, RelationalNode, RelationalEdge,
}
use shadows.Relational.Store.{
  RelationalGraphStore, upsert_node, get_node, get_outgoing_edges, get_incoming_edges,
  update_node_status, update_edge_status,
}

-- The variables of `retract_and_cascade`, and the store.
pub record Cascade : Type 0 where
  pub queue : List String
  pub visited : List String
  pub invalidated_node_ids : List String
  pub store : RelationalGraphStore

-- relation_type in {DERIVED_FROM, SUPPORTED_BY}
abbrev pub is_justification : RelationType → Bool
is_justification relation_type = contains relation_type (derived_from ∷ supported_by ∷ [])

abbrev pub updated_node : String → String → RelationalNode → RelationalNode
updated_node reason now node = record {
  node_id = node.node_id;
  node_type = node.node_type;
  label = node.label;
  properties =
      set_item "invalidated_at" (text now)
        (set_item "invalidation_reason" (text reason) node.properties);
  epistemic_status = invalidated;
  provenance_digest = node.provenance_digest;
  created_at = node.created_at;
}

-- 1. Invalidate current node
unfoldable pub invalidate_node : String → String → String → Cascade → Cascade
invalidate_node reason now curr_id c = elim (get_node curr_id c.store) [
  | none ↦ c
  | some node ↦ record c {
    store = upsert_node (updated_node reason now node) c.store;
    invalidated_node_ids = c.invalidated_node_ids ++ curr_id ∷ [];
  }
]

-- for edge in incoming: ...
unfoldable pub cascade_incoming : List RelationalEdge → Cascade → Cascade
cascade_incoming [] c = c
cascade_incoming (edge ∷ incoming) c = cascade_incoming incoming (
    if is_justification edge.relation_type
    then record c {
      store = update_edge_status edge.edge_id invalidated c.store;
      queue = c.queue ++ edge.source_id ∷ [];
    }
    else c)

-- for edge in outgoing: ...
unfoldable pub cascade_outgoing : List RelationalEdge → Cascade → Cascade
cascade_outgoing [] c = c
cascade_outgoing (edge ∷ outgoing) c =
    cascade_outgoing outgoing
      (record c { store = update_edge_status edge.edge_id invalidated c.store })

-- 2. Find all incoming and outgoing justification edges to cascade
unfoldable pub cascade_edges : String → Cascade → Cascade
cascade_edges curr_id c =
    let c' = cascade_incoming (get_incoming_edges curr_id none none c.store) c in
    cascade_outgoing (get_outgoing_edges curr_id none none c'.store) c'

module _ (clock : ℕ → String) (reason : String) where
  -- The body of the loop, after `curr_id` left the head of the queue.
  unfoldable pub turn : String → Cascade → Cascade
  turn curr_id c =
      if contains curr_id c.visited
      then c
      else cascade_edges curr_id (
          invalidate_node reason (clock (length c.visited)) curr_id
            (record c { visited = curr_id ∷ c.visited }))

  unfoldable pub cascade : ℕ → Cascade → Option Cascade
  cascade zero c = elim c.queue [ [] ↦ some c | _ ∷ _ ↦ none ]
  cascade (suc fuel) c = elim c.queue [
    | [] ↦ some c
    | curr_id ∷ rest ↦ cascade fuel (turn curr_id (record c { queue = rest }))
  ]

abbrev pub started : String → RelationalGraphStore → Cascade
started falsified_node_id store = record {
  queue = falsified_node_id ∷ [];
  visited = [];
  invalidated_node_ids = [];
  store = store;
}

abbrev pub returned : Cascade → List String × RelationalGraphStore
returned c = (c.invalidated_node_ids, c.store)

-- Each edge is followed once at most, and the falsified node is popped once.
unfoldable pub retract_and_cascade :
    (ℕ → String)
    → String
    → String
    → RelationalGraphStore
    → Option (List String × RelationalGraphStore)
retract_and_cascade clock falsified_node_id reason store =
    map_option returned
      (cascade clock reason (suc (length store.edges)) (started falsified_node_id store))

-- `status_rank`, three higher, so that no rank is negative
abbrev pub status_rank : EpistemicStatus → ℕ
status_rank authoritative = 9
status_rank qualified = 8
status_rank verified = 7
status_rank observed = 6
status_rank proposed = 5
status_rank inferred = 4
status_rank contested = 3
status_rank invalidated = 2
status_rank superseded = 1

unfoldable pub downgrade_evidence :
    (ℕ → String)
    → String
    → EpistemicStatus
    → String
    → RelationalGraphStore
    → Result (Option (List String × RelationalGraphStore))
downgrade_evidence clock evidence_node_id downgraded_status reason store =
    elim (get_node evidence_node_id store) [
      | none ↦ ok (some ([], store))
      | some node ↦ do
        guard (leb (status_rank downgraded_status) (status_rank node.epistemic_status)) value_error
        let store' = update_node_status evidence_node_id downgraded_status store in
            ok (
              if contains downgraded_status (invalidated ∷ contested ∷ [])
              then retract_and_cascade clock evidence_node_id reason store'
              else some (evidence_node_id ∷ [], store'))
    ]
