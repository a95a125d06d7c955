-- ===== src/Relational/Truth/Steps.antt =====
-- One turn of the cascade as a whole: what it visits, queues, invalidates, and what is left to do.
use mathlib.Core.List.{append-nil}
use shadows.Prelude.{
  length, ◌==◌, number_eq, text_eq, contains, select_one, select_one-sat, merged, ℕ, String, ◌≡◌,
  refl, sym, ap, ap₂, ◌∙◌, subst, true, false, Option, none, some, List, [], ◌∷◌, ◌++◌, eq_iff,
}
use shadows.Relational.Schema.{status_eq, node_type_eq, relation_eq, RelationalNode}
use shadows.Relational.Store.{RelationalGraphStore, has_node_id, upsert_node, get_node}
use shadows.Relational.Store.View.{
  put_node, perform, rewritten_node, rebound, specified, perform-specified,
}
use shadows.Relational.Truth.{Cascade, updated_node, invalidate_node, cascade_edges, turn}
use shadows.Relational.Truth.Turn.{shape, sources, cascade_edges-Spreads}

-- What a retraction makes of the node of an id.
abbrev pub Retracted : String → Option RelationalNode → Option RelationalNode → Type 0
Retracted reason none o = o ≡ none
Retracted reason (some node) o = (now : String) × (o ≡ some (updated_node reason now node))

abbrev pub listing : String → Option RelationalNode → List String
listing u none = []
listing u (some _) = u ∷ []

-- What a turn does after `u` was marked as visited.
pub record Visits (reason u : String) (c d : Cascade) : Type 0 where
  pub queued : d.queue ≡ c.queue ++ sources u c.store.edges
  pub visits : d.visited ≡ c.visited
  pub listed : d.invalidated_node_ids ≡ c.invalidated_node_ids ++ listing u (get_node u c.store)
  pub shaped : shape d.store.edges ≡ shape c.store.edges
  pub retracts : Retracted reason (get_node u c.store) (get_node u d.store)
  pub keeps : (j : String) → (u == j) ≡ false → get_node j d.store ≡ get_node j c.store

edges-upsert_node :
    (node : RelationalNode) (s : RelationalGraphStore) → (upsert_node node s).edges ≡ s.edges
unfolding upsert_node
edges-upsert_node node s = refl

get_node-nodes :
    (j : String) (s t : RelationalGraphStore) → s.nodes ≡ t.nodes → get_node j s ≡ get_node j t
unfolding get_node
get_node-nodes j s t h = ap (select_one (has_node_id j)) h

get_node-upsert :
    (j : String) (node : RelationalNode) (s : RelationalGraphStore)
    → get_node j (upsert_node node s)
      ≡ rebound node.node_id (λ o. merged (rewritten_node node) node o) (λ i. get_node i s) j
unfolding perform specified
get_node-upsert j node s = ap (λ v. v.node_of j) (perform-specified (put_node node) s)

node_id-get_node :
    (u : String) (s : RelationalGraphStore) (node : RelationalNode)
    → get_node u s ≡ some node
    → node.node_id ≡ u
unfolding get_node
node_id-get_node u s node h =
    (eq_iff node.node_id u).0 (select_one-sat (has_node_id u) s.nodes node h)

module _ (reason now u : String) (s : RelationalGraphStore) (node : RelationalNode) where
  abbrev retracted_store : RelationalGraphStore
  retracted_store = upsert_node (updated_node reason now node) s

  get_node-retracted :
      get_node u s ≡ some node → get_node u retracted_store ≡ some (updated_node reason now node)
  get_node-retracted h =
      get_node-upsert u (updated_node reason now node) s
      ∙ rw ((eq_iff node.node_id u).1 (node_id-get_node u s node h), h) refl

  get_node-unretracted :
      get_node u s ≡ some node
      → (j : String) → (u == j) ≡ false
      → get_node j retracted_store ≡ get_node j s
  get_node-unretracted h j away =
      get_node-upsert j (updated_node reason now node) s
      ∙ rw (ap (λ i. i == j) (node_id-get_node u s node h) ∙ away) refl

module _ (reason now u : String) (c : Cascade) where
  -- The node is invalidated before its edges are followed.
  record Invalidates (d : Cascade) : Type 0 where
    queued : d.queue ≡ c.queue
    visits : d.visited ≡ c.visited
    listed : d.invalidated_node_ids ≡ c.invalidated_node_ids ++ listing u (get_node u c.store)
    edges : d.store.edges ≡ c.store.edges
    retracts : Retracted reason (get_node u c.store) (get_node u d.store)
    keeps : (j : String) → (u == j) ≡ false → get_node j d.store ≡ get_node j c.store

  invalidate_node-Invalidates : Invalidates (invalidate_node reason now u c)
  unfolding invalidate_node
  invalidate_node-Invalidates = split (get_node u c.store) refl
    where
      split :
          (o : Option RelationalNode)
          → get_node u c.store ≡ o
          → Invalidates (elim o [
            | none ↦ c
            | some node ↦ record c {
              store = upsert_node (updated_node reason now node) c.store;
              invalidated_node_ids = c.invalidated_node_ids ++ u ∷ [];
            }
          ])
      split none e = record {
        queued = refl;
        visits = refl;
        listed = rw e (sym (append-nil c.invalidated_node_ids));
        edges = refl;
        retracts = rw e refl;
        keeps = λ j h. refl;
      }
      split (some node) e = record {
        queued = refl;
        visits = refl;
        listed = rw e refl;
        edges = edges-upsert_node (updated_node reason now node) c.store;
        retracts = rw e (now, get_node-retracted reason now u c.store node e);
        keeps = get_node-unretracted reason now u c.store node e;
      }

  edges-Visits : (d : Cascade) → Invalidates d → Visits reason u c (cascade_edges u d)
  edges-Visits d h =
      let k = cascade_edges-Spreads u d in
      record {
        queued = k.queued ∙ ap₂ (λ q es. q ++ sources u es) h.queued h.edges;
        visits = k.visits ∙ h.visits;
        listed = k.listed ∙ h.listed;
        shaped = k.shaped ∙ ap shape h.edges;
        retracts =
            subst (Retracted reason (get_node u c.store))
              (sym (get_node-nodes u (cascade_edges u d).store d.store k.nodes)) h.retracts;
        keeps =
            λ j away. get_node-nodes j (cascade_edges u d).store d.store k.nodes ∙ h.keeps j away;
      }

pub turn-Visits :
    (clock : ℕ → String) (reason u : String) (c : Cascade)
    → contains u c.visited ≡ false
    → Visits reason u (record c { visited = u ∷ c.visited }) (turn clock reason u c)
unfolding turn
turn-Visits clock reason u c new =
    let c' = record c { visited = u ∷ c.visited } in
    let now = clock (length c.visited) in
    rw new (
      edges-Visits reason now u c' (invalidate_node reason now u c')
        (invalidate_node-Invalidates reason now u c'))

pub turn-again :
    (clock : ℕ → String) (reason u : String) (c : Cascade)
    → contains u c.visited ≡ true
    → turn clock reason u c ≡ c
unfolding turn
turn-again clock reason u c old = rw old refl
