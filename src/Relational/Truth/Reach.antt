-- ===== src/Relational/Truth/Reach.antt =====
-- A retraction invalidates the node and what rests on it by justification edges, and nothing else.
use shadows.Prelude.{
  Bool-cases, or_left, or_right, true_of_or_false, any, ◌==◌, number_eq, text_eq, eqb_refl,
  contains, contains-append, ℕ, String, ◌≡◌, refl, sym, ap, ap₂, ◌∙◌, subst, ◌⊎◌, inl, inr, Bool,
  true, false, ◌&&◌, ◌||◌, Option, none, some, List, [], ◌∷◌, arith, eq_iff,
}
use shadows.Relational.Schema.{status_eq, node_type_eq, relation_eq, RelationalNode, RelationalEdge}
use shadows.Relational.Store.{RelationalGraphStore, get_node}
use shadows.Relational.Store.View.{is_bound}
use shadows.Relational.Truth.{Cascade, is_justification, turn, started}
use shadows.Relational.Truth.Turn.{shape, sources, sources_of_shape}
use shadows.Relational.Truth.Steps.{Retracted, listing, Visits, turn-Visits, turn-again}

-- `v` is derived from `u` or supported by it.
abbrev pub rests_on : List RelationalEdge → String → String → Bool
rests_on edges v u =
    any (λ e. (e.target_id == u && is_justification e.relation_type) && v == e.source_id) edges

-- What rests on a node, directly or not.
pub data Rests (edges : List RelationalEdge) (start : String) : String → Type 0 where
  itself : Rests edges start start
  onward : {u v : String} → Rests edges start u → rests_on edges v u ≡ true → Rests edges start v

contains-sources :
    (v u : String) (edges : List RelationalEdge) → contains v (sources u edges) ≡ rests_on edges v u
contains-sources v u [] = refl
contains-sources v u (e ∷ edges) = ground (arith, contains-sources v u edges)

contains_same : (a b : String) (xs : List String) → (a == b) ≡ true → contains a xs ≡ contains b xs
contains_same a b xs same = ap (λ k. contains k xs) ((eq_iff a b).0 same)

or_cases : (a b : Bool) → (a || b) ≡ true → (a ≡ true) ⊎ (b ≡ true)
or_cases true b h = inl refl
or_cases false b h = inr h

shuffle : (p a b r : Bool) → (a || (p || b)) ≡ true → ((p || a) || (b || r)) ≡ true
shuffle p a b r h = ground arith

or_false : (b : Bool) → (b || false) ≡ b
or_false b = ground arith

-- An id at the head of the queue that was visited before may be dropped.
drop_head :
    (v u : String) (visited rest : List String)
    → contains u visited ≡ true
    → (contains v visited || contains v (u ∷ rest)) ≡ true
    → (contains v visited || contains v rest) ≡ true
drop_head v u visited rest old h = ground (arith, contains_same v u visited)

apart : (v u : String) → (v == u) ≡ false → (u == v) ≡ false
apart v u h = ground (arith, eq_iff v u, eq_iff u v)

contains-listing :
    (v u : String) (o : Option RelationalNode) → contains v (listing u o) ≡ ((v == u) && is_bound o)
contains-listing v u none = ground arith
contains-listing v u (some _) = ground arith

-- The node of an id after a retraction that invalidates it or not.
abbrev pub Outcome : String → Bool → Option RelationalNode → Option RelationalNode → Type 0
Outcome reason true before after = Retracted reason before after
Outcome reason false before after = after ≡ before

module _ (clock : ℕ → String) (reason start : String) (store : RelationalGraphStore) where
  pub record Inv (c : Cascade) : Type 0 where
    pub shaped : shape c.store.edges ≡ shape store.edges
    pub begun : (contains start c.visited || contains start c.queue) ≡ true
    pub sound : (v : String) → contains v c.visited ≡ true → Rests store.edges start v
    pub queue_sound : (v : String) → contains v c.queue ≡ true → Rests store.edges start v
    pub closed :
        (u v : String)
        → contains u c.visited ≡ true
        → rests_on store.edges v u ≡ true
        → (contains v c.visited || contains v c.queue) ≡ true
    pub nodes :
        (v : String) → Outcome reason (contains v c.visited) (get_node v store) (get_node v c.store)
    pub listed :
        (v : String)
        → contains v c.invalidated_node_ids ≡ (contains v c.visited && is_bound (get_node v store))

  pub Inv-started : Inv (started start store)
  Inv-started = record {
    shaped = refl;
    begun = ground (arith, eqb_refl start);
    sound = λ v h. cc h;
    queue_sound = λ v h.
        subst (Rests store.edges start) (sym ((eq_iff v start).0 (true_of_or_false _ h))) itself;
    closed = λ u v h. cc h;
    nodes = λ v. refl;
    listed = λ v. refl;
  }

  module _ (c : Cascade) (u : String) (rest : List String) (e : c.queue ≡ u ∷ rest)
      (h : Inv c) where
    queued_before :
        (v : String)
        → (contains v c.visited || contains v c.queue) ≡ true
        → (contains v c.visited || contains v (u ∷ rest)) ≡ true
    queued_before v k = subst (λ q. (contains v c.visited || contains v q) ≡ true) e k

    waits-Rests : (v : String) → contains v (u ∷ rest) ≡ true → Rests store.edges start v
    waits-Rests v k = h.queue_sound v (subst (λ q. contains v q ≡ true) (sym e) k)

    Inv-again : contains u c.visited ≡ true → Inv (record c { queue = rest })
    Inv-again old = record {
      shaped = h.shaped;
      begun = drop_head start u c.visited rest old (queued_before start h.begun);
      sound = h.sound;
      queue_sound = λ v k. waits-Rests v (or_right _ _ k);
      closed = λ w v k r. drop_head v u c.visited rest old (queued_before v (h.closed w v k r));
      nodes = h.nodes;
      listed = h.listed;
    }

    module _ (d : Cascade)
        (w : Visits reason u (record c { queue = rest; visited = u ∷ c.visited }) d)
        (new : contains u c.visited ≡ false) where
      u-Rests : Rests store.edges start u
      u-Rests = waits-Rests u (or_left _ _ (eqb_refl u))

      visited_after : (v : String) → contains v d.visited ≡ (v == u || contains v c.visited)
      visited_after v = ap (contains v) w.visits

      queue_after :
          (v : String) → contains v d.queue ≡ (contains v rest || rests_on store.edges v u)
      queue_after v =
          ap (contains v) w.queued
          ∙ contains-append v rest (sources u c.store.edges)
          ∙ ap (λ xs. contains v rest || contains v xs)
              (sources_of_shape u c.store.edges store.edges h.shaped)
          ∙ ap (λ b. contains v rest || b) (contains-sources v u store.edges)

      unvisited : get_node u c.store ≡ get_node u store
      unvisited =
          subst (λ b. Outcome reason b (get_node u store) (get_node u c.store)) new (h.nodes u)

      nodes_after :
          (v : String)
          → Outcome reason (v == u || contains v c.visited) (get_node v store) (get_node v d.store)
      nodes_after v = elim (Bool-cases (v == u)) [
        | inl here ↦ rw here (
            subst (λ k. Retracted reason (get_node k store) (get_node k d.store))
              (sym ((eq_iff v u).0 here))
              (subst (λ o. Retracted reason o (get_node u d.store)) unvisited w.retracts))
        | inr away ↦ rw (away, w.keeps v (apart v u away)) (h.nodes v)
      ]

      listed_after :
          (v : String)
          → contains v d.invalidated_node_ids
            ≡ ((v == u || contains v c.visited) && is_bound (get_node v store))
      listed_after v =
          ap (contains v) w.listed
          ∙ contains-append v c.invalidated_node_ids (listing u (get_node u c.store))
          ∙ ap₂ (λ a b. a || b) (h.listed v) (contains-listing v u (get_node u c.store))
          ∙ elim (Bool-cases (v == u)) [
            | inl here ↦
                rw
                  (
                    here,
                    contains_same v u c.visited here ∙ new,
                    ap is_bound unvisited,
                    ap (λ k. is_bound (get_node k store)) ((eq_iff v u).0 here),
                  )
                  refl
            | inr away ↦ rw away (or_false _)
          ]

      known_after :
          (v : String)
          → (contains v c.visited || contains v c.queue) ≡ true
          → (contains v d.visited || contains v d.queue) ≡ true
      known_after v k =
          rw (visited_after v, queue_after v)
            (shuffle (v == u) (contains v c.visited) (contains v rest) (rests_on store.edges v u)
              (queued_before v k))

      Inv-visit : Inv d
      Inv-visit = record {
        shaped = w.shaped ∙ h.shaped;
        begun = known_after start h.begun;
        sound = λ v k. elim (or_cases _ _ (sym (visited_after v) ∙ k)) [
          | inl here ↦ subst (Rests store.edges start) (sym ((eq_iff v u).0 here)) u-Rests
          | inr old ↦ h.sound v old
        ];
        queue_sound = λ v k. elim (or_cases _ _ (sym (queue_after v) ∙ k)) [
          | inl old ↦ waits-Rests v (or_right _ _ old)
          | inr r ↦ onward u-Rests r
        ];
        closed = λ x v k r. elim (or_cases _ _ (sym (visited_after x) ∙ k)) [
          | inl here ↦ or_right _ _ (
              queue_after v
              ∙ or_right _ _ (subst (λ y. rests_on store.edges v y ≡ true) ((eq_iff x u).0 here) r))
          | inr old ↦ known_after v (h.closed x v old r)
        ];
        nodes = λ v. rw (visited_after v) (nodes_after v);
        listed = λ v. rw (visited_after v) (listed_after v);
      }

  pub Inv-turn :
      (c : Cascade) (u : String) (rest : List String)
      → c.queue ≡ u ∷ rest
      → Inv c
      → Inv (turn clock reason u (record c { queue = rest }))
  Inv-turn c u rest e h = elim (Bool-cases (contains u c.visited)) [
    | inl old ↦
        rw (turn-again clock reason u (record c { queue = rest }) old) (Inv-again c u rest e h old)
    | inr new ↦
        Inv-visit c u rest e h (turn clock reason u (record c { queue = rest }))
          (turn-Visits clock reason u (record c { queue = rest }) new) new
  ]
