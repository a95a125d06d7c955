-- ===== src/Relational/Scheduler/Complete.antt =====
-- What `compute_topological_order` returns is an order in which dependencies come first.
use mathlib.Core.List.{append-nil}
use shadows.Prelude.{
  nat_beq, if◌then◌else◌, Bool-cases, and_intro, some_injective, or_left, or_right, length, All,
  get_elem?, ◌==◌, number_eq, text_eq, eqb_refl, contains, contains-append, count_where, holds_at,
  get_item, set_item, get_item-set_item, ℕ, zero, suc, ◌<◌, String, ◌≡◌, refl, sym, ap, ◌∙◌, subst,
  ◌⊎◌, inl, inr, Bool, true, false, not, ◌&&◌, ◌||◌, Option, none, some, List, [], ◌∷◌, ◌++◌, arith,
  eq_iff,
}
use shadows.Relational.Schema.{status_eq, node_type_eq, relation_eq, RelationalNode, RelationalEdge}
use shadows.Relational.Scheduler.{
  is_dependency, node_map, Kahn, appended, scheduled, cyclic_dependency_error, concluded,
  compute_topological_order,
}
use shadows.Relational.Scheduler.Degrees.{times, str_sym}
use shadows.Relational.Scheduler.Release.{ids, unmet}
use shadows.Relational.Scheduler.Ends.{run_returns}
use shadows.Relational.Scheduler.Order.{
  precedes, precedes-snoc, node_map-id, node_at, collected, Met, Inv, ended,
}

ids-snoc :
    (nodes : List RelationalNode) (n : RelationalNode)
    → ids (nodes ++ n ∷ []) ≡ ids nodes ++ n.node_id ∷ []
ids-snoc [] n = refl
ids-snoc (m ∷ nodes) n = ap (λ xs. m.node_id ∷ xs) (ids-snoc nodes n)

pub bound-node_map :
    (v : String) (nodes : List RelationalNode) (d : List (String × RelationalNode))
    → holds_at (λ _. true) (get_item v (node_map nodes d))
      ≡ (contains v (ids nodes) || holds_at (λ _. true) (get_item v d))
unfolding node_map
bound-node_map v [] d = refl
bound-node_map v (n ∷ nodes) d =
    bound-node_map v nodes (set_item n.node_id n d)
    ∙ ground (arith, get_item-set_item v n.node_id n d, str_sym v n.node_id)

count-false :
    (p : RelationalEdge → Bool) (i : ℕ) (edges : List RelationalEdge) (e : RelationalEdge)
    → count_where p edges ≡ 0
    → get_elem? edges i ≡ some e
    → p e ≡ false
count-false p i [] e h k = cc k
count-false p zero (x ∷ edges) e h k = ground (arith, ap p (some_injective k))
count-false p (suc i) (x ∷ edges) e h k = count-false p i edges e (ground (arith, h)) k

module _ (nodes : List RelationalNode) (edges : List RelationalEdge) where
  abbrev pub listed : List String → List String
  listed past = ids (collected nodes edges past)

  -- An id is listed when it is scheduled, if it is one of the nodes'.
  abbrev pub listing : String → List String
  listing v = elim (node_at nodes edges v) [ none ↦ [] | some _ ↦ v ∷ [] ]

  node_at-id : (v : String) (n : RelationalNode) → node_at nodes edges v ≡ some n → n.node_id ≡ v
  node_at-id v = node_map-id v nodes [] (λ n h. cc h)

  pub listed-cons : (v : String) (past : List String) → listed (v ∷ past) ≡ listed past ++ listing v
  listed-cons v past = split (node_at nodes edges v) refl
    where
      split :
          (o : Option RelationalNode)
          → node_at nodes edges v ≡ o
          → ids (appended o (collected nodes edges past))
            ≡ listed past ++ elim o [ none ↦ [] | some _ ↦ v ∷ [] ]
      split none e = sym (append-nil (listed past))
      split (some n) e =
          ids-snoc (collected nodes edges past) n
          ∙ ap (λ k. listed past ++ k ∷ []) (node_at-id v n e)

  pub listing-contains :
      (t v : String) → contains t (listing v) ≡ ((t == v) && contains v (ids nodes))
  listing-contains t v = ground (arith, bound-node_map v nodes [])

  pub contains-listed :
      (t : String) (past : List String)
      → contains t (ids nodes) ≡ true
      → 0 < times t past
      → contains t (listed past) ≡ true
  contains-listed t [] inside h = absurd (omega (arith, h))
  contains-listed t (v ∷ past) inside h =
      rw (listed-cons v past, contains-append t (listed past) (listing v), listing-contains t v)
        (elim (Bool-cases (v == t)) [
          | inl here ↦
              let same = (eq_iff v t).0 here in
              or_right _ _ (
                and_intro _ _ ((eq_iff t v).1 (sym same))
                  (subst (λ k. contains k (ids nodes) ≡ true) (sym same) inside))
          | inr away ↦ or_left _ _ (contains-listed t past inside (rest away))
        ])
    where
      rest : (v == t) ≡ false → 0 < times t past
      rest away = ground (arith, h, away)

  -- No id is listed before one that it depends on.
  precedes-listed :
      (i : ℕ) (e : RelationalEdge)
      → get_elem? edges i ≡ some e
      → is_dependency e ≡ true
      → contains e.target_id (ids nodes) ≡ true
      → (past : List String) → Met nodes edges past
      → precedes e.target_id e.source_id (listed past) ≡ true
  precedes-listed i e at dep inside [] met = refl
  precedes-listed i e at dep inside (v ∷ past) met =
      let ih = precedes-listed i e at dep inside past met.1 in
      rw (listed-cons v past) (split (node_at nodes edges v) ih)
    where
      before : (v == e.source_id) ≡ true → contains e.target_id (listed past) ≡ true
      before same =
          let zero_here =
            subst (λ k. unmet nodes edges past k ≡ 0) ((eq_iff v e.source_id).0 same) met.0 in
          let off = count-false _ i edges e zero_here at in
          contains-listed e.target_id past inside (ground (arith, off, dep, eqb_refl e.source_id))

      split :
          (o : Option RelationalNode)
          → precedes e.target_id e.source_id (listed past) ≡ true
          → precedes e.target_id e.source_id (listed past ++ elim o [ none ↦ [] | some _ ↦ v ∷ [] ])
            ≡ true
      split none h = rw (append-nil (listed past)) h
      split (some n) h = precedes-snoc e.target_id e.source_id v (listed past) h before

pub compute-lem :
    (nodes : List RelationalNode) (edges : List RelationalEdge)
    → (t : Kahn) × (Inv nodes edges t)
      × (t.queue ≡ [])
      × (compute_topological_order nodes edges ≡ (
          if nat_beq (length t.ordered) (length nodes)
          then scheduled t.ordered
          else cyclic_dependency_error))
unfolding compute_topological_order
compute-lem nodes edges =
    let (t, e) = run_returns nodes edges in
    let (inv, empty) = ended nodes edges t e in (t, inv, empty, ap (concluded nodes) e)

-- A dependency on one of the nodes stands before what depends on it.
abbrev pub respects : List RelationalNode → List RelationalNode → RelationalEdge → Bool
respects nodes ordered e =
    not (is_dependency e && contains e.target_id (ids nodes))
    || precedes e.target_id e.source_id (ids ordered)

All-get_elem :
    (p : RelationalEdge → Bool) (edges : List RelationalEdge)
    → ((i : ℕ) (e : RelationalEdge) → get_elem? edges i ≡ some e → p e ≡ true)
    → All (λ e. p e ≡ true) edges
All-get_elem p [] h = tt
All-get_elem p (e ∷ edges) h = (h 0 e refl, All-get_elem p edges (λ i. h (suc i)))

implication : (a b c : Bool) → (a ≡ true → b ≡ true → c ≡ true) → (not (a && b) || c) ≡ true
implication true true c h = h refl refl
implication true false c h = refl
implication false b c h = refl

-- The topological order always returns: it raises, or it returns an order in which a node that
-- another one depends on by a REQUIRES or DEPENDS_ON edge stands before it.
pub order_sound :
    (nodes : List RelationalNode) (edges : List RelationalEdge)
    → (compute_topological_order nodes edges ≡ cyclic_dependency_error)
      ⊎ ((ordered : List RelationalNode) × (compute_topological_order nodes edges
            ≡ scheduled ordered)
          × All (λ e. respects nodes ordered e ≡ true) edges)
order_sound nodes edges =
    let (t, inv, _, eq) = compute-lem nodes edges in
    elim (Bool-cases (nat_beq (length t.ordered) (length nodes))) [
      | inl full ↦ inr (
        t.ordered,
        eq ∙ rw full refl,
        subst (λ xs. All (λ e. respects nodes xs e ≡ true) edges) (sym inv.in_order)
            (All-get_elem (respects nodes (collected nodes edges inv.past)) edges (λ i e at.
              implication _ _ _
                (λ dep inside. precedes-listed nodes edges i e at dep inside inv.past inv.met))),
      )
      | inr short ↦ inl (eq ∙ rw short refl)
    ]
