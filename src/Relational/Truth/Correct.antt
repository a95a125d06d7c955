-- ===== src/Relational/Truth/Correct.antt =====
-- What `retract_and_cascade` and `downgrade_evidence` return, and what they leave in the store.
use shadows.Prelude.{
  leb, if◌then◌else◌, Bool-cases, and_left, and_right, and_intro, some_injective, true_of_or_false,
  length, number_eq, text_eq, eqb_refl, contains, ℕ, suc, ◌≤◌, ◌<◌, String, ◌≡◌, refl, sym, ap, ◌∙◌,
  subst, ◌↔◌, ◌⊎◌, inl, inr, Bool, true, false, ◌&&◌, ◌||◌, Option, none, some, map_option, List,
  [], ◌∷◌, arith,
}
use shadows.Outcome.{value_error, raise, ok}
use shadows.Relational.Schema.{
  EpistemicStatus, proposed, inferred, observed, verified, qualified, authoritative, contested,
  superseded, invalidated, status_eq, node_type_eq, relation_eq, RelationalNode, node_with_status,
}
use shadows.Relational.Store.{RelationalGraphStore, get_node, update_node_status}
use shadows.Relational.Store.View.{set_node_status, perform, is_bound, specified, perform-specified}
use shadows.Relational.Truth.{
  Cascade, cascade, started, returned, retract_and_cascade, status_rank, downgrade_evidence,
}
use shadows.Relational.Truth.Steps.{Retracted}
use shadows.Relational.Truth.Ends.{waiting-bound, cascade_ends, cascade_rule}
use shadows.Relational.Truth.Reach.{Rests, itself, onward, Outcome, Inv, Inv-started, Inv-turn}

-- The cascade ends within the fuel it is given: a retraction always returns.
retract_returns :
    (clock : ℕ → String) (node_id reason : String) (store : RelationalGraphStore)
    → (out : List String × RelationalGraphStore) × (retract_and_cascade clock node_id reason store
        ≡ some out)
unfolding retract_and_cascade
retract_returns clock node_id reason store =
    let (d, ends) =
      cascade_ends clock reason (suc (length store.edges)) (started node_id store)
        (omega (arith, waiting-bound [] store.edges)) in
    (returned d, rw ends refl)

leb-true : (a b : ℕ) → a ≤ b → leb a b ≡ true
leb-true a b h = ground arith

map-some :
    {A B : Type 0} (f : A → B) (o : Option A) (b : B)
    → map_option f o ≡ some b
    → (a : A) × (o ≡ some a) × (f a ≡ b)
map-some f none b h = cc h
map-some f (some a) b h = (a, refl, some_injective h)

Outcome-bound :
    (reason : String) (b : Bool) (before after : Option RelationalNode)
    → Outcome reason b before after
    → Outcome reason (b && is_bound before) before after
Outcome-bound reason false before after h = h
Outcome-bound reason true none after h = h
Outcome-bound reason true (some node) after h = h

module _ (clock : ℕ → String) (start reason : String) (store : RelationalGraphStore) where
  known :
      (c : Cascade) (v : String)
      → c.queue ≡ []
      → (contains v c.visited || contains v c.queue) ≡ true
      → contains v c.visited ≡ true
  known c v empty h =
      true_of_or_false (contains v c.visited)
        (subst (λ q. (contains v c.visited || contains v q) ≡ true) empty h)

  -- Where the queue is empty, all that rests on the start was visited.
  complete :
      (c : Cascade)
      → Inv clock reason start store c
      → c.queue ≡ []
      → {v : String} → Rests store.edges start v
      → contains v c.visited ≡ true
  complete c h empty itself = known c start empty h.begun
  complete c h empty (onward {u} {v} p r) = known c v empty (h.closed u v (complete c h empty p) r)

  module _ (out : List String) (after : RelationalGraphStore)
      (run : retract_and_cascade clock start reason store ≡ some (out, after)) where
    ended :
        (d : Cascade) × (returned d ≡ (out, after))
        × Inv clock reason start store d
        × (d.queue ≡ [])
    unfolding retract_and_cascade
    ended =
        let fuel = suc (length store.edges) in
        let (d, ends, same) =
          map-some returned (cascade clock reason fuel (started start store)) (out, after) run in
        let (inv, empty) =
          cascade_rule clock reason (Inv clock reason start store)
            (Inv-turn clock reason start store) fuel (started start store) d
            (Inv-started clock reason start store) ends in
        (d, same, inv, empty)

    -- A retraction returns exactly the ids of the nodes that rest on the falsified one, itself
    -- included, as far as they are there.
    retracted_iff :
        (v : String)
        → (contains v out ≡ true)
          ↔ (Rests store.edges start v × (is_bound (get_node v store) ≡ true))
    retracted_iff v =
        let (d, same, inv, empty) = ended in
        let listed =
          subst (λ r. contains v r.0 ≡ (contains v d.visited && is_bound (get_node v store))) same
            (inv.listed v) in
        (
          λ h. let both = sym listed ∙ h in (inv.sound v (and_left _ _ both), and_right _ _ both),
          λ h. listed ∙ and_intro _ _ (complete d inv empty h.0) h.1,
        )

    -- A retraction invalidates the nodes whose ids it returns, with the reason and a time, keeps
    -- all else of them, and keeps every other node as it was.
    retracted_nodes :
        (v : String) → Outcome reason (contains v out) (get_node v store) (get_node v after)
    retracted_nodes v =
        let (d, same, inv, empty) = ended in
        subst (λ r. Outcome reason (contains v r.0) (get_node v store) (get_node v r.1)) same
          (rw (inv.listed v) (
            Outcome-bound reason (contains v d.visited) (get_node v store) (get_node v d.store)
              (inv.nodes v)))

abbrev pub status_at : String → RelationalGraphStore → Option EpistemicStatus
status_at v store = map_option (λ node. node.epistemic_status) (get_node v store)

-- The status that a downgrade ends in.
abbrev pub settled : EpistemicStatus → EpistemicStatus
settled contested = invalidated
settled status = status

retracted_self :
    (clock : ℕ → String) (v reason : String) (store : RelationalGraphStore) (node : RelationalNode)
    (out : List String) (after : RelationalGraphStore)
    → get_node v store ≡ some node
    → retract_and_cascade clock v reason store ≡ some (out, after)
    → status_at v after ≡ some invalidated
retracted_self clock v reason store node out after there run =
    let hit = (retracted_iff clock v reason store out after run v).1 (itself, rw there refl) in
    let o = retracted_nodes clock v reason store out after run v in
    let (now, e) =
      subst (λ b. Retracted reason b (get_node v after)) there
        (subst (λ b. Outcome reason b (get_node v store) (get_node v after)) hit o) in
    ap (λ o. map_option (λ n. n.epistemic_status) o) e

get_node-update_node_status :
    (v : String) (status : EpistemicStatus) (store : RelationalGraphStore) (node : RelationalNode)
    → get_node v store ≡ some node
    → get_node v (update_node_status v status store) ≡ some (node_with_status status node)
unfolding perform specified
get_node-update_node_status v status store node h =
    ap (λ w. w.node_of v) (perform-specified (set_node_status v status) store)
    ∙ rw (eqb_refl v, h) refl

module _ (clock : ℕ → String) (v reason : String) (store : RelationalGraphStore)
    (node : RelationalNode) (there : get_node v store ≡ some node) where
  outcome : EpistemicStatus → Option (List String × RelationalGraphStore)
  outcome status =
      let store' = update_node_status v status store in
      if contains status (invalidated ∷ contested ∷ [])
      then retract_and_cascade clock v reason store'
      else some (v ∷ [], store')

  module _ (out : List String) (after : RelationalGraphStore) where
    cascaded :
        (s : EpistemicStatus)
        → retract_and_cascade clock v reason (update_node_status v s store) ≡ some (out, after)
        → status_at v after ≡ some invalidated
    cascaded s h =
        retracted_self clock v reason (update_node_status v s store) (node_with_status s node) out
          after (get_node-update_node_status v s store node there) h

    kept :
        (s : EpistemicStatus)
        → ◌≡◌ {A = Option (List String × RelationalGraphStore)}
            (some (v ∷ [], update_node_status v s store))
            (some (out, after))
        → status_at v after ≡ some s
    kept s h =
        subst (λ r. status_at v r.1 ≡ some s) (some_injective h)
          (ap (λ o. map_option (λ n. n.epistemic_status) o)
            (get_node-update_node_status v s store node there))

    settles :
        (s : EpistemicStatus) → outcome s ≡ some (out, after) → status_at v after ≡ some (settled s)
    unfolding outcome
    settles contested h = cascaded contested h
    settles invalidated h = cascaded invalidated h
    settles proposed h = kept proposed h
    settles inferred h = kept inferred h
    settles observed h = kept observed h
    settles verified h = kept verified h
    settles qualified h = kept qualified h
    settles authoritative h = kept authoritative h
    settles superseded h = kept superseded h

  -- A downgrade of a node that is there raises exactly if the new status ranks above the old one.
  downgrade_raises_iff :
      (status : EpistemicStatus)
      → (downgrade_evidence clock v status reason store ≡ raise value_error)
        ↔ (status_rank node.epistemic_status < status_rank status)
  unfolding downgrade_evidence
  downgrade_raises_iff status = rw (downgrade_evidence, there) (ground arith)

  outcome_returns :
      (status : EpistemicStatus)
      → (out : List String × RelationalGraphStore) × (outcome status ≡ some out)
  unfolding outcome
  outcome_returns status =
      let store' = update_node_status v status store in
      elim (Bool-cases (contains status (invalidated ∷ contested ∷ []))) [
        | inl hit ↦ let (out, e) = retract_returns clock v reason store' in (out, rw hit e)
        | inr miss ↦ ((v ∷ [], store'), rw miss refl)
      ]

  -- A downgrade of a node that is there to a status that ranks no higher than its own returns, and
  -- the node has the new status at the end, but for CONTESTED, which ends INVALIDATED.
  downgrade_settles :
      (status : EpistemicStatus)
      → status_rank status ≤ status_rank node.epistemic_status
      → (out : List String × RelationalGraphStore) × (downgrade_evidence clock v status reason store
          ≡ ok (some out))
        × (status_at v out.1 ≡ some (settled status))
  unfolding downgrade_evidence outcome
  downgrade_settles status low =
      let (out, e) = outcome_returns status in
      (
        out,
        rw (downgrade_evidence, there, leb-true _ _ low) (ap ok e),
        settles out.0 out.1 status e,
      )

  -- A downgrade of a node that is there raises if the new status ranks above the old one; if
  -- not, it returns, and the node has the new status at the end, but for CONTESTED, which ends
  -- INVALIDATED.
  pub downgrade_cases :
      (status : EpistemicStatus)
      → ((status_rank node.epistemic_status < status_rank status)
          × (downgrade_evidence clock v status reason store ≡ raise value_error))
        ⊎ ((status_rank status ≤ status_rank node.epistemic_status)
            × ((out : List String × RelationalGraphStore) × (downgrade_evidence clock v status
                    reason store
                  ≡ ok (some out))
                × (status_at v out.1 ≡ some (settled status))))
  downgrade_cases status =
      elim (Bool-cases (leb (status_rank status) (status_rank node.epistemic_status))) [
        | inl low ↦
            let below : status_rank status ≤ status_rank node.epistemic_status =
              ground (arith, low) in
            inr (below, downgrade_settles status below)
        | inr high ↦
            let above : status_rank node.epistemic_status < status_rank status =
              ground (arith, high) in
            inl (above, (downgrade_raises_iff status).1 above)
      ]

-- A retraction always returns. It returns exactly the ids of the nodes that are there and rest
-- on the falsified one by DERIVED_FROM and SUPPORTED_BY edges, itself included; these are
-- INVALIDATED at the end, with the reason and a time, and keep all else, and every other node
-- stays as it was.
pub retract_decides :
    (clock : ℕ → String) (start reason : String) (store : RelationalGraphStore)
    → (out : List String) × (after : RelationalGraphStore) × (retract_and_cascade clock start reason
          store
        ≡ some (out, after))
      × ((v : String)
          → ((contains v out ≡ true)
              ↔ (Rests store.edges start v × (is_bound (get_node v store) ≡ true)))
            × Outcome reason (contains v out) (get_node v store) (get_node v after))
retract_decides clock start reason store =
    let (r, run) = retract_returns clock start reason store in
    (
      r.0,
      r.1,
      run,
      λ v. (
        retracted_iff clock start reason store r.0 r.1 run v,
        retracted_nodes clock start reason store r.0 r.1 run v,
      ),
    )
