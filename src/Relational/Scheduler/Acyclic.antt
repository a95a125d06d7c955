-- ===== src/Relational/Scheduler/Acyclic.antt =====
-- Where the dependencies have no cycle, the topological order is returned, with all the nodes.
use shadows.Prelude.{
  ltb, if◌then◌else◌, nat_beq_iff, Bool-cases, and_left, and_right, eq_false, if_true, or_left,
  or_right, length, length-append, All, ◌==◌, number_eq, text_eq, eqb_refl, contains,
  contains-append, count_where, ℕ, zero, suc, ◌+◌, ◌<◌, String, ◌≡◌, refl, sym, ap, ◌∙◌, inl, inr,
  Bool, true, false, not, ◌&&◌, ◌||◌, List, [], ◌∷◌, arith, eq_iff,
}
use shadows.Relational.Schema.{status_eq, node_type_eq, relation_eq, RelationalNode, RelationalEdge}
use shadows.Relational.Scheduler.{is_dependency, Kahn, scheduled, compute_topological_order}
use shadows.Relational.Scheduler.Degrees.{times}
use shadows.Relational.Scheduler.Release.{ids, unmet}
use shadows.Relational.Scheduler.Order.{collected, Inv}
use shadows.Relational.Scheduler.Complete.{
  bound-node_map, listed, listing, listed-cons, listing-contains, contains-listed, compute-lem,
}

-- The ids that have no more than one place among these.
abbrev pub distinct : List String → Bool
distinct [] = true
distinct (x ∷ xs) = not (contains x xs) && distinct xs

-- A dependency leads to one of these ids, and down in the rank.
abbrev pub leads_down : (String → ℕ) → List String → RelationalEdge → Bool
leads_down rank xs e =
    not (is_dependency e) || contains e.target_id xs && ltb (rank e.target_id) (rank e.source_id)

count-nothing : (past : List String) → count_where (λ v. contains v []) past ≡ 0
count-nothing [] = refl
count-nothing (v ∷ past) = omega (arith, count-nothing past)

contains_same : (a b : String) (xs : List String) → (a == b) ≡ true → contains a xs ≡ contains b xs
contains_same a b xs e = ap (λ k. contains k xs) ((eq_iff a b).0 e)

count-split :
    (n : String) (xs past : List String)
    → contains n xs ≡ false
    → count_where (λ v. contains v (n ∷ xs)) past
      ≡ times n past + count_where (λ v. contains v xs) past
count-split n xs [] new = refl
count-split n xs (v ∷ past) new = ground (arith, count-split n xs past new, contains_same v n xs)

-- Of ids that differ and occur once each, as many occur as there are.
count-listed :
    (xs past : List String)
    → distinct xs ≡ true
    → All (λ n. times n past ≡ 1) xs
    → count_where (λ v. contains v xs) past ≡ length xs
count-listed [] past h once = count-nothing past
count-listed (n ∷ xs) past h once = omega (
  arith,
  count-split n xs past (eq_false _ (and_left _ _ h)),
  count-listed xs past (and_right _ _ h) once.1,
  once.0,
)

All-contained :
    (P : String → Type 0) (xs ys : List String)
    → ((v : String) → contains v ys ≡ true → P v)
    → ((v : String) → contains v xs ≡ true → contains v ys ≡ true)
    → All P xs
All-contained P [] ys h sub = tt
All-contained P (x ∷ xs) ys h sub = (
  h x (sub x (or_left _ _ (eqb_refl x))),
  All-contained P xs ys h (λ v k. sub v (or_right _ _ k)),
)

module _ (nodes : List RelationalNode) (edges : List RelationalEdge) (rank : String → ℕ)
    (down : All (λ e. leads_down rank (ids nodes) e ≡ true) edges) where
  unmet-zero :
      (past : List String) (v : String)
      → ((t : String) → contains t (ids nodes) ≡ true → rank t < rank v → 0 < times t past)
      → (es : List RelationalEdge) → All (λ e. leads_down rank (ids nodes) e ≡ true) es
      → unmet nodes es past v ≡ 0
  unmet-zero past v below [] h = refl
  unmet-zero past v below (e ∷ es) h =
      let ih = unmet-zero past v below es h.1 in
      ground (arith, ih, below e.target_id, h.0, same_rank)
    where
      same_rank : (e.source_id == v) ≡ true → rank e.source_id ≡ rank v
      same_rank k = ap rank ((eq_iff e.source_id v).0 k)

  module _ (t : Kahn) (inv : Inv nodes edges t) (empty : t.queue ≡ []) where
    all_past :
        (n : ℕ) (v : String) → rank v < n → contains v (ids nodes) ≡ true → 0 < times v inv.past
    all_past zero v low inside = absurd (omega (arith, low))
    all_past (suc n) v low inside =
        let unmet_none =
          unmet-zero inv.past v (λ x k lower. all_past n x (omega (arith, low, lower)) k) edges
            down in
        omega (
          arith,
          inv.balanced.full v inside (omega (arith, inv.balanced.deg v, unmet_none)),
          ap (times v) empty,
        )

    past-once : (v : String) → contains v (ids nodes) ≡ true → times v inv.past ≡ 1
    past-once v inside =
        omega (arith, all_past (suc (rank v)) v (omega arith) inside, inv.balanced.once v)

module _ (nodes : List RelationalNode) (edges : List RelationalEdge) where
  length-listing :
      (v : String) → length (listing nodes edges v) ≡ (if contains v (ids nodes) then 1 else 0)
  length-listing v = ground (arith, bound-node_map v nodes [])

  length-listed :
      (past : List String)
      → length (listed nodes edges past) ≡ count_where (λ v. contains v (ids nodes)) past
  length-listed [] = refl
  length-listed (v ∷ past) = omega (
    arith,
    ap length (listed-cons nodes edges v past),
    length-append (listed nodes edges past) (listing nodes edges v),
    length-listing v,
    length-listed past,
  )

  unlisted :
      (v : String) (past : List String)
      → contains v (ids nodes) ≡ false
      → contains v (listed nodes edges past) ≡ false
  unlisted v [] out = refl
  unlisted v (u ∷ past) out =
      rw
        (
          listed-cons nodes edges u past,
          contains-append v (listed nodes edges past) (listing nodes edges u),
          listing-contains nodes edges v u,
          unlisted v past out,
        )
        (ground (arith, contains_same v u (ids nodes), out))

length-ids : (nodes : List RelationalNode) → length (ids nodes) ≡ length nodes
length-ids [] = refl
length-ids (n ∷ nodes) = ap suc (length-ids nodes)

-- If the ids of the nodes differ, and each REQUIRES or DEPENDS_ON edge leads to one of them and
-- down in some rank, then an order is returned, and it has the ids of the nodes and as many.
pub acyclic_scheduled :
    (nodes : List RelationalNode) (edges : List RelationalEdge) (rank : String → ℕ)
    → distinct (ids nodes) ≡ true
    → All (λ e. leads_down rank (ids nodes) e ≡ true) edges
    → (ordered : List RelationalNode) × (compute_topological_order nodes edges ≡ scheduled ordered)
      × (length ordered ≡ length nodes)
      × ((v : String) → contains v (ids ordered) ≡ contains v (ids nodes))
acyclic_scheduled nodes edges rank differ down =
    let (t, inv, empty, eq) = compute-lem nodes edges in
    let once = past-once nodes edges rank down t inv empty in
    let count =
      count-listed (ids nodes) inv.past differ
        (All-contained (λ n. times n inv.past ≡ 1) (ids nodes) (ids nodes) once (λ v k. k)) in
    let same = ap length inv.in_order in
    let long : length t.ordered ≡ length nodes = omega (
      arith,
      same,
      length-ids (collected nodes edges inv.past),
      length-listed nodes edges inv.past,
      count,
      length-ids nodes,
    ) in
    (
      t.ordered,
      eq ∙ if_true _ _ _ ((nat_beq_iff _ _).1 long),
      long,
      λ v. elim (Bool-cases (contains v (ids nodes))) [
        | inl inside ↦
            ap (λ xs. contains v (ids xs)) inv.in_order
            ∙ contains-listed nodes edges v inv.past inside (omega (arith, once v inside))
            ∙ sym inside
        | inr out ↦
            ap (λ xs. contains v (ids xs)) inv.in_order
            ∙ unlisted nodes edges v inv.past out
            ∙ sym out
      ],
    )
