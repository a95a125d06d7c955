-- ===== src/Relational/Frontier/Walks.antt =====
-- What the recursive query finds: the ends of the walks of at most fifty edges, with the length of
-- a shortest one.
use shadows.Prelude.{
  if◌then◌else◌, Bool-cases, some_injective, or_left, or_right, true_of_or_false, any, ◌==◌,
  number_eq, text_eq, eqb_refl, contains, contains-append, select, get_item, ℕ, zero, suc, ◌+◌, ◌≤◌,
  ◌<◌, String, ◌≡◌, refl, sym, ap, ap₂, ◌∙◌, subst, ◌⊎◌, inl, inr, Bool, true, false, not, ◌&&◌,
  ◌||◌, Option, some, List, [], ◌∷◌, ◌++◌, map, arith, eq_iff,
}
use shadows.Relational.Schema.{
  EpistemicStatus, RelationType, status_eq, node_type_eq, relation_eq, RelationalEdge,
}
use shadows.Relational.Store.{RelationalGraphStore}
use shadows.Relational.Frontier.{
  unique, targets, targets_all, next_level, dependency_tree, grouped, is_followed,
  find_transitive_dependencies,
}

module _ (followed : RelationalEdge → Bool) (edges : List RelationalEdge) where
  abbrev pub linked : String → String → Bool
  linked u v = any (λ e. (e.source_id == u && followed e) && v == e.target_id) edges

  -- A walk of `n` edges that are followed.
  pub data Walk (start : String) : ℕ → String → Type 0 where
    first : {v : String} → linked start v ≡ true → Walk start 1 v
    onward : {n : ℕ} {u v : String} → Walk start n u → linked u v ≡ true → Walk start (suc n) v

  contains-targets :
      (u v : String) (es : List RelationalEdge)
      → contains v (targets followed u es)
        ≡ any (λ e. (e.source_id == u && followed e) && v == e.target_id) es
  contains-targets u v [] = refl
  contains-targets u v (e ∷ es) = ground (arith, contains-targets u v es)

  contains-targets_all :
      (v : String) (us : List String)
      → contains v (targets_all followed us edges) ≡ any (λ u. linked u v) us
  contains-targets_all v [] = refl
  contains-targets_all v (u ∷ us) =
      contains-append v (targets followed u edges) (targets_all followed us edges)
      ∙ ap₂ (λ a b. a || b) (contains-targets u v edges) (contains-targets_all v us)

contains-unique : (v : String) (xs : List String) → contains v (unique xs) ≡ contains v xs
contains-unique v [] = refl
contains-unique v (x ∷ xs) = ground (arith, contains-unique v xs, same)
  where
    same : (v == x) ≡ true → contains v (unique xs) ≡ contains x (unique xs)
    same h = ap (λ k. contains k (unique xs)) ((eq_iff v x).0 h)

any-contains :
    (p : String → Bool) (xs : List String)
    → any p xs ≡ true
    → (x : String) × (contains x xs ≡ true) × (p x ≡ true)
any-contains p [] h = cc h
any-contains p (x ∷ xs) h = elim (Bool-cases (p x)) [
  | inl hit ↦ (x, or_left _ _ (eqb_refl x), hit)
  | inr miss ↦
      let (y, inside, holds) = any-contains p xs (rw miss at h) in (y, or_right _ _ inside, holds)
]

contains-any :
    (p : String → Bool) (x : String) (xs : List String)
    → contains x xs ≡ true
    → p x ≡ true
    → any p xs ≡ true
contains-any p x [] h k = cc h
contains-any p x (y ∷ xs) h k = ground (arith, contains-any p x xs, same)
  where
    same : (x == y) ≡ true → p y ≡ true
    same e = subst (λ z. p z ≡ true) ((eq_iff x y).0 e) k

get_item-level :
    (v : String) (depth : ℕ) (level : List String) (rows : List (String × ℕ))
    → get_item v (map (λ x. (x, depth)) level ++ rows)
      ≡ (if contains v level then some depth else get_item v rows)
get_item-level v depth [] rows = refl
get_item-level v depth (x ∷ level) rows =
    ground (arith, get_item-level v depth level rows, eq_iff x v, eq_iff v x)

get_item-select :
    (v k : String) (rows : List (String × ℕ))
    → (k == v) ≡ false
    → get_item v (select (λ r. not (r.0 == k)) rows) ≡ get_item v rows
get_item-select v k [] apart = refl
get_item-select v k (row ∷ rows) apart =
    ground (arith, get_item-select v k rows apart, eq_iff row.0 k, eq_iff row.0 v, eq_iff k v)

get_item-grouped :
    (v : String) (rows : List (String × ℕ)) → get_item v (grouped rows) ≡ get_item v rows
get_item-grouped v [] = refl
get_item-grouped v (row ∷ rows) =
    ground (arith, get_item-grouped v rows, get_item-select v row.0 (grouped rows))

module _ (followed : RelationalEdge → Bool) (edges : List RelationalEdge) (start : String) where
  abbrev W : ℕ → String → Type 0
  W = Walk followed edges start

  contains-next_level :
      (v : String) (us : List String)
      → contains v (next_level followed edges us) ≡ any (λ u. linked followed edges u v) us
  unfolding next_level
  contains-next_level v us =
      contains-unique v (targets_all followed us edges) ∙ contains-targets_all followed edges v us

  walk-cases :
      (n : ℕ) (v : String)
      → W n v
      → ((n ≡ 1) × (linked followed edges start v ≡ true))
        ⊎ ((m : ℕ) × (u : String) × (n ≡ suc m) × W m u × (linked followed edges u v ≡ true))
  walk-cases n v (first h) = inl (refl, h)
  walk-cases n v (onward {n = m} {u} w h) = inr (m, u, refl, w, h)

  -- The level holds the ends of the walks of its depth.
  AtLevel : ℕ → List String → Type 0
  AtLevel depth level =
      ((v : String) → contains v level ≡ true → W depth v)
      × ((v : String) → W depth v → contains v level ≡ true)

  walk-positive : (n : ℕ) (v : String) → W n v → 0 < n
  walk-positive n v (first h) = omega arith
  walk-positive n v (onward w h) = omega arith

  AtLevel-first : AtLevel 1 (next_level followed edges (start ∷ []))
  unfolding AtLevel
  AtLevel-first = (
    λ v h. first (true_of_or_false _ (sym (contains-next_level v (start ∷ [])) ∙ h)),
    λ v w. contains-next_level v (start ∷ []) ∙ elim (walk-cases 1 v w) [
      | inl (_, h) ↦ or_left _ _ h
      | inr (m, u, e, w', _) ↦ absurd (omega (arith, e, walk-positive m u w'))
    ],
  )

  AtLevel-next :
      (depth : ℕ) (level : List String)
      → 0 < depth
      → AtLevel depth level
      → AtLevel (suc depth) (next_level followed edges level)
  unfolding AtLevel
  AtLevel-next depth level pos h = (
    λ v k.
        let (u, inside, link) = any-contains _ level (sym (contains-next_level v level) ∙ k) in
        onward (h.0 u inside) link,
    λ v w. contains-next_level v level ∙ elim (walk-cases (suc depth) v w) [
      | inl (e, _) ↦ absurd (omega (arith, e, pos))
      | inr (m, u, e, w', link) ↦
          contains-any (λ x. linked followed edges x v) u level
            (h.1 u (subst (λ k. W k u) (omega (arith, e)) w')) link
    ],
  )

  tree_sound :
      (v : String) (d levels depth : ℕ) (level : List String)
      → 0 < depth
      → AtLevel depth level
      → get_item v (dependency_tree followed edges levels depth level) ≡ some d
      → W d v × (d < depth + levels)
  unfolding dependency_tree AtLevel
  tree_sound v d zero depth level pos h e = cc e
  tree_sound v d (suc levels) depth level pos h e =
      let next = next_level followed edges level in
      let rest = dependency_tree followed edges levels (suc depth) next in
      let e' = sym (get_item-level v depth level rest) ∙ e in
      elim (Bool-cases (contains v level)) [
        | inl here ↦
            let same = some_injective (rw here at e') in
            (subst (λ k. W k v) same (h.0 v here), omega (arith, same))
        | inr deeper ↦
            let (w, low) =
              tree_sound v d levels (suc depth) next (omega arith) (AtLevel-next depth level pos h)
                (rw deeper at e') in
            (w, omega (arith, low))
      ]

  tree_complete :
      (v : String) (n levels depth : ℕ) (level : List String)
      → 0 < depth
      → AtLevel depth level
      → W n v
      → depth ≤ n
      → n < depth + levels
      → (d : ℕ) × (get_item v (dependency_tree followed edges levels depth level) ≡ some d)
        × (d ≤ n)
  unfolding dependency_tree AtLevel
  tree_complete v n zero depth level pos h w low high = absurd (omega (arith, low, high))
  tree_complete v n (suc levels) depth level pos h w low high =
      let next = next_level followed edges level in
      let rest = dependency_tree followed edges levels (suc depth) next in
      elim (Bool-cases (contains v level)) [
        | inl here ↦ (depth, get_item-level v depth level rest ∙ rw here refl, low)
        | inr deeper ↦
            let (d, e, least) =
              tree_complete v n levels (suc depth) next (omega arith)
                (AtLevel-next depth level pos h) w (later deeper) (omega (arith, high)) in
            (d, get_item-level v depth level rest ∙ rw deeper e, least)
      ]
    where
      at_depth : n ≡ depth → contains v level ≡ true
      at_depth e = h.1 v (subst (λ k. W k v) e w)

      later : contains v level ≡ false → suc depth ≤ n
      later out = ground (arith, low, at_depth, out)

module _ (start v : String) (relation_types : List RelationType)
    (statuses : Option (List EpistemicStatus)) (store : RelationalGraphStore) where
  abbrev found : Option ℕ
  found = get_item v (find_transitive_dependencies start relation_types statuses store)

  abbrev pub WalkOf : ℕ → Type 0
  WalkOf n = Walk (is_followed relation_types statuses) store.edges start n v

  found-eq :
      found
      ≡ get_item v (
          dependency_tree
            (is_followed relation_types statuses)
            store.edges
            50
            1
            (next_level (is_followed relation_types statuses) store.edges (start ∷ [])))
  unfolding find_transitive_dependencies
  found-eq = get_item-grouped v _

  pub found_walk : (d : ℕ) → found ≡ some d → WalkOf d × (d ≤ 50)
  found_walk d h =
      let (w, low) =
        tree_sound (is_followed relation_types statuses) store.edges start v d 50 1
          (next_level (is_followed relation_types statuses) store.edges (start ∷ [])) (omega arith)
          (AtLevel-first (is_followed relation_types statuses) store.edges start)
          (sym found-eq ∙ h) in
      (w, omega (arith, low))

  pub walk_found : (n : ℕ) → WalkOf n → n ≤ 50 → (d : ℕ) × (found ≡ some d) × (d ≤ n)
  walk_found n w low =
      let (d, e, least) =
        tree_complete (is_followed relation_types statuses) store.edges start v n 50 1
          (next_level (is_followed relation_types statuses) store.edges (start ∷ [])) (omega arith)
          (AtLevel-first (is_followed relation_types statuses) store.edges start) w
          (walk-positive (is_followed relation_types statuses) store.edges start n v w)
          (omega (arith, low)) in
      (d, found-eq ∙ e, least)
