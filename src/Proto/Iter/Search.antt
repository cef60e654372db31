-- ===== src/Proto/Iter/Search.antt =====
-- `is_known` and `get_min_depth` of proto/src/routing_info_ex.rs against the nodes of the tree.
use verse_entrance_server.Base.{
  ℕ, ◌≤◌, min, ◌≡◌, refl, sym, ap, subst, ◌∙◌, ◌↔◌, ◌⊎◌, inl, inr, true, Option, none, some, List,
  [], ◌∷◌, arith, Bool-cases, Option-cases, any, In, Bytes,
}
use mathlib.Core.List.{Permᴰ}
use mathlib.Core.List.Permᴰ
use verse_entrance_server.Proto.Swarm.{RoutingInfo, nil, cons, has_session_id}
use verse_entrance_server.Proto.Iter.{
  recursive_iter_with_depth, nodes, depths_of, insert_sorted, sorted, first, get_min_depth,
  is_known,
}
use verse_entrance_server.Proto.Iter.Visits.{tree_nodes, recursive_iter_with_depth-perm}

In-perm : {A : Type 0} (a : A) {xs ys : List A} → Permᴰ xs ys → In a xs → In a ys
In-perm a Permᴰ.nil m = m
In-perm a (Permᴰ.cons e p) (inl h) = inl (sym e ∙ h)
In-perm a (Permᴰ.cons e p) (inr m) = inr (In-perm a p m)
In-perm a (Permᴰ.swap e f) (inl h) = inr (inl (sym e ∙ h))
In-perm a (Permᴰ.swap e f) (inr (inl h)) = inl (sym f ∙ h)
In-perm a (Permᴰ.swap e f) (inr (inr m)) = inr (inr m)
In-perm a (Permᴰ.trans p q) m = In-perm a q (In-perm a p m)

abbrev pub Items : Type 0
Items = List (RoutingInfo × ℕ)

-- A node of the tree `v` with the session id `sid`, at depth `d`.
abbrev pub Holds : Bytes → Items → ℕ → Type 0
Holds sid items d = (x : RoutingInfo) × In (x, d) items × (has_session_id sid x ≡ true)

pub iter-perm : (v : RoutingInfo) → Permᴰ (recursive_iter_with_depth (v ∷ [])) (tree_nodes v 0)
iter-perm v =
    Permᴰ.trans ((recursive_iter_with_depth-perm (cons v nil) 0).0)
      (Permᴰ.append-nil (tree_nodes v 0))

pub Holds-perm :
    (sid : Bytes) {xs ys : Items} (d : ℕ) → Permᴰ xs ys → Holds sid xs d → Holds sid ys d
Holds-perm sid d p (x, m, h) = (x, In-perm (x, d) p m, h)

-- The depths listed are those of the nodes with the id.
depths_split :
    (sid : Bytes) (v : RoutingInfo) (e d : ℕ) (items : Items)
    → In d (depths_of sid ((v, e) ∷ items))
    → ((has_session_id sid v ≡ true) × (e ≡ d)) ⊎ In d (depths_of sid items)
unfolding depths_of
depths_split sid v e d items m = elim (Bool-cases (has_session_id sid v)) [
  | inl known ↦ elim (rw known at m) [ inl h ↦ inl (known, h) | inr k ↦ inr k ]
  | inr other ↦ inr (rw other at m)
]

depth-Holds : (sid : Bytes) (items : Items) (d : ℕ) → In d (depths_of sid items) → Holds sid items d
unfolding depths_of
depth-Holds sid [] d m = elim m [ ]
depth-Holds sid ((v, e) ∷ items) d m = elim (depths_split sid v e d items m) [
  | inl (known, h) ↦ (v, inl (rw h), known)
  | inr k ↦ let (x, l, h) = depth-Holds sid items d k in (x, inr l, h)
]

depths_head :
    (sid : Bytes) (v : RoutingInfo) (e d : ℕ) (items : Items)
    → has_session_id sid v ≡ true
    → e ≡ d
    → In d (depths_of sid ((v, e) ∷ items))
unfolding depths_of
depths_head sid v e d items known h = rw known (inl h)

depths_tail :
    (sid : Bytes) (v : RoutingInfo) (e d : ℕ) (items : Items)
    → In d (depths_of sid items)
    → In d (depths_of sid ((v, e) ∷ items))
unfolding depths_of
depths_tail sid v e d items k = elim (Bool-cases (has_session_id sid v)) [
  | inl known ↦ rw known (inr k)
  | inr other ↦ rw other k
]

Holds-depth : (sid : Bytes) (items : Items) (d : ℕ) → Holds sid items d → In d (depths_of sid items)
Holds-depth sid [] d (x, m, h) = elim m [ ]
Holds-depth sid ((v, e) ∷ items) d (x, inl m, h) =
    depths_head sid v e d items (rw (ap (λ (p : RoutingInfo × ℕ). p.0) m) h)
      (ap (λ (p : RoutingInfo × ℕ). p.1) m)
Holds-depth sid ((v, e) ∷ items) d (x, inr m, h) =
    depths_tail sid v e d items (Holds-depth sid items d (x, m, h))

-- The head of the sorted list is its least element.
abbrev IsLeast : ℕ → List ℕ → Type 0
IsLeast a ds = In a ds × ((b : ℕ) → In b ds → a ≤ b)

first-insert_sorted :
    (a : ℕ) (ds : List ℕ)
    → first (insert_sorted a ds) ≡ some (elim (first ds) [ none ↦ a | some b ↦ min a b ])
unfolding insert_sorted
first-insert_sorted a [] = refl
first-insert_sorted a (b ∷ bs) = ground arith

abbrev least_of : ℕ → Option ℕ → ℕ
least_of a none = a
least_of a (some b) = min a b

first-sorted_cons :
    (d : ℕ) (ds : List ℕ) (a : ℕ) (o : Option ℕ)
    → first (sorted (d ∷ ds)) ≡ some a
    → first (sorted ds) ≡ o
    → a ≡ least_of d o
unfolding sorted
first-sorted_cons d ds a o h e = ground (arith, first-insert_sorted d (sorted ds))

first-sorted-none : (ds : List ℕ) (b : ℕ) → first (sorted ds) ≡ none → In b ds → ⊥
unfolding sorted
first-sorted-none [] b h m = m
first-sorted-none (d ∷ ds) b h m = cc (first-insert_sorted d (sorted ds))

IsLeast-cons : (d b a : ℕ) (ds : List ℕ) → a ≡ min d b → IsLeast b ds → IsLeast a (d ∷ ds)
IsLeast-cons d b a ds e (m, least) = (
  elim (le_cases d b) [
    | inl h ↦ inl (omega arith)
    | inr h ↦ inr (subst (λ (x : ℕ). In x ds) (omega arith) m)
  ],
  λ c k. elim k [ inl h ↦ omega arith | inr l ↦ omega (arith, least c l) ],
)
  where
    le_cases : (x y : ℕ) → (x ≤ y) ⊎ (y ≤ x)
    le_cases x y = omega arith

first-sorted : (ds : List ℕ) (a : ℕ) → first (sorted ds) ≡ some a → IsLeast a ds
unfolding sorted
first-sorted [] a h = cc
first-sorted (d ∷ ds) a h = elim (Option-cases (first (sorted ds))) [
  | inl e ↦
      let same : a ≡ d = first-sorted_cons d ds a none h e in
      (
        inl (sym same),
        λ c k. elim k [ inl l ↦ omega arith | inr l ↦ absurd (first-sorted-none ds c e l) ],
      )
  | inr (b, e) ↦ IsLeast-cons d b a ds (first-sorted_cons d ds a (some b) h e) (first-sorted ds b e)
]

get_min_depth-Holds :
    (v : RoutingInfo) (sid : Bytes) (d : ℕ)
    → get_min_depth v sid ≡ some d
    → Holds sid (tree_nodes v 0) d
unfolding get_min_depth
get_min_depth-Holds v sid d h =
    let items : Items = recursive_iter_with_depth (v ∷ []) in
    Holds-perm sid d (iter-perm v)
      (depth-Holds sid items d (first-sorted (depths_of sid items) d h).0)

get_min_depth-le :
    (v : RoutingInfo) (sid : Bytes) (e : ℕ)
    → Holds sid (tree_nodes v 0) e
    → (d : ℕ) × (get_min_depth v sid ≡ some d) × (d ≤ e)
unfolding get_min_depth
get_min_depth-le v sid e k = elim (Option-cases (get_min_depth v sid)) [
  | inl h ↦ absurd (first-sorted-none (depths_of sid items) e h listed)
  | inr (d, h) ↦ (d, h, (first-sorted (depths_of sid items) d h).1 e listed)
]
  where
    items : Items
    items = recursive_iter_with_depth (v ∷ [])

    listed : In e (depths_of sid items)
    listed = Holds-depth sid items e (Holds-perm sid e (Permᴰ.symm (iter-perm v)) k)

some_same : (a b : ℕ) → ◌≡◌ {A = Option ℕ} (some a) (some b) → a ≡ b
some_same a b e = ground arith

-- `get_min_depth` returns a depth exactly if a node of the tree has the session id at that depth and
-- no node has it at a smaller one.
pub get_min_depth_iff :
    (v : RoutingInfo) (sid : Bytes) (d : ℕ)
    → (get_min_depth v sid ≡ some d)
      ↔ (Holds sid (tree_nodes v 0) d × ((e : ℕ) → Holds sid (tree_nodes v 0) e → d ≤ e))
get_min_depth_iff v sid d = (forth, back)
  where
    forth :
        get_min_depth v sid ≡ some d
        → Holds sid (tree_nodes v 0) d × ((e : ℕ) → Holds sid (tree_nodes v 0) e → d ≤ e)
    forth h = (
      get_min_depth-Holds v sid d h,
      λ e k.
          let (d', h', l) = get_min_depth-le v sid e k in
          omega (arith, some_same d d' (sym h ∙ h')),
    )

    back :
        Holds sid (tree_nodes v 0) d × ((e : ℕ) → Holds sid (tree_nodes v 0) e → d ≤ e)
        → get_min_depth v sid ≡ some d
    back (k, least) =
        let (d', h', l) = get_min_depth-le v sid d k in
        let same : d' ≡ d = omega (arith, least d' (get_min_depth-Holds v sid d' h')) in
        h' ∙ ap (λ (n : ℕ). some n) same

pub any-nodes :
    (sid : Bytes) (items : Items)
    → any (has_session_id sid) (nodes items) ≡ true
    → (d : ℕ) × Holds sid items d
any-nodes sid [] h = cc
any-nodes sid ((v, d) ∷ items) h = elim (Bool-cases (has_session_id sid v)) [
  | inl known ↦ (d, (v, inl refl, known))
  | inr other ↦
      let found = any-nodes sid items (rw other at h) in
      (found.0, (found.1.0, inr found.1.1, found.1.2))
]

pub nodes-any :
    (sid : Bytes) (items : Items) (d : ℕ)
    → Holds sid items d
    → any (has_session_id sid) (nodes items) ≡ true
nodes-any sid [] d (x, m, h) = elim m [ ]
nodes-any sid ((v, e) ∷ items) d (x, inl m, h) = rw (ap (λ (p : RoutingInfo × ℕ). p.0) m, h)
nodes-any sid ((v, e) ∷ items) d (x, inr m, h) = ground (arith, nodes-any sid items d (x, m, h))

-- `is_known` answers true exactly when some node of the tree, the root included, has the id.
is_known_iff :
    (v : RoutingInfo) (sid : Bytes)
    → (is_known v sid ≡ true) ↔ ((d : ℕ) × Holds sid (tree_nodes v 0) d)
unfolding is_known
is_known_iff v sid = (
  λ h.
      let (d, k) = any-nodes sid (recursive_iter_with_depth (v ∷ [])) h in
      (d, Holds-perm sid d (iter-perm v) k),
  λ k.
      nodes-any sid (recursive_iter_with_depth (v ∷ [])) k.0
        (Holds-perm sid k.0 (Permᴰ.symm (iter-perm v)) k.1),
)
