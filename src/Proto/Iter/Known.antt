-- ===== src/Proto/Iter/Known.antt =====
-- What `add_known` of proto/src/routing_info_ex.rs adds to what `is_known` answers.
use verse_entrance_server.Base.{
  ℕ, ◌+◌, ◌≡◌, refl, sym, ap, ◌∙◌, Bool, true, false, ◌||◌, some, List, [], ◌∷◌, ◌++◌, append_assoc,
  arith, unwrap_or, length, any, length-append, Bytes, bytes_eq,
}
use mathlib.Core.List.Permᴰ
use verse_entrance_server.Proto.Swarm.{
  RoutingInfo, Relation, routing_info, absent, count, routing_infos, normal, of_infos,
  of_infos-infos, infos-of_infos, has_session_id, add_known, NodeInfo, default_info, relation_infos,
  get_relation_count, get_relations,
}
use verse_entrance_server.Proto.Iter.{recursive_iter_with_depth, nodes, is_known}
use verse_entrance_server.Proto.Iter.Visits.{forest_nodes, tree_nodes, below_nodes}
use verse_entrance_server.Proto.Iter.Search.{iter-perm, Holds-perm, any-nodes, nodes-any, Items}

bool_ext : (b c : Bool) → (b ≡ true → c ≡ true) → (c ≡ true → b ≡ true) → b ≡ c
bool_ext true c f g = sym (f refl)
bool_ext false true f g = g refl
bool_ext false false f g = refl

-- `is_known` asks the nodes in the order parents first, too.
is_known-any :
    (v : RoutingInfo) (sid : Bytes)
    → is_known v sid ≡ any (has_session_id sid) (nodes (tree_nodes v 0))
unfolding is_known
is_known-any v sid =
    bool_ext _ _
      (λ h.
        let (d, k) = any-nodes sid items h in
        nodes-any sid (tree_nodes v 0) d (Holds-perm sid d (iter-perm v) k))
      (λ h.
        let (d, k) = any-nodes sid (tree_nodes v 0) h in
        nodes-any sid items d (Holds-perm sid d (Permᴰ.symm (iter-perm v)) k))
  where
    items : Items
    items = recursive_iter_with_depth (v ∷ [])

any-append :
    {A : Type 0} (p : A → Bool) (xs ys : List A) → any p (xs ++ ys) ≡ (any p xs || any p ys)
any-append p [] ys = refl
any-append p (x ∷ xs) ys = ground (arith, any-append p xs ys)

nodes-append : (s t : Items) → nodes (s ++ t) ≡ nodes s ++ nodes t
nodes-append [] t = refl
nodes-append ((v, d) ∷ s) t = rw (nodes-append s t)

forest_nodes-append :
    (d : ℕ) (vs ws : List RoutingInfo)
    → forest_nodes (of_infos (vs ++ ws)) d
      ≡ forest_nodes (of_infos vs) d ++ forest_nodes (of_infos ws) d
forest_nodes-append d [] ws = refl
forest_nodes-append d (v ∷ vs) ws = rw (forest_nodes-append d vs ws, append_assoc)

below_nodes_lem :
    (r : Relation) (d : ℕ)
    → forest_nodes (of_infos (unwrap_or (relation_infos r) [])) d ≡ below_nodes r d
below_nodes_lem absent d = refl
below_nodes_lem (count n) d = refl
below_nodes_lem (routing_infos vs) d = ap (λ ws. forest_nodes ws d) (of_infos-infos vs)

or_assoc : (a b c : Bool) → (a || (b || c)) ≡ ((a || b) || c)
or_assoc true b c = refl
or_assoc false b c = refl

abbrev leaf : Bytes → RoutingInfo
leaf sid = routing_info (record default_info { node_type = normal; session_id = some sid }) absent

tree_nodes-add_known :
    (i : NodeInfo) (r : Relation) (sid : Bytes)
    → tree_nodes (add_known sid (routing_info i r)) 0
      ≡ (add_known sid (routing_info i r), 0) ∷ below_nodes r 1 ++ (leaf sid, 1) ∷ []
unfolding add_known
tree_nodes-add_known i r sid = ap (◌∷◌ (add_known sid (routing_info i r), 0)) (
    forest_nodes-append 1 (unwrap_or (relation_infos r) []) (leaf sid ∷ [])
    ∙ ap (λ (s : Items). s ++ (leaf sid, 1) ∷ []) (below_nodes_lem r 1))

any-leaf :
    (id sid : Bytes) (s : Items)
    → any (has_session_id id) (nodes (s ++ (leaf sid, 1) ∷ []))
      ≡ (any (has_session_id id) (nodes s) || bytes_eq sid id)
unfolding has_session_id
any-leaf id sid s =
    rw
      (
        nodes-append s ((leaf sid, 1) ∷ []),
        any-append (has_session_id id) (nodes s) (leaf sid ∷ []),
      )
      (ground arith)

has_session_id-add_known :
    (v : RoutingInfo) (sid id : Bytes) → has_session_id id (add_known sid v) ≡ has_session_id id v
unfolding has_session_id add_known
has_session_id-add_known (routing_info i r) sid id = refl

known_ids-add_known :
    (v : RoutingInfo) (sid id : Bytes)
    → is_known (add_known sid v) id ≡ (is_known v id || bytes_eq sid id)
known_ids-add_known (routing_info i r) sid id =
    rw (is_known-any (add_known sid (routing_info i r)) id, is_known-any (routing_info i r) id)
      (ap (λ (s : Items). any (has_session_id id) (nodes s)) (tree_nodes-add_known i r sid)
        ∙ ground (
          arith,
          has_session_id-add_known (routing_info i r) sid id,
          any-leaf id sid (below_nodes r 1),
        ))

length-add_known :
    (v : RoutingInfo) (sid : Bytes)
    → get_relation_count (add_known sid v) ≡ length (unwrap_or (get_relations v) []) + 1
unfolding get_relation_count add_known get_relations
length-add_known (routing_info i r) sid =
    rw (infos-of_infos (unwrap_or (relation_infos r) [] ++ leaf sid ∷ []))
      (length-append (unwrap_or (relation_infos r) []) (leaf sid ∷ []))

-- After `add_known(s)` exactly the ids known before and `s` are known, and there is one relation more
-- than the node listed before. (A relation that was only a count is replaced by the one entry.)
pub is_known-add_known :
    (v : RoutingInfo) (sid id : Bytes)
    → (is_known (add_known sid v) id ≡ (is_known v id || bytes_eq sid id))
      × (get_relation_count (add_known sid v) ≡ length (unwrap_or (get_relations v) []) + 1)
is_known-add_known v sid id = (known_ids-add_known v sid id, length-add_known v sid)
