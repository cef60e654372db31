-- ===== src/Proto/Gateways/Types.antt =====
-- The second loop, and what `get_known_gateway_session_ids` answers for each session id.
use verse_entrance_server.Base.{
  ℕ, ◌+◌, ◌-◌, ◌≤◌, ◌<◌, ◌≡◌, refl, ap, ◌∙◌, inl, inr, Bool, true, false, Option, none, some, List,
  [], ◌∷◌, arith, ltb, if◌then◌else◌, Bool-cases, Option-cases, All, In, Bytes, bytes_eq,
  bytes_eq_iff, lookup, insert, remove, values, lookup-insert, lookup-remove,
}
use verse_entrance_server.Proto.Swarm.{
  SessionIdWithTtl, RoutingInfo, NodeType, routing_info, info, u32_mod, has_session_id,
  get_relations,
}
use verse_entrance_server.Proto.Iter.{recursive_iter}
use verse_entrance_server.Proto.Gateways.{
  Known, entry, dec_u32, initial_ttl, is_gateway, note_hint, note_hints, note_nodes, reflect_type,
  reflect_node, reflect_nodes, find_tracker, tracker_ids, known_of, get_known_gateway_session_ids,
  next_ttl,
}
use verse_entrance_server.Proto.Gateways.Hints.{
  ttl_of, max_hint, InRange, join, hints, note_nodes-ttl, note_nodes-hints, note_nodes_zero,
}

-- Whether the last visited node with the id is a gateway.
abbrev pub last_type : Bytes → List RoutingInfo → Option Bool
last_type sid [] = none
last_type sid (r ∷ rs) = elim (last_type sid rs) [
  | some b ↦ some b
  | none ↦ if has_session_id sid r then some (is_gateway (info r).node_type) else none
]

abbrev pub typed : Option Bool → Option ℕ → Option ℕ
typed none o = o
typed (some true) o = some initial_ttl
typed (some false) o = none

reflect_type-ttl :
    (sid : Bytes) (exists : Known) (t : NodeType) (id : Bytes)
    → ttl_of (lookup sid (reflect_type exists t id)) ≡ (
        if bytes_eq id sid
        then typed (some (is_gateway t)) (ttl_of (lookup sid exists))
        else ttl_of (lookup sid exists))
unfolding reflect_type
reflect_type-ttl sid exists t id = elim (Option-cases (lookup id exists)) [
  | inl e ↦
      rw (e, reflect_type)
        (ground
          (arith, lookup-insert id sid (entry id initial_ttl) exists, lookup-remove id sid exists))
  | inr (v, e) ↦
      rw (e, reflect_type)
        (ground (
          arith,
          lookup-insert id sid (record v { ttl = initial_ttl }) exists,
          lookup-remove id sid exists,
        ))
]

reflect_node-ttl :
    (sid : Bytes) (exists : Known) (r : RoutingInfo)
    → ttl_of (lookup sid (reflect_node exists r)) ≡ (
        if has_session_id sid r
        then typed (some (is_gateway (info r).node_type)) (ttl_of (lookup sid exists))
        else ttl_of (lookup sid exists))
unfolding has_session_id reflect_node
reflect_node-ttl sid exists (routing_info i r) = elim (Option-cases i.session_id) [
  | inl e ↦ rw e
  | inr (id, e) ↦ rw e (reflect_type-ttl sid exists i.node_type id)
]

typed_step :
    (b t : Bool) (later : Option Bool) (o : Option ℕ)
    → typed later (if b then typed (some t) o else o)
      ≡ typed (elim later [ some c ↦ some c | none ↦ if b then some t else none ]) o
typed_step true t none o = refl
typed_step false t none o = refl
typed_step true true (some c) o = ground arith
typed_step true false (some c) o = ground arith
typed_step false t (some c) o = refl

reflect_nodes-ttl :
    (sid : Bytes) (exists : Known) (rs : List RoutingInfo)
    → ttl_of (lookup sid (reflect_nodes exists rs))
      ≡ typed (last_type sid rs) (ttl_of (lookup sid exists))
unfolding reflect_nodes
reflect_nodes-ttl sid exists [] = refl
reflect_nodes-ttl sid exists (r ∷ rs) =
    reflect_nodes-ttl sid (reflect_node exists r) rs
    ∙ rw (reflect_node-ttl sid exists r) (
        typed_step (has_session_id sid r) (is_gateway (info r).node_type) (last_type sid rs)
          (ttl_of (lookup sid exists)))

-- Each value repeats its key.
abbrev IsKeyed : Known → Type 0
IsKeyed m = All (λ (p : Bytes × SessionIdWithTtl). p.1.session_id ≡ p.0) m

lookup-IsKeyed :
    (k : Bytes) (m : Known) {v : SessionIdWithTtl}
    → IsKeyed m
    → lookup k m ≡ some v
    → v.session_id ≡ k
unfolding lookup
lookup-IsKeyed k [] h e = cc
lookup-IsKeyed k ((j, w) ∷ m) {v} h e =
    ground (arith, bytes_eq_iff j k, lookup-IsKeyed k m {v = v} h.1)

insert-IsKeyed :
    (k : Bytes) (v : SessionIdWithTtl) (m : Known)
    → v.session_id ≡ k
    → IsKeyed m
    → IsKeyed (insert k v m)
unfolding insert
insert-IsKeyed k v [] e h = (e, tt)
insert-IsKeyed k v ((j, w) ∷ m) e h = elim (Bool-cases (bytes_eq j k)) [
  | inl same ↦ rw same (e, h.1)
  | inr other ↦ rw other (h.0, insert-IsKeyed k v m e h.1)
]

remove-IsKeyed : (k : Bytes) (m : Known) → IsKeyed m → IsKeyed (remove k m)
unfolding remove
remove-IsKeyed k [] h = tt
remove-IsKeyed k ((j, w) ∷ m) h = elim (Bool-cases (bytes_eq j k)) [
  | inl same ↦ rw same (remove-IsKeyed k m h.1)
  | inr other ↦ rw other (h.0, remove-IsKeyed k m h.1)
]

note_hint-IsKeyed : (m : Known) (o : SessionIdWithTtl) → IsKeyed m → IsKeyed (note_hint m o)
unfolding note_hint
note_hint-IsKeyed m o h = elim (Option-cases (lookup o.session_id m)) [
  | inl e ↦
      rw (e, note_hint) (insert-IsKeyed o.session_id (entry o.session_id (dec_u32 o.ttl)) m refl h)
  | inr (v, e) ↦
      rw (e, note_hint)
        (elim (Bool-cases (ltb v.ttl o.ttl)) [
          | inl lt ↦ rw lt (
              insert-IsKeyed o.session_id (record v { ttl = dec_u32 o.ttl }) m
                (lookup-IsKeyed o.session_id m h e) h)
          | inr ge ↦ rw ge h
        ])
]

note_hints-IsKeyed :
    (m : Known) (os : List SessionIdWithTtl) → IsKeyed m → IsKeyed (note_hints m os)
unfolding note_hints
note_hints-IsKeyed m [] h = h
note_hints-IsKeyed m (o ∷ os) h = note_hints-IsKeyed (note_hint m o) os (note_hint-IsKeyed m o h)

reflect_type-IsKeyed :
    (m : Known) (t : NodeType) (id : Bytes) → IsKeyed m → IsKeyed (reflect_type m t id)
unfolding reflect_type
reflect_type-IsKeyed m t id h = elim (Bool-cases (is_gateway t)) [
  | inr other ↦ rw other (remove-IsKeyed id m h)
  | inl gate ↦ rw gate (elim (Option-cases (lookup id m)) [
    | inl e ↦ rw e (insert-IsKeyed id (entry id initial_ttl) m refl h)
    | inr (v, e) ↦
        rw e (insert-IsKeyed id (record v { ttl = initial_ttl }) m (lookup-IsKeyed id m h e) h)
  ])
]

reflect_node-IsKeyed : (m : Known) (r : RoutingInfo) → IsKeyed m → IsKeyed (reflect_node m r)
unfolding reflect_node
reflect_node-IsKeyed m r h = elim (Option-cases (info r).session_id) [
  | inl e ↦ rw (e, reflect_node) h
  | inr (id, e) ↦ rw (e, reflect_node) (reflect_type-IsKeyed m (info r).node_type id h)
]

reflect_nodes-IsKeyed :
    (m : Known) (rs : List RoutingInfo) → IsKeyed m → IsKeyed (reflect_nodes m rs)
unfolding reflect_nodes
reflect_nodes-IsKeyed m [] h = h
reflect_nodes-IsKeyed m (r ∷ rs) h =
    reflect_nodes-IsKeyed (reflect_node m r) rs (reflect_node-IsKeyed m r h)

-- The time to live that a list of entries gives an id.
abbrev pub find_ttl : Bytes → List SessionIdWithTtl → Option ℕ
find_ttl sid [] = none
find_ttl sid (v ∷ vs) = if bytes_eq v.session_id sid then some v.ttl else find_ttl sid vs

find_ttl-values :
    (sid : Bytes) (m : Known) → IsKeyed m → find_ttl sid (values m) ≡ ttl_of (lookup sid m)
unfolding lookup
find_ttl-values sid [] h = refl
find_ttl-values sid ((j, w) ∷ m) h = rw h.0 (ground (arith, find_ttl-values sid m h.1))

known_of-ttl :
    (sid : Bytes) (all : List RoutingInfo)
    → find_tracker all ≡ none
    → find_ttl sid (known_of all)
      ≡ typed (last_type sid all) (ttl_of (lookup sid (note_nodes [] all)))
unfolding known_of
known_of-ttl sid all e =
    rw (e, known_of)
      (find_ttl-values sid (reflect_nodes (note_nodes [] all) all) (
          reflect_nodes-IsKeyed (note_nodes [] all) all
            (rw (note_nodes-hints [] all) (note_hints-IsKeyed [] (hints all) tt)))
        ∙ reflect_nodes-ttl sid (note_nodes [] all) all)

-- Where no node is a tracker and every hint has a time to live from 1 up, the answer gives an id the
-- initial time to live if the last visited node with the id is a gateway, nothing if that node is
-- none, and where no node has the id, the largest hint minus one.
pub get_known_gateway_session_ids-ttl :
    (roots : List RoutingInfo) (sid : Bytes)
    → find_tracker (recursive_iter roots) ≡ none
    → All InRange (hints (recursive_iter roots))
    → find_ttl sid (get_known_gateway_session_ids roots)
      ≡ typed
          (last_type sid (recursive_iter roots))
          (join none (max_hint sid (hints (recursive_iter roots))))
unfolding get_known_gateway_session_ids
get_known_gateway_session_ids-ttl roots sid e r =
    known_of-ttl sid (recursive_iter roots) e
    ∙ ap (typed (last_type sid (recursive_iter roots)))
        (note_nodes-ttl sid (recursive_iter roots) r)

-- If the first hint of all is for an id with a time to live of 0, no node has the id and no node is a
-- tracker, the answer gives the id the largest `u32`, whatever the other hints are.
get_known_gateway_session_ids_zero :
    (roots : List RoutingInfo) (sid : Bytes) (os : List SessionIdWithTtl)
    → find_tracker (recursive_iter roots) ≡ none
    → last_type sid (recursive_iter roots) ≡ none
    → hints (recursive_iter roots) ≡ entry sid 0 ∷ os
    → All (λ o. o.ttl < u32_mod) os
    → find_ttl sid (get_known_gateway_session_ids roots) ≡ some (u32_mod - 1)
unfolding get_known_gateway_session_ids
get_known_gateway_session_ids_zero roots sid os e l h r =
    known_of-ttl sid (recursive_iter roots) e
    ∙ rw l (note_nodes_zero sid os (recursive_iter roots) h r)

next_ttl-In :
    (vs : List SessionIdWithTtl) (o : SessionIdWithTtl)
    → In o (next_ttl vs)
    → (v : SessionIdWithTtl) × In v vs
      × (v.session_id ≡ o.session_id)
      × (v.ttl ≡ o.ttl + 1)
      × (1 ≤ o.ttl)
unfolding next_ttl
next_ttl-In [] o m = elim m [ ]
next_ttl-In (v ∷ vs) o m = elim (Bool-cases (ltb 1 v.ttl)) [
  | inr small ↦ let (w, k, e, f, g) = next_ttl-In vs o (rw small at m) in (w, inr k, e, f, g)
  | inl big ↦ elim (rw big at m) [
    | inl h ↦ (
      v,
      inl refl,
      ap (λ (x : SessionIdWithTtl). x.session_id) h,
      ground (arith, ap (λ (x : SessionIdWithTtl). x.ttl) h),
      ground (arith, ap (λ (x : SessionIdWithTtl). x.ttl) h),
    )
    | inr k ↦ let (w, l, e, f, g) = next_ttl-In vs o k in (w, inr l, e, f, g)
  ]
]

-- With a tracker in the forest, the ids are those of the nodes that the tracker lists, each with the
-- initial time to live; the hints count for nothing.
get_known_gateway_session_ids_tracker :
    (roots : List RoutingInfo) (t : RoutingInfo) (gateways : List RoutingInfo)
    → find_tracker (recursive_iter roots) ≡ some t
    → get_relations t ≡ some gateways
    → get_known_gateway_session_ids roots ≡ tracker_ids gateways
unfolding get_known_gateway_session_ids known_of
get_known_gateway_session_ids_tracker roots t gateways e h = rw (e, known_of, h)
