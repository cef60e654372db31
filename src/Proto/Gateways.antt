-- ===== src/Proto/Gateways.antt =====
-- `get_known_gateway_session_ids` of proto/src/routing_info_ex.rs: which gateways the nodes of a
-- forest know of, with a time to live. A release build: `ttl - 1` on a `u32` wraps around.
pub mod Hints
pub mod Types
use verse_entrance_server.Base.{
  ℕ, zero, suc, ◌+◌, ◌-◌, ◌*◌, ◌/◌, ◌%◌, ◌^◌, ◌≤◌, ◌<◌, max, min, ◌≡◌, refl, sym, ap, ap₂, subst,
  ◌∙◌, ◌≢◌, ◌↔◌, ◌⊎◌, inl, inr, Bool, true, false, ◌&&◌, ◌||◌, not, Option, none, some, List, [],
  ◌∷◌, ◌++◌, map, append_assoc, append-nil, arith, ltb, leb, ◌==◌, if◌then◌else◌, leb→le, leb-false,
  ==_iff, Bool-cases, Option-cases, unwrap_or, usize_max, dec_u64, length, retain, any, take, All,
  In, In-append_left, In-append_right, In-append_cases, length-append, length-map, length-retain-le,
  retain-append, length-take, any-append_true, Bytes, codes, bytes_eq, bytes_eq_refl,
  bytes_eq_sound, bytes_eq_iff, contains, starts_with, ends_with, lookup, insert, remove, values,
  lookup-insert, lookup-remove, insert_missing, remove_missing, remove-append, values-append,
}
use verse_entrance_server.Proto.Swarm.{
  NodeType, unspecified, normal, gateway, tracker, SessionIdWithTtl, RoutingInfo, info,
  get_relations, u32_mod,
}
use verse_entrance_server.Proto.Iter.{recursive_iter}

abbrev pub initial_ttl : ℕ
initial_ttl = 6

-- `ttl - 1` on a `u32`.
abbrev pub dec_u32 : ℕ → ℕ
dec_u32 t = (t + u32_mod - 1) % u32_mod

abbrev pub Known : Type 0
Known = List (Bytes × SessionIdWithTtl)

abbrev pub entry : Bytes → ℕ → SessionIdWithTtl
entry sid t = record { session_id = sid; ttl = t }

-- The body of the loop over `r.known_gateway_session_ids`.
unfoldable pub note_hint : Known → SessionIdWithTtl → Known
note_hint exists o = elim (lookup o.session_id exists) [
  | some v ↦
      if ltb v.ttl o.ttl
      then insert o.session_id (record v { ttl = dec_u32 o.ttl }) exists
      else exists
  | none ↦ insert o.session_id (entry o.session_id (dec_u32 o.ttl)) exists
]

unfoldable pub note_hints : Known → List SessionIdWithTtl → Known
unfolding note_hint
note_hints exists [] = exists
note_hints exists (o ∷ os) = note_hints (note_hint exists o) os

unfoldable pub note_nodes : Known → List RoutingInfo → Known
unfolding note_hints
note_nodes exists [] = exists
note_nodes exists (r ∷ rs) = note_nodes (note_hints exists (info r).known_gateway_session_ids) rs

abbrev pub is_gateway : NodeType → Bool
is_gateway gateway = true
is_gateway _ = false

abbrev pub is_tracker : NodeType → Bool
is_tracker tracker = true
is_tracker _ = false

-- The body of the second loop, for a node with a session id.
unfoldable pub reflect_type : Known → NodeType → Bytes → Known
reflect_type exists t sid =
    if is_gateway t
    then (elim (lookup sid exists) [
      | some v ↦ insert sid (record v { ttl = initial_ttl }) exists
      | none ↦ insert sid (entry sid initial_ttl) exists
    ])
    else remove sid exists

unfoldable pub reflect_node : Known → RoutingInfo → Known
unfolding reflect_type
reflect_node exists r = elim (info r).session_id [
  | none ↦ exists
  | some sid ↦ reflect_type exists (info r).node_type sid
]

unfoldable pub reflect_nodes : Known → List RoutingInfo → Known
unfolding reflect_node
reflect_nodes exists [] = exists
reflect_nodes exists (r ∷ rs) = reflect_nodes (reflect_node exists r) rs

unfoldable pub find_tracker : List RoutingInfo → Option RoutingInfo
find_tracker [] = none
find_tracker (r ∷ rs) = if is_tracker (info r).node_type then some r else find_tracker rs

unfoldable pub tracker_ids : List RoutingInfo → List SessionIdWithTtl
tracker_ids [] = []
tracker_ids (v ∷ vs) = elim (info v).session_id [
  | none ↦ tracker_ids vs
  | some sid ↦ entry sid initial_ttl ∷ tracker_ids vs
]

unfoldable pub known_of : List RoutingInfo → List SessionIdWithTtl
unfolding find_tracker tracker_ids note_nodes reflect_nodes get_relations
known_of all = elim (find_tracker all) [
  | some t ↦ elim (get_relations t) [ none ↦ [] | some gateways ↦ tracker_ids gateways ]
  | none ↦ values (reflect_nodes (note_nodes [] all) all)
]

unfoldable pub get_known_gateway_session_ids : List RoutingInfo → List SessionIdWithTtl
unfolding known_of recursive_iter
get_known_gateway_session_ids roots = known_of (recursive_iter roots)

unfoldable pub next_ttl : List SessionIdWithTtl → List SessionIdWithTtl
next_ttl [] = []
next_ttl (v ∷ vs) = if ltb 1 v.ttl then record v { ttl = v.ttl - 1 } ∷ next_ttl vs else next_ttl vs

unfoldable pub get_known_gateway_session_ids_next_ttl : List RoutingInfo → List SessionIdWithTtl
unfolding get_known_gateway_session_ids next_ttl
get_known_gateway_session_ids_next_ttl roots = next_ttl (get_known_gateway_session_ids roots)
