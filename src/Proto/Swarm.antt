-- ===== src/Proto/Swarm.antt =====
-- proto/pb/swarm.proto and the accessors of proto/src/lib.rs and proto/src/routing_info_ex.rs.
-- `node_type` is what the generated accessor of that name returns; the three coordinates of a
-- position are opaque bit patterns, which the crate only copies.
use verse_entrance_server.Base.{
  ℕ, ◌^◌, ◌≡◌, refl, ap, Bool, true, false, Option, none, some, List, [], ◌∷◌, ◌++◌, unwrap_or,
  length, Bytes, bytes_eq,
}

pub data NodeType : Type 0 where
  unspecified normal gateway tracker : NodeType

pub record Position3D : Type 0 where
  pub x : ℕ
  pub y : ℕ
  pub z : ℕ

pub record GatewayState : Type 0 where
  pub last_connect_time : ℕ
  pub last_disconnect_time : ℕ

pub record SessionIdWithTtl : Type 0 where
  pub session_id : Bytes
  pub ttl : ℕ

-- The fields of a `RoutingInfo` other than `relation`.
pub record NodeInfo : Type 0 where
  pub node_type : NodeType
  pub session_id : Option Bytes
  pub position : Option Position3D
  pub gateway_state : Option GatewayState
  pub known_gateway_session_ids : List SessionIdWithTtl
  pub is_lockon : Bool

mutual
  pub data RoutingInfo : Type 0 where
    routing_info : NodeInfo → Relation → RoutingInfo

  -- The `oneof relation`, which may be absent.
  pub data Relation : Type 0 where
    absent : Relation
    count : ℕ → Relation
    routing_infos : RoutingInfos → Relation

  pub data RoutingInfos : Type 0 where
    nil : RoutingInfos
    cons : RoutingInfo → RoutingInfos → RoutingInfos

abbrev pub info : RoutingInfo → NodeInfo
info (routing_info i r) = i

abbrev pub relation : RoutingInfo → Relation
relation (routing_info i r) = r

abbrev pub infos : RoutingInfos → List RoutingInfo
infos nil = []
infos (cons v vs) = v ∷ infos vs

abbrev pub of_infos : List RoutingInfo → RoutingInfos
of_infos [] = nil
of_infos (v ∷ vs) = cons v (of_infos vs)

pub infos-of_infos : (vs : List RoutingInfo) → infos (of_infos vs) ≡ vs
infos-of_infos [] = refl
infos-of_infos (v ∷ vs) = ap (◌∷◌ v) (infos-of_infos vs)

pub of_infos-infos : (vs : RoutingInfos) → of_infos (infos vs) ≡ vs
of_infos-infos nil = refl
of_infos-infos (cons v vs) = ap (cons v) (of_infos-infos vs)

abbrev pub u32_mod : ℕ
u32_mod = 2 ^ 32

-- `NodeType::default()` and the like: what `..Default::default()` fills in.
abbrev pub default_info : NodeInfo
default_info = record {
  node_type = unspecified;
  session_id = none;
  position = none;
  gateway_state = none;
  known_gateway_session_ids = [];
  is_lockon = false;
}

unfoldable pub has_count : RoutingInfo → Bool
has_count (routing_info i (count n)) = true
has_count (routing_info i _) = false

unfoldable pub has_routing_infos : RoutingInfo → Bool
has_routing_infos (routing_info i (routing_infos vs)) = true
has_routing_infos (routing_info i _) = false

unfoldable pub set_count : ℕ → RoutingInfo → RoutingInfo
set_count n (routing_info i r) = routing_info i (count n)

abbrev pub relation_count : Relation → ℕ
relation_count absent = 0
relation_count (count n) = n
relation_count (routing_infos vs) = length (infos vs)

unfoldable pub get_relation_count : RoutingInfo → ℕ
get_relation_count (routing_info i r) = relation_count r

abbrev pub relation_infos : Relation → Option (List RoutingInfo)
relation_infos (routing_infos vs) = some (infos vs)
relation_infos absent = none
relation_infos (count n) = none

unfoldable pub get_relations : RoutingInfo → Option (List RoutingInfo)
get_relations (routing_info i r) = relation_infos r

unfoldable pub set_relations : List RoutingInfo → RoutingInfo → RoutingInfo
set_relations vs (routing_info i r) = routing_info i (routing_infos (of_infos vs))

-- `v.session_id.as_ref().map_or(false, |v| v.cmp(session_id).is_eq())`
unfoldable pub has_session_id : Bytes → RoutingInfo → Bool
has_session_id sid (routing_info i r) = elim i.session_id [
  | none ↦ false
  | some id ↦ bytes_eq id sid
]

unfoldable pub add_known : Bytes → RoutingInfo → RoutingInfo
unfolding get_relations
add_known sid (routing_info i r) = routing_info i (
    routing_infos (
      of_infos (
        unwrap_or (get_relations (routing_info i r)) []
        ++ routing_info (record default_info { node_type = normal; session_id = some sid }) absent
          ∷ [])))
