-- ===== src/Proto/SendData.antt =====
-- `_to_send_data` of proto/src/routing_info_ex.rs: the copy of a routing tree that goes to a peer.
use verse_entrance_server.Base.{
  ℕ, zero, suc, ◌%◌, ◌≡◌, refl, ap, ap₂, inl, inr, Bool, true, false, [], arith, if◌then◌else◌,
  Bool-cases,
}
use verse_entrance_server.Proto.Swarm.{
  NodeType, normal, gateway, NodeInfo, RoutingInfo, Relation, RoutingInfos, routing_info, absent,
  count, routing_infos, nil, cons, get_relation_count, u32_mod, info,
}

-- `res.known_gateway_session_ids.clear()`
abbrev clear_known : NodeInfo → NodeInfo
clear_known i = record i { known_gateway_session_ids = [] }

abbrev pub is_member : NodeType → Bool
is_member normal = true
is_member gateway = true
is_member _ = false

abbrev pub node_type : RoutingInfo → NodeType
node_type v = (info v).node_type

unfoldable mutual
  unfolding get_relation_count

  pub to_send_data : RoutingInfo → ℕ → RoutingInfo
  to_send_data (routing_info i r) zero =
      routing_info (clear_known i) (count (get_relation_count (routing_info i r) % u32_mod))
  to_send_data (routing_info i r) (suc depth) = routing_info (clear_known i) (send_relation r depth)

  pub send_relation : Relation → ℕ → Relation
  send_relation absent depth = absent
  send_relation (count n) depth = count n
  send_relation (routing_infos vs) depth = routing_infos (send_infos vs depth)

  pub send_infos : RoutingInfos → ℕ → RoutingInfos
  send_infos nil depth = nil
  send_infos (cons v vs) depth =
      if is_member (node_type v)
      then cons (to_send_data v depth) (send_infos vs depth)
      else send_infos vs depth

-- What may be sent with `d` levels below it: no node carries known gateway ids, every node below
-- the root is a normal node or a gateway, and the lists nest at most `d` deep.
abbrev mutual
  pub IsSendable : RoutingInfo → ℕ → Type 0
  IsSendable (routing_info i r) d = (i.known_gateway_session_ids ≡ []) × AreSendableBelow r d

  pub AreSendableBelow : Relation → ℕ → Type 0
  AreSendableBelow absent d = Unit
  AreSendableBelow (count n) d = Unit
  AreSendableBelow (routing_infos vs) zero = ⊥
  AreSendableBelow (routing_infos vs) (suc d) = AreSendable vs d

  pub AreSendable : RoutingInfos → ℕ → Type 0
  AreSendable nil d = Unit
  AreSendable (cons v vs) d = (is_member (node_type v) ≡ true) × IsSendable v d × AreSendable vs d

to_send_data-node_type : (v : RoutingInfo) (d : ℕ) → node_type (to_send_data v d) ≡ node_type v
unfolding to_send_data
to_send_data-node_type (routing_info i r) zero = refl
to_send_data-node_type (routing_info i r) (suc d) = refl

-- The step at the head of a list, for both cases of the filter.
send_infos_step :
    (P : RoutingInfos → Type 0) (v : RoutingInfo) (vs : RoutingInfos) (d : ℕ)
    → (is_member (node_type v) ≡ true → P (cons (to_send_data v d) (send_infos vs d)))
    → P (send_infos vs d)
    → P (send_infos (cons v vs) d)
unfolding to_send_data
send_infos_step P v vs d kept dropped = elim (Bool-cases (is_member (node_type v))) [
  | inl e ↦ rw e (kept e)
  | inr e ↦ rw e dropped
]

mutual
  unfolding to_send_data

  send-IsSendable : (v : RoutingInfo) (d : ℕ) → IsSendable (to_send_data v d) d
  send-IsSendable (routing_info i r) zero = (refl, tt)
  send-IsSendable (routing_info i r) (suc d) = (refl, below-IsSendable r d)

  below-IsSendable : (r : Relation) (d : ℕ) → AreSendableBelow (send_relation r d) (suc d)
  below-IsSendable absent d = tt
  below-IsSendable (count n) d = tt
  below-IsSendable (routing_infos vs) d = list-IsSendable vs d

  list-IsSendable : (vs : RoutingInfos) (d : ℕ) → AreSendable (send_infos vs d) d
  list-IsSendable nil d = tt
  list-IsSendable (cons v vs) d =
      send_infos_step (λ ws. AreSendable ws d) v vs d
        (λ e. (rw (to_send_data-node_type v d) e, send-IsSendable v d, list-IsSendable vs d))
        (list-IsSendable vs d)

-- `to_send_data` with depth `d` returns a tree that is sendable at `d`: no node of it carries known
-- gateway ids, every node below the root is a normal node or a gateway, and lists of nodes nest at
-- most `d` deep. Its root keeps the node type.
pub to_send_data-IsSendable :
    (v : RoutingInfo) (d : ℕ)
    → IsSendable (to_send_data v d) d × (node_type (to_send_data v d) ≡ node_type v)
to_send_data-IsSendable v d = (send-IsSendable v d, to_send_data-node_type v d)

mutual
  unfolding to_send_data

  send_again : (v : RoutingInfo) (d : ℕ) → to_send_data (to_send_data v d) d ≡ to_send_data v d
  send_again (routing_info i r) zero =
      ap (λ n. routing_info (clear_known i) (count n)) (omega arith)
  send_again (routing_info i r) (suc d) = ap (routing_info (clear_known i)) (send_again_below r d)

  send_again_below :
      (r : Relation) (d : ℕ) → send_relation (send_relation r d) d ≡ send_relation r d
  send_again_below absent d = refl
  send_again_below (count n) d = refl
  send_again_below (routing_infos vs) d = ap routing_infos (send_again_list vs d)

  send_again_list : (vs : RoutingInfos) (d : ℕ) → send_infos (send_infos vs d) d ≡ send_infos vs d
  send_again_list nil d = refl
  send_again_list (cons v vs) d =
      send_infos_step (λ ws. send_infos ws d ≡ ws) v vs d
        (λ e. rw (to_send_data-node_type v d, e) (ap₂ cons (send_again v d) (send_again_list vs d)))
        (send_again_list vs d)

-- Sending what was already cut for the same depth changes nothing more.
to_send_data_idem : (v : RoutingInfo) (d : ℕ) → to_send_data (to_send_data v d) d ≡ to_send_data v d
to_send_data_idem v d = send_again v d
