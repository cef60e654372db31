-- ===== src/Hub/Swarm.antt =====
-- hubserv/src/swarm.rs: exchanging routing info and passing messages on. The generated protobuf code,
-- the signature check, the random choice and the data channels are parameters.
pub mod Exchange
pub mod Transfer
use verse_entrance_server.Base.{
  ℕ, zero, suc, ◌+◌, ◌-◌, ◌*◌, ◌/◌, ◌%◌, ◌^◌, ◌≤◌, ◌<◌, max, min, ◌≡◌, refl, sym, ap, ap₂, subst,
  ◌∙◌, ◌≢◌, ◌↔◌, ◌⊎◌, inl, inr, Bool, true, false, ◌&&◌, ◌||◌, not, Option, none, some, List, [],
  ◌∷◌, ◌++◌, map, append_assoc, append-nil, arith, ltb, leb, ◌==◌, if◌then◌else◌, leb→le, leb-false,
  ==_iff, Bool-cases, Option-cases, unwrap_or, usize_max, dec_u64, length, retain, any, take, All,
  In, In-append_left, In-append_right, In-append_cases, length-append, length-map, length-retain-le,
  retain-append, length-take, any-append_true, Bytes, codes, bytes_eq, bytes_eq_refl,
  bytes_eq_sound, bytes_eq_iff, contains, starts_with, ends_with, lookup, insert, remove, values,
  lookup-insert, lookup-remove, insert_missing, remove_missing, remove-append, values-append,
  List-cases, get_elem?, get_elem?-In,
}
use verse_entrance_server.Proto.Swarm.{RoutingInfo, get_relations, set_relations}
use verse_entrance_server.Proto.Rpc.{
  RpcMessage, Data, request, response, RpcPacket, Codec, encode_packet, decode_packet,
}
use verse_entrance_server.Common.Compress.{Zlib}
use verse_entrance_server.Hub.Client.{Client, Cells, get_dc, set_routing_info}
use verse_entrance_server.Hub.UrlData.{UrlData, update_routing_info_if_needed}
use verse_entrance_server.Hub.State.{State, get_connection, get_url_data}

abbrev pub rpc_id_keep_alive : ℕ
rpc_id_keep_alive = 0

abbrev pub rpc_id_swarm : ℕ
rpc_id_swarm = 1

abbrev pub rpc_id_transfer : ℕ
rpc_id_transfer = 1

abbrev pub rpc_id_exchange_routing_info : ℕ
rpc_id_exchange_routing_info = 2

pub record SignatureSet : Type 0 where
  pub from_session_id : Bytes
  pub signature : Bytes
  pub salt : Bytes

pub record TransferRequest : Type 0 where
  pub to_session_id : Bytes
  pub signature : Option SignatureSet
  pub payload : Bytes
  pub ttl : ℕ

pub record TransferResponse : Type 0 where
  pub result : Bool
  pub dest_session_id : Bytes

-- A packet written to a data channel.
pub record Sent : Type 0 where
  pub dc : ℕ
  pub bytes : Bytes

pub record World : Type 0 where
  pub zlib : Zlib
  pub rpc : Codec
  -- `SwarmPacket`, by its `data`
  pub encode_swarm : Option Data → Bytes
  pub decode_swarm : Bytes → Option (Option Data)
  pub encode_transfer : TransferRequest → Bytes
  pub decode_transfer : Bytes → Option TransferRequest
  pub encode_answer : TransferResponse → Bytes
  pub encode_info : RoutingInfo → Bytes
  pub decode_info : Bytes → Option RoutingInfo
  -- `SessionId::try_from`
  pub is_session_id : Bytes → Bool
  -- `SignatureSet::try_from` and `SessionId::verify`, of the signed parts in one list
  pub is_signed : SignatureSet → List Bytes → Bool
  pub choose_multiple : ℕ → List RoutingInfo → List RoutingInfo
  -- whether a channel takes what is sent
  pub is_open : ℕ → Bool

-- How a handler ends: `fail` is an `Err`, `panic` is `unreachable!`. No handler
-- fails after it has changed the state; what a panic leaves is not modelled.
pub data Reply (A : Type 0) : Type 0 where
  reply : A → Reply A
  fail : Reply A
  panic : Reply A

-- `ClientData::send_rpc_response`: the answer and what was sent.
unfoldable pub send_to : World → State → Client → ℕ → Bytes → Reply (Bool × List Sent)
unfolding get_dc
send_to w s cd rpc_id param = elim (get_dc s.cells cd) [
  | none ↦ reply (false, [])
  | some dc ↦
      if w.is_open dc
      then reply (
        true,
        record {
          dc = dc;
          bytes = encode_packet w.zlib w.rpc (record {
            is_compressed = false;
            data' = some (response (record { rpc_id = rpc_id; param = param }));
          });
        }
            ∷ [],
      )
      else fail
]

-- `State::send_rpc_response`
unfoldable pub send_rpc_response : World → State → Bytes → ℕ → Bytes → Reply (Bool × List Sent)
unfolding send_to get_connection
send_rpc_response w s to_session_id rpc_id param = elim (get_connection s to_session_id) [
  | none ↦ reply (false, [])
  | some to_cd ↦ send_to w s to_cd rpc_id param
]

-- `_transfer`, once the signature has been found.
unfoldable pub transfer_signed :
    World → State → TransferRequest → SignatureSet → Reply (Bool × List Sent)
unfolding send_rpc_response
transfer_signed w s req sign =
    if w.is_session_id sign.from_session_id
      && w.is_signed sign (req.to_session_id ∷ req.payload ∷ [])
    then if ltb req.ttl 1
      then reply (false, [])
      else send_rpc_response w s req.to_session_id rpc_id_swarm (
          w.encode_swarm (
            some (
              request (record {
                rpc_id = rpc_id_transfer;
                param = w.encode_transfer (record req { ttl = req.ttl - 1 });
              }))))
    else fail

-- `_transfer`
unfoldable pub transfer_to : World → State → TransferRequest → Reply (Bool × List Sent)
unfolding transfer_signed
transfer_to w s req =
    if w.is_session_id req.to_session_id
    then (elim req.signature [ none ↦ fail | some sign ↦ transfer_signed w s req sign ])
    else fail

unfoldable pub transfer : World → State → TransferRequest → Reply (TransferResponse × List Sent)
unfolding transfer_to
transfer w s req = elim (transfer_to w s req) [
  | reply (result, sent) ↦
      reply (record { result = result; dest_session_id = req.to_session_id }, sent)
  | fail ↦ fail
  | panic ↦ panic
]

-- At most `max_routing_results` of the URL's relations.
unfoldable pub select_relations : World → ℕ → RoutingInfo → RoutingInfo
unfolding get_relations set_relations
select_relations w max_routing_results ri = elim (get_relations ri) [
  | none ↦ ri
  | some relation ↦
      if ltb max_routing_results (length relation)
      then set_relations (w.choose_multiple max_routing_results relation) ri
      else ri
]

-- `exchange_routeing_info` at the time `now`; the second part of the answer is the state.
unfoldable pub exchange_routeing_info :
    World → ℕ → State → Client → RoutingInfo → Reply (RoutingInfo × State)
unfolding get_url_data set_routing_info update_routing_info_if_needed select_relations
exchange_routeing_info w now s cd req = elim (get_url_data s cd.url) [
  | none ↦ panic
  | some ud ↦
      let cells : Cells = set_routing_info s.cells cd req in
      let updated : UrlData = update_routing_info_if_needed now cells ud in
      reply (
        select_relations w s.max_routing_results updated.listing,
        record s { cells = cells; url_data_map = insert cd.url updated s.url_data_map },
      )
]
