-- ===== src/Hub/RtcApi.antt =====
-- hubserv/src/rtc_api.rs, and `on_swarm_message` of hubserv/src/swarm.rs: which handler a message of a
-- client goes to, and how it is answered.
use verse_entrance_server.Base.{
  ℕ, Bool, true, false, Option, none, some, List, [], ◌++◌, ◌==◌, if◌then◌else◌, Bytes,
}
use verse_entrance_server.Proto.Rpc.{RpcMessage, Data, request, response, decode_packet}
use verse_entrance_server.Hub.Client.{Client}
use verse_entrance_server.Hub.State.{State}
use verse_entrance_server.Hub.Swarm.{
  rpc_id_keep_alive, rpc_id_swarm, rpc_id_transfer, rpc_id_exchange_routing_info, World, Reply,
  reply, fail, panic, Sent, send_to, transfer, exchange_routeing_info,
}

-- What a handled message leaves: the bytes of the answer, if any, the state and what was sent.
pub record Handled : Type 0 where
  pub answer : Option Bytes
  pub state : State
  pub sent : List Sent
  -- whether the answer could not be sent, which is only logged
  pub failed : Bool

abbrev unanswered : State → Reply Handled
unanswered s = reply (record { answer = none; state = s; sent = []; failed = false })

-- A response to a swarm request.
abbrev answer_swarm : World → ℕ → Bytes → Option Bytes
answer_swarm w rpc_id param =
    some (w.encode_swarm (some (response (record { rpc_id = rpc_id; param = param }))))

unfoldable pub on_transfer : World → State → RpcMessage → Reply Handled
unfolding transfer
on_transfer w s req = elim (w.decode_transfer req.param) [
  | none ↦ fail
  | some r ↦ elim (transfer w s r) [
    | reply (res, sent) ↦ reply (record {
      answer = answer_swarm w req.rpc_id (w.encode_answer res);
      state = s;
      sent = sent;
      failed = false;
    })
    | fail ↦ fail
    | panic ↦ panic
  ]
]

unfoldable pub on_exchange : World → ℕ → State → Client → RpcMessage → Reply Handled
unfolding exchange_routeing_info
on_exchange w now s cd req = elim (w.decode_info req.param) [
  | none ↦ fail
  | some ri ↦ elim (exchange_routeing_info w now s cd ri) [
    | reply (res, t) ↦ reply (record {
      answer = answer_swarm w req.rpc_id (w.encode_info res);
      state = t;
      sent = [];
      failed = false;
    })
    | fail ↦ fail
    | panic ↦ panic
  ]
]

unfoldable pub on_swarm_message : World → ℕ → State → Client → Option Data → Reply Handled
unfolding on_transfer on_exchange
on_swarm_message w now s cd none = unanswered s
on_swarm_message w now s cd (some (response r)) = unanswered s
on_swarm_message w now s cd (some (request req)) =
    if req.rpc_id == rpc_id_transfer
    then on_transfer w s req
    else if req.rpc_id == rpc_id_exchange_routing_info
    then on_exchange w now s cd req
    else unanswered s

-- The request of a packet that is not a keep-alive.
unfoldable pub on_request : World → ℕ → State → Client → RpcMessage → Reply Handled
unfolding on_swarm_message
on_request w now s cd req =
    if req.rpc_id == rpc_id_keep_alive
    then unanswered s
    else if req.rpc_id == rpc_id_swarm
    then (elim (w.decode_swarm req.param) [
      | none ↦ fail
      | some packet ↦ on_swarm_message w now s cd packet
    ])
    else unanswered s

-- Sends the answer of a request to the client that made it.
unfoldable pub send_answer : World → Client → ℕ → Handled → Reply Handled
unfolding send_to
send_answer w cd rpc_id h = elim h.answer [
  | none ↦ reply h
  | some res ↦ elim (send_to w h.state cd rpc_id res) [
    | reply (ok, sent) ↦ reply (record h { sent = h.sent ++ sent })
    | fail ↦ reply (record h { failed = true })
    | panic ↦ panic
  ]
]

unfoldable pub on_rtc_message : World → ℕ → State → Client → Bytes → Reply Handled
unfolding on_request send_answer
on_rtc_message w now s cd bytes = elim (decode_packet w.zlib w.rpc bytes) [
  | none ↦ fail
  | some p ↦ elim p.data' [
    | none ↦ unanswered s
    | some d ↦ elim d [
      | response r ↦ unanswered s
      | request req ↦ elim (on_request w now s cd req) [
        | reply h ↦ send_answer w cd req.rpc_id h
        | fail ↦ fail
        | panic ↦ panic
      ]
    ]
  ]
]
