-- ===== src/Hub/Router.antt =====
-- hubserv/src/entrance_server_router.rs: the handlers of `/enter` and `/candidate` and the callbacks of
-- a peer connection. The WebRTC library is a parameter: what a set-up or a candidate comes to is an
-- argument.
pub mod Admitted
pub mod SetUp
pub mod Checks
pub mod Answers
use verse_entrance_server.Base.{
  ℕ, zero, suc, ◌+◌, ◌-◌, ◌*◌, ◌/◌, ◌%◌, ◌^◌, ◌≤◌, ◌<◌, max, min, ◌≡◌, refl, sym, ap, ap₂, subst,
  ◌∙◌, ◌≢◌, ◌↔◌, ◌⊎◌, inl, inr, Bool, true, false, ◌&&◌, ◌||◌, not, Option, none, some, List, [],
  ◌∷◌, ◌++◌, map, append_assoc, append-nil, arith, ltb, leb, ◌==◌, if◌then◌else◌, leb→le, leb-false,
  ==_iff, Bool-cases, Option-cases, unwrap_or, usize_max, dec_u64, length, retain, any, take, All,
  In, In-append_left, In-append_right, In-append_cases, length-append, length-map, length-retain-le,
  retain-append, length-take, any-append_true, Bytes, codes, bytes_eq, bytes_eq_refl,
  bytes_eq_sound, bytes_eq_iff, contains, starts_with, ends_with, lookup, insert, remove, values,
  lookup-insert, lookup-remove, insert_missing, remove_missing, remove-append, values-append,
  List-cases, get_elem?, get_elem?-In,
}
use verse_entrance_server.Cluster.Node
use verse_entrance_server.Hub.Client.{Client, set_dc}
use verse_entrance_server.Hub.UrlData.{UrlData}
use verse_entrance_server.Hub.State.{
  State, is_new_connection_available, remove_connection, get_connection, get_url_data,
}
use verse_entrance_server.Hub.State.Runs.{enter_session}
use verse_entrance_server.Hub.Redirect.{Verdict, proceed, forbidden, redirect, redirect_if_needed}
use verse_entrance_server.Hub.Types.{RequestPayload}
use verse_entrance_server.Hub.Swarm.{World, Reply, reply}
use verse_entrance_server.Hub.RtcApi.{Handled, on_rtc_message}

-- An HTTP response: a body, a redirect or an empty response with a status.
pub data Response : Type 0 where
  ok : Bytes → Response
  redirected : Bytes → Response
  status : ℕ → Response

-- The end of `setup_pc` under its timeout of five seconds.
pub data Setup : Type 0 where
  answer : Bytes → Setup
  refused : ℕ → Setup
  timed_out : Setup

-- The response of a verdict, if it ends the request.
unfoldable pub to_response : Verdict → Option Response
to_response proceed = none
to_response forbidden = some (status 403)
to_response (redirect url) = some (redirected url)

module _ (to_hash : Bytes → ℕ) where
  -- `redirect_if_needed(...)?`, where the server is in a cluster.
  unfoldable pub check_worker : Option Node.Client → Bytes → Bytes → Bytes → Option Response
  unfolding to_response redirect_if_needed
  check_worker none host url path = none
  check_worker (some c) host url path = to_response (redirect_if_needed to_hash c host url path)

  -- The part of `enter` before there is a peer connection: the response that ends the request, or none.
  unfoldable pub admit : Option Node.Client → State → Bytes → RequestPayload → Option Response
  unfolding check_worker is_new_connection_available
  admit cluster_client s host payload =
      if (length payload.url == 0) || (length payload.body == 0)
      then some (status 400)
      else (elim (check_worker cluster_client host payload.url (codes "/enter")) [
        | some r ↦ some r
        | none ↦ if is_new_connection_available s payload.url then none else some (status 503)
      ])

-- What `enter` leaves: the state, the response and the peer connections it closed.
pub record Entered : Type 0 where
  pub state : State
  pub response : Response
  pub closed : List ℕ

-- The end of `enter`, by whether the client could be added.
unfoldable pub settle : State × Bool → Client → Bytes → Entered
settle (t, true) cd sdp = record { state = t; response = ok sdp; closed = [] }
settle (t, false) cd sdp = record { state = t; response = status 503; closed = cd.pc ∷ [] }

-- The part of `enter` after the peer connection has been made.
unfoldable pub conclude : State → Client → Setup → Entered
unfolding settle enter_session
conclude s cd timed_out = record { state = s; response = status 500; closed = cd.pc ∷ [] }
conclude s cd (refused code) = record { state = s; response = status code; closed = cd.pc ∷ [] }
conclude s cd (answer sdp) = settle (enter_session s cd) cd sdp

-- `enter`, once the request has been checked.
unfoldable pub set_up :
    Option Response → Bytes → RequestPayload → Option (ℕ × ℕ) → Setup → State → Entered
unfolding conclude
set_up (some r) sid payload created setup s = record { state = s; response = r; closed = [] }
set_up none sid payload none setup s = record { state = s; response = status 500; closed = [] }
set_up none sid payload (some (address, pc)) setup s =
    conclude s (record { address = address; session_id = sid; pc = pc; url = payload.url }) setup

module _ (to_hash : Bytes → ℕ) where
  -- `enter`. `before` is the state in which the request is checked, `s` the one in which the set-up ends;
  -- `created` is the address of the new client and its peer connection, none if the library makes none.
  unfoldable pub enter :
      Option Node.Client
      → Bytes
      → Option (Bytes × RequestPayload)
      → State
      → Option (ℕ × ℕ)
      → Setup
      → State
      → Entered
  unfolding admit set_up
  enter cluster_client host none before created setup s = record {
    state = s;
    response = status 500;
    closed = [];
  }
  enter cluster_client host (some (sid, payload)) before created setup s =
      set_up (admit to_hash cluster_client before host payload) sid payload created setup s

  -- `candidate`; `adds` says whether a peer connection takes a candidate.
  unfoldable pub candidate :
      Option Node.Client
      → Bytes
      → Option (Bytes × RequestPayload)
      → (ℕ → Bytes → Bool)
      → State
      → Response
  unfolding check_worker get_connection
  candidate cluster_client host verified adds s = elim verified [
    | none ↦ status 500
    | some (sid, payload) ↦
        if (length payload.url == 0) || (length payload.body == 0)
        then status 422
        else (elim (check_worker to_hash cluster_client host payload.url (codes "/candidate")) [
          | some r ↦ r
          | none ↦ elim (get_connection s sid) [
            | none ↦ status 400
            | some cd ↦ if adds cd.pc payload.body then ok [] else status 500
          ]
        ])
  ]

-- `RTCPeerConnectionState` and `RTCIceConnectionState`, as far as the callbacks tell them apart.
pub data RtcState : Type 0 where
  connected disconnected failed closed other : RtcState

unfoldable pub on_ice_connection_state_change : State → Bytes → RtcState → State
on_ice_connection_state_change s sid disconnected = remove_connection s sid
on_ice_connection_state_change s sid failed = remove_connection s sid
on_ice_connection_state_change s sid closed = remove_connection s sid
on_ice_connection_state_change s sid connected = s
on_ice_connection_state_change s sid other = s

-- A line of the access log, without the headers: the number of clients and the URL as it was sent.
pub record AccessLog : Type 0 where
  pub client_count : ℕ
  pub raw_url : Bytes

-- What the callback of one peer connection knows: the session, the URL and whether the connection has
-- been logged.
pub record Callback : Type 0 where
  pub session_id : Bytes
  pub url : Bytes
  pub raw_url : Bytes
  pub is_access_log_sended : Bool

-- The number of clients that is logged.
abbrev logged_count : State → Bytes → ℕ
logged_count s url = elim (get_url_data s url) [ none ↦ 1 | some ud ↦ ud.client_count ]

-- The access log's lines are part of the result.
unfoldable pub on_peer_connection_state_change :
    State → Callback → RtcState → State × Callback × List AccessLog
on_peer_connection_state_change s cb connected = if cb.is_access_log_sended then (s, cb, []) else (
  s,
  record cb { is_access_log_sended = true },
  record { client_count = logged_count s cb.url; raw_url = cb.raw_url } ∷ [],
)
on_peer_connection_state_change s cb failed = (remove_connection s cb.session_id, cb, [])
on_peer_connection_state_change s cb disconnected = (remove_connection s cb.session_id, cb, [])
on_peer_connection_state_change s cb closed = (remove_connection s cb.session_id, cb, [])
on_peer_connection_state_change s cb other = (s, cb, [])

-- The callback for a new data channel: it goes to the client that the session has then.
unfoldable pub on_data_channel : State → Bytes → ℕ → State
unfolding set_dc
on_data_channel s sid dc = elim (get_connection s sid) [
  | none ↦ s
  | some cd ↦ record s { cells = set_dc s.cells cd dc }
]

module _ (to_hash : Bytes → ℕ) where
  -- Whether the client's URL is still this server's work.
  unfoldable pub is_still_my_work : Option Node.Client → Client → Bool
  is_still_my_work none cd = true
  is_still_my_work (some c) cd = Node.is_my_work to_hash c cd.url

  -- The callback for a message on the data channel `dc` of the peer connection `pc`; the second part of
  -- the answer is the channel and the connection, if they are closed.
  unfoldable pub on_message :
      Option Node.Client
      → World
      → ℕ
      → State
      → Client
      → ℕ
      → ℕ
      → Bytes
      → Reply Handled × Option (ℕ × ℕ)
  unfolding is_still_my_work on_rtc_message
  on_message cluster_client w now s cd dc pc bytes =
      if is_still_my_work cluster_client cd then (on_rtc_message w now s cd bytes, none) else (
        reply (record {
          answer = none;
          state = remove_connection s cd.session_id;
          sent = [];
          failed = false;
        }),
        some (dc, pc),
      )
