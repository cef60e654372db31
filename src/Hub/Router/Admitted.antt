-- ===== src/Hub/Router/Admitted.antt =====
-- What a request to enter, and the events of its peer connection, do to the state.
use verse_entrance_server.Base.{
  ℕ, ◌≤◌, ◌≡◌, refl, sym, subst, ◌⊎◌, inl, inr, Bool, true, false, Option, none, some, List, [],
  ◌∷◌, ◌++◌, arith, Bool-cases, length, Bytes, bytes_eq_refl, lookup,
}
use verse_entrance_server.Cluster.Node
use verse_entrance_server.Hub.Client.{Client}
use verse_entrance_server.Hub.State.{State, remove_connection, get_connection}
use verse_entrance_server.Hub.State.Invariant.{Inv}
use verse_entrance_server.Hub.State.Admission.{add_connection_accepted}
use verse_entrance_server.Hub.State.Runs.{
  remove_connection-lookup, enter_session, enter_session-Inv,
}
use verse_entrance_server.Hub.Types.{RequestPayload}
use verse_entrance_server.Hub.Router.{
  Response, ok, status, Setup, answer, refused, timed_out, Entered, admit, settle, conclude, set_up,
  enter, RtcState, connected, disconnected, failed, closed, other, on_ice_connection_state_change,
  AccessLog, Callback, on_peer_connection_state_change,
}

-- A client is either registered under its session, and its connection is open, or its connection has
-- been closed.
abbrev pub IsSettled : Entered → Client → Type 0
IsSettled e cd =
    ((sdp : Bytes) × (e.response ≡ ok sdp)
      × (get_connection e.state cd.session_id ≡ some cd)
      × (e.closed ≡ []))
    ⊎ ((code : ℕ) × (e.response ≡ status code) × (e.closed ≡ cd.pc ∷ []))

settle-state : (p : State × Bool) (cd : Client) (sdp : Bytes) → (settle p cd sdp).state ≡ p.0
unfolding settle
settle-state (t, true) cd sdp = refl
settle-state (t, false) cd sdp = refl

-- After an accepted entry the session has the new client.
enter_session-accepted :
    (s : State) (cd : Client)
    → (enter_session s cd).1 ≡ true
    → get_connection (enter_session s cd).0 cd.session_id ≡ some cd
unfolding enter_session
enter_session-accepted s cd h =
    rw (add_connection_accepted (remove_connection s cd.session_id) cd cd.session_id h)
      (rw (bytes_eq_refl cd.session_id) refl)

settle-IsSettled :
    (p : State × Bool) (cd : Client) (sdp : Bytes)
    → (p.1 ≡ true → get_connection p.0 cd.session_id ≡ some cd)
    → IsSettled (settle p cd sdp) cd
unfolding settle
settle-IsSettled (t, true) cd sdp h = inl (sdp, refl, h refl, refl)
settle-IsSettled (t, false) cd sdp h = inr (503, refl, refl)

pub conclude-Inv :
    (s : State) (cd : Client) (setup : Setup) → Inv s → Inv (conclude s cd setup).state
unfolding conclude
conclude-Inv s cd timed_out v = v
conclude-Inv s cd (refused code) v = v
conclude-Inv s cd (answer sdp) v =
    subst Inv (sym (settle-state (enter_session s cd) cd sdp)) (enter_session-Inv s cd v)

-- However the set-up of a new peer connection ends, either the client is registered and the response is
-- the answer, or the response is an error and the connection has been closed: none is leaked.
pub conclude-IsSettled :
    (s : State) (cd : Client) (setup : Setup) → IsSettled (conclude s cd setup) cd
unfolding conclude
conclude-IsSettled s cd timed_out = inr (500, refl, refl)
conclude-IsSettled s cd (refused code) = inr (code, refl, refl)
conclude-IsSettled s cd (answer sdp) =
    settle-IsSettled (enter_session s cd) cd sdp (enter_session-accepted s cd)

set_up-Inv :
    (r : Option Response) (sid : Bytes) (payload : RequestPayload) (created : Option (ℕ × ℕ))
    (setup : Setup) (s : State)
    → Inv s
    → Inv (set_up r sid payload created setup s).state
unfolding set_up
set_up-Inv (some r) sid payload created setup s v = v
set_up-Inv none sid payload none setup s v = v
set_up-Inv none sid payload (some (address, pc)) setup s v = conclude-Inv s _ setup v

module _ (to_hash : Bytes → ℕ) where
  -- Whatever becomes of a request to enter, the invariant is kept.
  pub enter-Inv :
      (cluster_client : Option Node.Client) (host : Bytes)
      (verified : Option (Bytes × RequestPayload)) (before : State) (created : Option (ℕ × ℕ))
      (setup : Setup) (s : State)
      → Inv s
      → Inv (enter to_hash cluster_client host verified before created setup s).state
  unfolding enter set_up
  enter-Inv cluster_client host none before created setup s v = v
  enter-Inv cluster_client host (some (sid, payload)) before created setup s v =
      set_up-Inv (admit to_hash cluster_client before host payload) sid payload created setup s v

-- The late event of an old connection. After the session has been entered anew the session has the new
-- client; when an older connection of the session is then reported as closed, it has none.
pub on_ice_connection_state_change_late :
    (s : State) (old new : Client)
    → old.session_id ≡ new.session_id
    → (enter_session s new).1 ≡ true
    → (get_connection (enter_session s new).0 new.session_id ≡ some new)
      × (get_connection
            (on_ice_connection_state_change (enter_session s new).0 old.session_id closed)
            new.session_id
          ≡ none)
unfolding on_ice_connection_state_change get_connection lookup
on_ice_connection_state_change_late s old new same h = (
  enter_session-accepted s new h,
  rw same (remove_connection-lookup (enter_session s new).0 new.session_id),
)

-- The lines that a list of events leaves in the access log, the state changing in between.
unfoldable pub run_events : List (State × RtcState) → Callback → List AccessLog
unfolding on_peer_connection_state_change
run_events [] cb = []
run_events ((s, e) ∷ es) cb =
    let (t, cb', lines) = on_peer_connection_state_change s cb e in lines ++ run_events es cb'

-- Once it has been logged, a connection is not logged again.
run_events_logged :
    (es : List (State × RtcState)) (cb : Callback)
    → cb.is_access_log_sended ≡ true
    → run_events es cb ≡ []
unfolding run_events on_peer_connection_state_change
run_events_logged [] cb h = refl
run_events_logged ((s, connected) ∷ es) cb h = simp h (run_events_logged es cb h)
run_events_logged ((s, disconnected) ∷ es) cb h = run_events_logged es cb h
run_events_logged ((s, failed) ∷ es) cb h = run_events_logged es cb h
run_events_logged ((s, closed) ∷ es) cb h = run_events_logged es cb h
run_events_logged ((s, other) ∷ es) cb h = run_events_logged es cb h

-- Whatever the events of a connection and the states they find, the access log gets at most one line.
run_events_once : (es : List (State × RtcState)) (cb : Callback) → length (run_events es cb) ≤ 1
unfolding run_events on_peer_connection_state_change
run_events_once [] cb = omega arith
run_events_once ((s, connected) ∷ es) cb = elim (Bool-cases cb.is_access_log_sended) [
  | inl e ↦ simp (e, run_events_logged es cb e) (omega arith)
  | inr e ↦
      rw (e, run_events_logged es (record cb { is_access_log_sended = true }) refl) (omega arith)
]
run_events_once ((s, disconnected) ∷ es) cb = run_events_once es cb
run_events_once ((s, failed) ∷ es) cb = run_events_once es cb
run_events_once ((s, closed) ∷ es) cb = run_events_once es cb
run_events_once ((s, other) ∷ es) cb = run_events_once es cb
