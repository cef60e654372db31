-- ===== src/Hub/State/Runs.antt =====
-- Any history of the calls that the router makes.
use verse_entrance_server.Base.{
  ◌≡◌, refl, ◌∙◌, inl, inr, Bool, none, List, [], ◌∷◌, arith, Option-cases, Bytes, bytes_eq_refl,
  lookup, lookup-remove,
}
use verse_entrance_server.Hub.Client.{Client}
use verse_entrance_server.Hub.State.{State, Config, new_state, add_connection, remove_connection}
use verse_entrance_server.Hub.State.Invariant.{Inv, IsWordSized, new_state-Inv, add_connection-Inv}
use verse_entrance_server.Hub.State.Departure.{remove_connection-Inv}

pub remove_connection-lookup :
    (s : State) (sid : Bytes) → lookup sid (remove_connection s sid).connection_map ≡ none
unfolding remove_connection
remove_connection-lookup s sid = elim (Option-cases (lookup sid s.connection_map)) [
  | inl e ↦ rw (e, remove_connection) e
  | inr (cd, e) ↦
      rw (e, remove_connection, lookup-remove sid sid s.connection_map, bytes_eq_refl sid)
]

-- The end of `enter` in hubserv/src/entrance_server_router.rs: the session is removed and entered
-- anew.
unfoldable pub enter_session : State → Client → State × Bool
enter_session s cd = add_connection (remove_connection s cd.session_id) cd

-- Entering a session anew keeps the invariant, connected before or not.
pub enter_session-Inv : (s : State) (cd : Client) → Inv s → Inv (enter_session s cd).0
unfolding enter_session
enter_session-Inv s cd v =
    add_connection-Inv (remove_connection s cd.session_id) cd
      (remove_connection-Inv s cd.session_id v) (remove_connection-lookup s cd.session_id)

pub data Call : Type 0 where
  enters : Client → Call
  leaves : Bytes → Call

unfoldable pub step : State → Call → State
unfolding enter_session
step s (enters cd) = (enter_session s cd).0
step s (leaves sid) = remove_connection s sid

unfoldable pub run : State → List Call → State
unfolding step
run s [] = s
run s (c ∷ cs) = run (step s c) cs

pub step-Inv : (s : State) (c : Call) → Inv s → Inv (step s c)
unfolding step
step-Inv s (enters cd) v = enter_session-Inv s cd v
step-Inv s (leaves sid) v = remove_connection-Inv s sid v

run-Inv : (s : State) (cs : List Call) → Inv s → Inv (run s cs)
unfolding run
run-Inv s [] v = v
run-Inv s (c ∷ cs) v = run-Inv (step s c) cs (step-Inv s c v)

config-add : (s : State) (cd : Client) → (add_connection s cd).0.config ≡ s.config
unfolding add_connection
config-add s cd = ground arith

pub config-remove : (s : State) (sid : Bytes) → (remove_connection s sid).config ≡ s.config
unfolding remove_connection
config-remove s sid = ground arith

pub step-config : (s : State) (c : Call) → (step s c).config ≡ s.config
unfolding step
step-config s (enters cd) =
    config-add (remove_connection s cd.session_id) cd ∙ config-remove s cd.session_id
step-config s (leaves sid) = config-remove s sid

pub run-config : (s : State) (cs : List Call) → (run s cs).config ≡ s.config
unfolding run
run-config s [] = refl
run-config s (c ∷ cs) = run-config (step s c) cs ∙ step-config s c

-- After any history of entries and departures, one call after the other, the invariant holds: every
-- session is connected once, the counter is the number of connections and within the limit, and each
-- URL's entry has exactly the connected clients of the URL, counted, within its limit or, if that is
-- 0, at most one.
pub run-new_state-Inv : (c : Config) (cs : List Call) → IsWordSized c → Inv (run (new_state c) cs)
run-new_state-Inv c cs w = run-Inv (new_state c) cs (new_state-Inv c w)
