-- ===== src/Hub/State/Admission.antt =====
-- What `add_connection` answers, and what it does on each answer.
use verse_entrance_server.Base.{
  ◌≡◌, inl, inr, true, false, none, some, leb, if◌then◌else◌, leb-false, Bool-cases, Option-cases,
  Bytes, bytes_eq, lookup, lookup-insert,
}
use verse_entrance_server.Hub.Client.{Client}
use verse_entrance_server.Hub.UrlData.{limit}
use verse_entrance_server.Hub.State.{
  State, enter_url, add_connection, is_new_connection_available, get_connection,
}
use verse_entrance_server.Hub.State.Invariant.{Inv, undone}

enter_url-available :
    (s : State) (cd : Client)
    → (elim (enter_url s cd) [ none ↦ false | some urls ↦ true ])
      ≡ (elim (lookup cd.url s.url_data_map) [
        | none ↦ true
        | some ud ↦ if leb (limit s.max_connections_by_url) ud.client_count then false else true
      ])
unfolding enter_url
enter_url-available s cd = elim (Option-cases (lookup cd.url s.url_data_map)) [
  | inl e ↦ rw (e, enter_url)
  | inr (ud, e) ↦
      rw (e, enter_url)
        (elim (Bool-cases (leb (limit s.max_connections_by_url) ud.client_count)) [
          | inl full ↦ rw full
          | inr room ↦ rw room
        ])
]

-- `add_connection` accepts a client exactly when `is_new_connection_available` says so of its URL.
pub add_connection-available :
    (s : State) (cd : Client) → (add_connection s cd).1 ≡ is_new_connection_available s cd.url
unfolding add_connection is_new_connection_available
add_connection-available s cd = elim (Bool-cases (leb (limit s.max_connections) s.client_count)) [
  | inl full ↦ rw full
  | inr room ↦ elim (Option-cases (enter_url s cd)) [
    | inl refused ↦ rw (room, refused, add_connection) (rw refused at (enter_url-available s cd))
    | inr (urls, e) ↦ rw (room, e, add_connection) (rw e at (enter_url-available s cd))
  ]
]

-- A refused client whose session was not connected leaves no trace.
pub add_connection_refused :
    (s : State) (cd : Client)
    → Inv s
    → lookup cd.session_id s.connection_map ≡ none
    → (add_connection s cd).1 ≡ false
    → (add_connection s cd).0 ≡ s
unfolding add_connection
add_connection_refused s cd v fresh h =
    elim (Bool-cases (leb (limit s.max_connections) s.client_count)) [
      | inl full ↦ rw full
      | inr room ↦ elim (Option-cases (enter_url s cd)) [
        | inl refused ↦
            rw (room, refused, add_connection) (undone s cd v fresh (leb-false _ _ room))
        | inr (urls, e) ↦ absurd (accepted (rw (room, e, add_connection) at h))
      ]
    ]
  where
    accepted : true ≡ false → ⊥
    accepted k = cc

-- An accepted client is found under its session, and no other session is touched.
pub add_connection_accepted :
    (s : State) (cd : Client) (sid : Bytes)
    → (add_connection s cd).1 ≡ true
    → get_connection (add_connection s cd).0 sid
      ≡ (if bytes_eq cd.session_id sid then some cd else get_connection s sid)
unfolding add_connection get_connection
add_connection_accepted s cd sid h =
    elim (Bool-cases (leb (limit s.max_connections) s.client_count)) [
      | inl full ↦ absurd (refused (rw full at h))
      | inr room ↦ elim (Option-cases (enter_url s cd)) [
        | inl none' ↦ absurd (refused (rw (room, none', add_connection) at h))
        | inr (urls, e) ↦
            rw (room, e, add_connection) (lookup-insert cd.session_id sid cd s.connection_map)
      ]
    ]
  where
    refused : false ≡ true → ⊥
    refused k = cc
