-- ===== src/Hub/State/Registry.antt =====
-- What the state promises: a registry, the clients that are connected, in the order of their arrival,
-- with no maps and no counters. The state implements it.
use verse_entrance_server.Base.{
  ℕ, suc, ◌≤◌, ◌≡◌, refl, sym, ap, ◌∙◌, inl, inr, Bool, true, false, ◌&&◌, ◌||◌, none, some, List,
  [], ◌∷◌, ◌++◌, arith, ltb, leb, ◌==◌, if◌then◌else◌, Bool-cases, Option-cases, length, retain,
  Bytes, bytes_eq, lookup, insert, remove, values, insert_missing, remove_missing, values-append,
}
use verse_entrance_server.Hub.Client.{Client}
use verse_entrance_server.Hub.UrlData.{limit, is_other}
use verse_entrance_server.Hub.State.{
  State, Config, new_state, get_url_data, is_new_connection_available, enter_url, add_connection,
  remove_connection,
}
use verse_entrance_server.Hub.State.Sessions.{IsNamed, at_url}
use verse_entrance_server.Hub.State.Invariant.{Inv, Entry, IsWordSized, new_state-Inv}
use verse_entrance_server.Hub.State.Departure.{remove_connection-Inv}
use verse_entrance_server.Hub.State.Admission.{add_connection-available, add_connection_refused}
use verse_entrance_server.Hub.State.Runs.{
  Call, enters, leaves, enter_session, step, run, step-Inv, step-config, remove_connection-lookup,
  config-remove, run-config, run-new_state-Inv,
}

abbrev pub Registry : Type 0
Registry = List Client

abbrev pub count_at : Bytes → Registry → ℕ
count_at url r = length (retain (λ (c : Client). bytes_eq c.url url) r)

-- Whether there is room for one more client at the URL; the first client of a URL always fits there.
abbrev pub has_room : Config → Registry → Bytes → Bool
has_room c r url =
    ltb (length r) (limit c.max_connections)
    && ((count_at url r == 0) || ltb (count_at url r) (limit c.max_connections_by_url))

-- A session leaves the registry, and enters it at the end.
abbrev pub leave : Registry → Bytes → Registry
leave r sid = retain (is_other sid) r

abbrev pub enter : Config → Registry → Client → Registry × Bool
enter c r cd =
    if has_room c (leave r cd.session_id) cd.url
    then (leave r cd.session_id ++ cd ∷ [], true)
    else (leave r cd.session_id, false)

abbrev pub serve : Config → Registry → Call → Registry
serve c r (enters cd) = (enter c r cd).0
serve c r (leaves sid) = leave r sid

abbrev pub serve_all : Config → Registry → List Call → Registry
serve_all c r [] = r
serve_all c r (call ∷ calls) = serve_all c (serve c r call) calls

-- The registry that a state stands for.
abbrev pub registry : State → Registry
registry s = values s.connection_map

length-values : {V : Type 0} (m : List (Bytes × V)) → length (values m) ≡ length m
length-values [] = refl
length-values ((k, v) ∷ m) = ap suc (length-values m)

values-remove :
    (sid : Bytes) (m : List (Bytes × Client))
    → IsNamed m
    → values (remove sid m) ≡ leave (values m) sid
unfolding remove
values-remove sid [] h = refl
values-remove sid ((j, w) ∷ m) h = rw (← h.0) (ground (arith, values-remove sid m h.1))

remove_connection-registry :
    (s : State) (sid : Bytes) → Inv s → registry (remove_connection s sid) ≡ leave (registry s) sid
unfolding remove_connection
remove_connection-registry s sid v = elim (Option-cases (lookup sid s.connection_map)) [
  | inl e ↦
      let same : remove sid s.connection_map ≡ s.connection_map =
        remove_missing sid s.connection_map e in
      rw (e, remove_connection) (ap values (sym same) ∙ values-remove sid s.connection_map v.named)
  | inr (cd, e) ↦ rw (e, remove_connection) (values-remove sid s.connection_map v.named)
]

-- The three numbers that the test looks at.
abbrev room : ℕ → ℕ → ℕ → ℕ → Bool
room total here by_url all = ltb all total && ((here == 0) || ltb here by_url)

room-first :
    (total here by_url all : ℕ)
    → here ≡ 0
    → (if leb total all then false else true) ≡ room total here by_url all
room-first total here by_url all e = ground arith

room-more :
    (total here by_url all : ℕ)
    → 1 ≤ here
    → (if leb total all then false else (if leb by_url here then false else true))
      ≡ room total here by_url all
room-more total here by_url all e = ground arith

-- The test of the state is the test of the registry.
available-has_room :
    (s : State) (url : Bytes)
    → Inv s
    → is_new_connection_available s url ≡ has_room s.config (registry s) url
unfolding is_new_connection_available get_url_data
available-has_room s url v =
    let all : s.client_count ≡ length (registry s) =
      v.counted ∙ sym (length-values s.connection_map) in
    elim (Option-cases (lookup url s.url_data_map)) [
      | inl e ↦
          let entry : at_url url s.connection_map ≡ [] = rw e at (v.urls url) in
          rw (e, all)
            (room-first (limit s.max_connections) (count_at url (registry s))
              (limit s.max_connections_by_url) (length (registry s)) (ap length entry))
      | inr (ud, e) ↦
          let entry : Entry s.max_connections_by_url (at_url url s.connection_map) (some ud) =
            rw e at (v.urls url) in
          rw (e, all, entry.1)
            (room-more (limit s.max_connections) (count_at url (registry s))
              (limit s.max_connections_by_url) (length (registry s)) entry.2)
    ]

add_connection-map :
    (s : State) (cd : Client)
    → (add_connection s cd).1 ≡ true
    → (add_connection s cd).0.connection_map ≡ insert cd.session_id cd s.connection_map
unfolding add_connection
add_connection-map s cd h = elim (Bool-cases (leb (limit s.max_connections) s.client_count)) [
  | inl full ↦ absurd (ground arith)
  | inr room ↦ elim (Option-cases (enter_url s cd)) [
    | inl refused ↦ absurd (ground arith)
    | inr (urls, e) ↦ rw (room, e, add_connection) refl
  ]
]

-- Adding a session that is not connected.
add_connection-registry :
    (s : State) (cd : Client)
    → Inv s
    → lookup cd.session_id s.connection_map ≡ none
    → ◌≡◌ {A = Registry × Bool}
        (registry (add_connection s cd).0, (add_connection s cd).1)
        (if has_room s.config (registry s) cd.url
          then (registry s ++ cd ∷ [], true)
          else (registry s, false))
add_connection-registry s cd v fresh =
    let test : (add_connection s cd).1 ≡ has_room s.config (registry s) cd.url =
      add_connection-available s cd ∙ available-has_room s cd.url v in
    elim (Bool-cases (add_connection s cd).1) [
      | inl yes' ↦
          let map' : (add_connection s cd).0.connection_map
              ≡ s.connection_map ++ (cd.session_id, cd) ∷ [] =
            add_connection-map s cd yes' ∙ insert_missing cd.session_id cd s.connection_map fresh in
          rw (← test, yes', map', values-append s.connection_map ((cd.session_id, cd) ∷ []))
      | inr no' ↦ rw (← test, no', add_connection_refused s cd v fresh no')
    ]

-- Removing the session first makes it fresh.
pub enter_session-registry :
    (s : State) (cd : Client)
    → Inv s
    → ◌≡◌ {A = Registry × Bool}
        (registry (enter_session s cd).0, (enter_session s cd).1)
        (enter s.config (registry s) cd)
unfolding enter_session
enter_session-registry s cd v =
    let s' = remove_connection s cd.session_id in
    add_connection-registry s' cd (remove_connection-Inv s cd.session_id v)
      (remove_connection-lookup s cd.session_id)
    ∙ rw (remove_connection-registry s cd.session_id v, config-remove s cd.session_id) refl

step-registry : (s : State) (c : Call) → Inv s → registry (step s c) ≡ serve s.config (registry s) c
unfolding step
step-registry s (enters cd) v = ap (λ (p : Registry × Bool). p.0) (enter_session-registry s cd v)
step-registry s (leaves sid) v = remove_connection-registry s sid v

run-registry :
    (s : State) (cs : List Call) → Inv s → registry (run s cs) ≡ serve_all s.config (registry s) cs
unfolding run
run-registry s [] v = refl
run-registry s (c ∷ cs) v =
    run-registry (step s c) cs (step-Inv s c v) ∙ rw (step-config s c, step-registry s c v) refl

-- The state refines the registry: after any history of entries and departures, one call after the
-- other, its connections, in their order, are those of a server that keeps nothing but that list,
-- lets a session leave before it enters anew at the end, and refuses it when the list is full or
-- when its URL has clients and is full; and the next entry gets the same answer from both.
pub run_refines :
    (c : Config) (cs : List Call) (cd : Client)
    → IsWordSized c
    → (registry (run (new_state c) cs) ≡ serve_all c [] cs)
      × ((enter_session (run (new_state c) cs) cd).1 ≡ (enter c (serve_all c [] cs) cd).1)
unfolding new_state
run_refines c cs cd w =
    let v = new_state-Inv c w in
    let same = run-registry (new_state c) cs v in
    (
      same,
      ap (λ (p : Registry × Bool). p.1)
            (enter_session-registry (run (new_state c) cs) cd (run-new_state-Inv c cs w))
          ∙ rw (run-config (new_state c) cs, same) refl,
    )
