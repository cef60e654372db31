-- ===== src/Hub/Swarm/Exchange.antt =====
-- Exchanging routing info with a client.
use verse_entrance_server.Base.{
  ℕ, ◌+◌, ◌≤◌, ◌≡◌, refl, sym, ◌∙◌, inl, inr, false, Option, some, List, [], arith, ltb, Bool-cases,
  Option-cases, unwrap_or, length, In, bytes_eq, bytes_eq_refl, bytes_eq_sound, lookup, insert,
  remove, lookup-insert,
}
use verse_entrance_server.Proto.Swarm.{
  RoutingInfo, routing_info, infos-of_infos, get_relations, set_relations,
}
use verse_entrance_server.Hub.Client.{Client, Cells, set_routing_info}
use verse_entrance_server.Hub.UrlData.{UrlData, update_routing_info, update_routing_info_if_needed}
use verse_entrance_server.Hub.State.{State, get_connection, get_url_data, remove_connection}
use verse_entrance_server.Hub.State.Sessions.{at_url, length-at_url-remove}
use verse_entrance_server.Hub.State.Invariant.{Inv, Entry}
use verse_entrance_server.Hub.State.Departure.{remove_connection-Inv}
use verse_entrance_server.Hub.Swarm.{
  World, Reply, reply, panic, select_relations, exchange_routeing_info,
}

-- The relations of an info, none if it has none.
unfoldable pub relations : RoutingInfo → List RoutingInfo
relations ri = unwrap_or (get_relations ri) []

-- `choose_multiple` takes at most the given number of elements of a list.
abbrev pub IsChoice : (ℕ → List RoutingInfo → List RoutingInfo) → Type 0
IsChoice choose =
    (n : ℕ) (xs : List RoutingInfo)
    → (length (choose n xs) ≤ n) × ((x : RoutingInfo) → In x (choose n xs) → In x xs)

ltb-false : {n m : ℕ} → ltb n m ≡ false → m ≤ n
ltb-false h = ground arith

relations-set_relations :
    (vs : List RoutingInfo) (ri : RoutingInfo) → relations (set_relations vs ri) ≡ vs
unfolding relations get_relations set_relations
relations-set_relations vs (routing_info i r) = infos-of_infos vs

select_relations-bounded :
    (w : World) (n : ℕ) (ri : RoutingInfo)
    → IsChoice w.choose_multiple
    → (length (relations (select_relations w n ri)) ≤ n)
      × ((x : RoutingInfo) → In x (relations (select_relations w n ri)) → In x (relations ri))
unfolding select_relations relations
select_relations-bounded w n ri choice = elim (Option-cases (get_relations ri)) [
  | inl e ↦
      let same : select_relations w n ri ≡ ri = rw (select_relations, e) refl in
      let no_relations : relations ri ≡ [] = rw (relations, e) refl in
      rw (same, no_relations) (omega arith, λ x m. m)
  | inr (vs, e) ↦
      let all : relations ri ≡ vs = rw (relations, e) refl in
      elim (Bool-cases (ltb n (length vs))) [
        | inl f ↦
            let chosen : select_relations w n ri ≡ set_relations (w.choose_multiple n vs) ri =
              rw (select_relations, e, f) refl in
            rw (chosen, relations-set_relations, all) (choice n vs)
        | inr f ↦
            let same : select_relations w n ri ≡ ri = rw (select_relations, e, f) refl in
            rw (same, all) (ltb-false f, λ x m. m)
      ]
]

update-Entry :
    (by_url : Option ℕ) (now : ℕ) (cells : Cells) (cs : List Client) (ud : UrlData)
    → Entry by_url cs (some ud)
    → Entry by_url cs (some (update_routing_info_if_needed now cells ud))
unfolding update_routing_info_if_needed update_routing_info
update-Entry by_url now cells cs ud h = elim (Bool-cases (ltb now (ud.routing_info_updated + 5))) [
  | inl e ↦ rw e h
  | inr e ↦ rw e h
]

-- The entry of a connected client's URL.
connected-Entry :
    (s : State) (cd : Client)
    → Inv s
    → lookup cd.session_id s.connection_map ≡ some cd
    → (ud : UrlData) × (lookup cd.url s.url_data_map ≡ some ud)
connected-Entry s cd v e = elim (Option-cases (lookup cd.url s.url_data_map)) [
  | inl f ↦
      let nobody : at_url cd.url s.connection_map ≡ [] = rw f at (v.urls cd.url) in
      let somebody = length-at_url-remove cd.session_id s.connection_map cd v.distinct e in
      absurd (omega (arith, rw nobody at somebody))
  | inr found ↦ found
]

-- The state after an exchange with a client whose URL has the entry `ud`.
abbrev exchanged : ℕ → State → Client → RoutingInfo → UrlData → State
exchanged now s cd req ud =
    let cells : Cells = set_routing_info s.cells cd req in
    record s {
      cells = cells;
      url_data_map = insert cd.url (update_routing_info_if_needed now cells ud) s.url_data_map;
    }

exchange_routeing_info_found :
    (w : World) (now : ℕ) (s : State) (cd : Client) (req : RoutingInfo) (ud : UrlData)
    → lookup cd.url s.url_data_map ≡ some ud
    → exchange_routeing_info w now s cd req
      ≡ reply (
        select_relations w s.max_routing_results
            (update_routing_info_if_needed now (set_routing_info s.cells cd req) ud).listing,
        exchanged now s cd req ud,
      )
unfolding exchange_routeing_info get_url_data
exchange_routeing_info_found w now s cd req ud f = rw (exchange_routeing_info, get_url_data, f) refl

exchanged-Inv :
    (now : ℕ) (s : State) (cd : Client) (req : RoutingInfo) (ud : UrlData)
    → Inv s
    → lookup cd.url s.url_data_map ≡ some ud
    → Inv (exchanged now s cd req ud)
exchanged-Inv now s cd req ud v f = record {
  distinct = v.distinct;
  named = v.named;
  counted = v.counted;
  fits = v.fits;
  words = v.words;
  urls = λ url.
      rw (lookup-insert cd.url url _ s.url_data_map) (elim (Bool-cases (bytes_eq cd.url url)) [
        | inl same ↦
            rw (same, sym (bytes_eq_sound cd.url url same))
              (update-Entry s.max_connections_by_url now (set_routing_info s.cells cd req) _ ud
                (rw f at (v.urls cd.url)))
        | inr other ↦ rw other (v.urls url)
      ]);
}

-- A connected client gets an answer, never a panic, and the invariant is kept.
pub exchange_routeing_info-Inv :
    (w : World) (now : ℕ) (s : State) (cd : Client) (req : RoutingInfo)
    → Inv s
    → get_connection s cd.session_id ≡ some cd
    → (ri : RoutingInfo) × (t : State) × (exchange_routeing_info w now s cd req ≡ reply (ri, t))
      × Inv t
unfolding get_connection
exchange_routeing_info-Inv w now s cd req v e =
    let (ud, f) = connected-Entry s cd v e in
    (_, _, exchange_routeing_info_found w now s cd req ud f, exchanged-Inv now s cd req ud v f)

-- An answer has at most `max_routing_results` relations, all of them in the listing that the client's
-- URL then has, where the random choice takes at most so many elements of a list.
pub exchange_routeing_info-bounded :
    (w : World) (now : ℕ) (s t : State) (cd : Client) (req ri : RoutingInfo)
    → IsChoice w.choose_multiple
    → exchange_routeing_info w now s cd req ≡ reply (ri, t)
    → (length (relations ri) ≤ s.max_routing_results)
      × ((ud : UrlData) × (get_url_data t cd.url ≡ some ud)
          × ((x : RoutingInfo) → In x (relations ri) → In x (relations ud.listing)))
unfolding get_url_data exchange_routeing_info
exchange_routeing_info-bounded w now s t cd req ri choice h =
    elim (Option-cases (lookup cd.url s.url_data_map)) [
      | inl f ↦ absurd (panicked (rw (exchange_routeing_info, get_url_data, f) at h))
      | inr (ud, f) ↦
          let (answer, state) =
            reply_injective (sym (exchange_routeing_info_found w now s cd req ud f) ∙ h) in
          let (fewer, listed) =
            select_relations-bounded w s.max_routing_results
              (update_routing_info_if_needed now (set_routing_info s.cells cd req) ud).listing
              choice in
          rw (sym answer, sym state)
            (
              fewer,
              (
                update_routing_info_if_needed now (set_routing_info s.cells cd req) ud,
                rw (lookup-insert cd.url cd.url _ s.url_data_map, bytes_eq_refl cd.url) refl,
                listed,
              ),
            )
    ]
  where
    panicked : {a : RoutingInfo × State} → panic ≡ reply a → ⊥
    panicked k = cc

    reply_injective :
        {a b : RoutingInfo} {x y : State}
        → ◌≡◌ {A = Reply (RoutingInfo × State)} (reply (a, x)) (reply (b, y))
        → (a ≡ b) × (x ≡ y)
    reply_injective k = (cc, cc)

-- For a client that was removed in the meantime and was the last one of its URL, the handler panics.
pub exchange_routeing_info_removed :
    (w : World) (now : ℕ) (s : State) (cd : Client) (req : RoutingInfo)
    → Inv s
    → get_connection s cd.session_id ≡ some cd
    → length (at_url cd.url s.connection_map) ≡ 1
    → exchange_routeing_info w now (remove_connection s cd.session_id) cd req ≡ panic
unfolding get_connection exchange_routeing_info get_url_data remove_connection
exchange_routeing_info_removed w now s cd req v e l =
    elim (Option-cases (lookup cd.url (remove_connection s cd.session_id).url_data_map)) [
      | inl f ↦ rw (exchange_routeing_info, get_url_data, f) refl
      | inr (ud, f) ↦
          let alone = (remove_connection-Inv s cd.session_id v).urls cd.url in
          let at_least = (rw f at alone).2 in
          let left : (remove_connection s cd.session_id).connection_map
              ≡ remove cd.session_id s.connection_map =
            rw (remove_connection, e) refl in
          let gone = length-at_url-remove cd.session_id s.connection_map cd v.distinct e in
          absurd (omega (arith, rw left at at_least))
    ]
