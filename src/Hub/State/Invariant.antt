-- ===== src/Hub/State/Invariant.antt =====
-- What links the two maps and the counters, and that every call keeps it.
use verse_entrance_server.Base.{
  ℕ, ◌+◌, ◌≤◌, ◌<◌, max, ◌≡◌, refl, sym, subst, inl, inr, Option, none, some, List, [], ◌∷◌, ◌++◌,
  append-nil, arith, leb, leb-false, Bool-cases, Option-cases, usize_max, dec_u64, length,
  length-append, Bytes, bytes_eq, bytes_eq_refl, bytes_eq_sound, lookup, insert, remove,
  lookup-insert, insert_missing, remove_missing, remove-append,
}
use verse_entrance_server.Hub.Client.{Client}
use verse_entrance_server.Hub.UrlData.{UrlData, limit, new_url_data, url_add_connection}
use verse_entrance_server.Hub.State.{State, Config, new_state, enter_url, add_connection}
use verse_entrance_server.Hub.State.Sessions.{
  IsDistinct, append-IsDistinct, IsNamed, append-IsNamed, at_url, at_url-append,
}

-- The entry of a URL: its clients are `cs`, at least one, their count is right and within the limit;
-- the first client of a URL is not held against the limit.
abbrev pub Entry : Option ℕ → List Client → Option UrlData → Type 0
Entry by_url cs none = cs ≡ []
Entry by_url cs (some ud) =
    (ud.clients ≡ cs)
    × (ud.client_count ≡ length cs)
    × (1 ≤ length cs)
    × (length cs ≤ max 1 (limit by_url))

-- The limits are `usize` values.
pub record IsWordSized (c : Config) : Type 0 where
  pub total : limit c.max_connections ≤ usize_max
  pub by_url : limit c.max_connections_by_url ≤ usize_max

pub record Inv (s : State) : Type 0 where
  pub distinct : IsDistinct s.connection_map
  pub named : IsNamed s.connection_map
  pub counted : s.client_count ≡ length s.connection_map
  pub fits : s.client_count ≤ limit s.max_connections
  pub words : IsWordSized s.config
  pub urls :
      (url : Bytes)
      → Entry s.max_connections_by_url (at_url url s.connection_map) (lookup url s.url_data_map)

pub new_state-Inv : (c : Config) → IsWordSized c → Inv (new_state c)
unfolding new_state lookup
new_state-Inv c w = record {
  distinct = tt;
  named = tt;
  counted = refl;
  fits = omega arith;
  words = w;
  urls = λ url. refl;
}

-- The new entry of the URL that a client joins.
abbrev pub Joined : State → Client → List (Bytes × UrlData) → Type 0
Joined s cd urls =
    (ud : UrlData) × (urls ≡ insert cd.url ud s.url_data_map)
    × Entry s.max_connections_by_url (at_url cd.url s.connection_map ++ cd ∷ []) (some ud)

Entry-new :
    (by_url : Option ℕ) (cs : List Client) (cd : Client)
    → Entry by_url cs none
    → Entry by_url (cs ++ cd ∷ []) (some (new_url_data cd))
unfolding new_url_data
Entry-new by_url cs cd h = rw h (refl, omega arith, omega arith, omega arith)

Entry-add :
    (by_url : Option ℕ) (cs : List Client) (old ud : UrlData) (cd : Client)
    → Entry by_url cs (some old)
    → url_add_connection old cd by_url ≡ some ud
    → Entry by_url (cs ++ cd ∷ []) (some ud)
unfolding url_add_connection
Entry-add by_url cs old ud cd h e = (
  ground arith,
  ground (arith, length-append cs (cd ∷ [])),
  ground (arith, length-append cs (cd ∷ [])),
  ground (arith, length-append cs (cd ∷ [])),
)

enter_url-Joined :
    (s : State) (cd : Client) (urls : List (Bytes × UrlData))
    → Inv s
    → enter_url s cd ≡ some urls
    → Joined s cd urls
unfolding enter_url
enter_url-Joined s cd urls v e = elim (Option-cases (lookup cd.url s.url_data_map)) [
  | inl absent ↦ (
    new_url_data cd,
    ground arith,
    Entry-new s.max_connections_by_url (at_url cd.url s.connection_map) cd
        (rw absent at (v.urls cd.url)),
  )
  | inr (old, present) ↦ elim (Option-cases (url_add_connection old cd s.max_connections_by_url)) [
    | inl full ↦ absurd (ground arith)
    | inr (ud, room) ↦ (
      ud,
      ground arith,
      Entry-add s.max_connections_by_url (at_url cd.url s.connection_map) old ud cd
          (rw present at (v.urls cd.url)) room,
    )
  ]
]

-- A client joins: the URLs' entries, given the new entry of its own URL.
urls-insert :
    (s : State) (cd : Client) (urls : List (Bytes × UrlData)) (url : Bytes)
    → Inv s
    → Joined s cd urls
    → Entry s.max_connections_by_url
        (at_url url (s.connection_map ++ (cd.session_id, cd) ∷ []))
        (lookup url urls)
urls-insert s cd urls url v (ud, e, joined) =
    rw (e, lookup-insert cd.url url ud s.url_data_map, at_url-append url cd s.connection_map)
      (elim (Bool-cases (bytes_eq cd.url url)) [
        | inl same ↦ rw same (
            subst
              (λ u. Entry s.max_connections_by_url (at_url u s.connection_map ++ cd ∷ []) (some ud))
              (bytes_eq_sound cd.url url same) joined)
        | inr other ↦ rw other (v.urls url)
      ])

entered-Inv :
    (s : State) (cd : Client) (urls : List (Bytes × UrlData))
    → Inv s
    → lookup cd.session_id s.connection_map ≡ none
    → s.client_count < limit s.max_connections
    → enter_url s cd ≡ some urls
    → Inv (record s {
      client_count = s.client_count + 1;
      connection_map = insert cd.session_id cd s.connection_map;
      url_data_map = urls;
    })
entered-Inv s cd urls v fresh room e =
    rw (insert_missing cd.session_id cd s.connection_map fresh) (record {
      distinct = append-IsDistinct cd.session_id cd s.connection_map fresh v.distinct;
      named = append-IsNamed cd s.connection_map v.named;
      counted = omega (arith, length-append s.connection_map ((cd.session_id, cd) ∷ []));
      fits = omega arith;
      words = v.words;
      urls = λ url. urls-insert s cd urls url v (enter_url-Joined s cd urls v e);
    })

-- An attempt that the URL refuses is undone.
pub undone :
    (s : State) (cd : Client)
    → Inv s
    → lookup cd.session_id s.connection_map ≡ none
    → s.client_count < limit s.max_connections
    → record s {
      client_count = dec_u64 (s.client_count + 1);
      connection_map = remove cd.session_id (insert cd.session_id cd s.connection_map);
    }
      ≡ s
unfolding remove
undone s cd v fresh room =
    rw
      (
        insert_missing cd.session_id cd s.connection_map fresh,
        remove-append cd.session_id s.connection_map ((cd.session_id, cd) ∷ []),
        remove_missing cd.session_id s.connection_map fresh,
        bytes_eq_refl cd.session_id,
        append-nil,
      )
      (let e : dec_u64 (s.client_count + 1) ≡ s.client_count = omega (arith, v.words.total) in rw e)

-- Adding a client whose session is not connected keeps the invariant.
pub add_connection-Inv :
    (s : State) (cd : Client)
    → Inv s
    → lookup cd.session_id s.connection_map ≡ none
    → Inv (add_connection s cd).0
unfolding add_connection
add_connection-Inv s cd v fresh = elim (Bool-cases (leb (limit s.max_connections) s.client_count)) [
  | inl full ↦ rw full v
  | inr room ↦
      let lt : s.client_count < limit s.max_connections = leb-false _ _ room in
      elim (Option-cases (enter_url s cd)) [
        | inl refused ↦
            rw (room, refused, add_connection) (subst Inv (sym (undone s cd v fresh lt)) v)
        | inr (urls, e) ↦ rw (room, e, add_connection) (entered-Inv s cd urls v fresh lt e)
      ]
]
