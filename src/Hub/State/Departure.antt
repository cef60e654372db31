-- ===== src/Hub/State/Departure.antt =====
-- `remove_connection` keeps the invariant.
use verse_entrance_server.Base.{
  ℕ, ◌+◌, ◌≤◌, ◌≡◌, refl, sym, ap, subst, ◌⊎◌, inl, inr, true, false, Option, none, some, List, [],
  ◌∷◌, arith, Bool-cases, Option-cases, usize_max, length, retain, Bytes, bytes_eq, bytes_eq_refl,
  bytes_eq_sound, lookup, remove, lookup-insert, lookup-remove,
}
use verse_entrance_server.Hub.Client.{Client}
use verse_entrance_server.Hub.UrlData.{UrlData, limit, is_other, url_remove_connection, is_empty}
use verse_entrance_server.Hub.State.{State, leave_url, remove_connection}
use verse_entrance_server.Hub.State.Sessions.{
  remove-IsDistinct, length-remove, remove-IsNamed, at_url, at_url-remove, at_url-remove_elsewhere,
  length-at_url-remove,
}
use verse_entrance_server.Hub.State.Invariant.{Entry, Inv}

-- The entry of a URL without one session that it has.
leave-Entry :
    (by_url : Option ℕ) (cs rest : List Client) (ud : UrlData) (sid : Bytes)
    → limit by_url ≤ usize_max
    → Entry by_url cs (some ud)
    → rest ≡ retain (is_other sid) cs
    → length rest + 1 ≡ length cs
    → ((is_empty (url_remove_connection ud sid) ≡ true) × Entry by_url rest none)
      ⊎ ((is_empty (url_remove_connection ud sid) ≡ false)
          × Entry by_url rest (some (url_remove_connection ud sid)))
unfolding url_remove_connection is_empty
leave-Entry by_url cs [] ud sid w h e l = inl (ground arith, refl)
leave-Entry by_url cs (c ∷ rest) ud sid w h e l =
    inr (ground arith, (rw h.0 (sym e), ground arith, omega arith, omega arith))

lookup-leave_elsewhere :
    (urls : List (Bytes × UrlData)) (cd : Client) (sid url : Bytes)
    → bytes_eq cd.url url ≡ false
    → lookup url (leave_url urls cd sid) ≡ lookup url urls
unfolding leave_url
lookup-leave_elsewhere urls cd sid url h = elim (Option-cases (lookup cd.url urls)) [
  | inl e ↦ rw (e, leave_url)
  | inr (ud, e) ↦
      rw (e, leave_url)
        (elim (Bool-cases (is_empty (url_remove_connection ud sid))) [
          | inl empty ↦ rw (empty, lookup-remove cd.url url urls, h)
          | inr full ↦ rw (full, lookup-insert cd.url url (url_remove_connection ud sid) urls, h)
        ])
]

lookup-leave :
    (by_url : Option ℕ) (urls : List (Bytes × UrlData)) (cd : Client) (sid : Bytes)
    (cs rest : List Client)
    → limit by_url ≤ usize_max
    → Entry by_url cs (lookup cd.url urls)
    → rest ≡ retain (is_other sid) cs
    → length rest + 1 ≡ length cs
    → Entry by_url rest (lookup cd.url (leave_url urls cd sid))
unfolding leave_url
lookup-leave by_url urls cd sid cs rest w h e l = elim (Option-cases (lookup cd.url urls)) [
  | inl none' ↦ absurd (no_clients (rw none' at h))
  | inr (ud, some') ↦
      rw (some', leave_url)
        (elim (leave-Entry by_url cs rest ud sid w (rw some' at h) e l) [
          | inl (empty, gone) ↦
              rw (empty, lookup-remove cd.url cd.url urls, bytes_eq_refl cd.url) gone
          | inr (full, kept) ↦
              rw
                (
                  full,
                  lookup-insert cd.url cd.url (url_remove_connection ud sid) urls,
                  bytes_eq_refl cd.url,
                )
                kept
        ])
]
  where
    no_clients : cs ≡ [] → ⊥
    no_clients k = omega (arith, ap length k)

-- Removing a session keeps the invariant, whether it is connected or not.
pub remove_connection-Inv : (s : State) (sid : Bytes) → Inv s → Inv (remove_connection s sid)
unfolding remove_connection
remove_connection-Inv s sid v = elim (Option-cases (lookup sid s.connection_map)) [
  | inl e ↦ rw (e, remove_connection) v
  | inr (cd, e) ↦
      rw (e, remove_connection)
        (let shorter : length (remove sid s.connection_map) + 1 ≡ length s.connection_map =
            length-remove sid s.connection_map {v = cd} v.distinct e in
          record {
            distinct = remove-IsDistinct sid s.connection_map v.distinct;
            named = remove-IsNamed sid s.connection_map v.named;
            counted = omega (arith, v.counted, v.words.total);
            fits = omega (arith, v.counted, v.words.total);
            words = v.words;
            urls = λ url. elim (Bool-cases (bytes_eq cd.url url)) [
              | inr other ↦
                  rw
                    (
                      lookup-leave_elsewhere s.url_data_map cd sid url other,
                      at_url-remove_elsewhere url sid s.connection_map cd v.distinct e other,
                    )
                    (v.urls url)
              | inl same ↦
                  subst
                    (λ u.
                      Entry s.max_connections_by_url (at_url u (remove sid s.connection_map))
                        (lookup u (leave_url s.url_data_map cd sid)))
                    (bytes_eq_sound cd.url url same)
                    (lookup-leave s.max_connections_by_url s.url_data_map cd sid
                      (at_url cd.url s.connection_map) (at_url cd.url (remove sid s.connection_map))
                      v.words.by_url (v.urls cd.url)
                      (at_url-remove cd.url sid s.connection_map v.named)
                      (length-at_url-remove sid s.connection_map cd v.distinct e))
            ];
          })
]
