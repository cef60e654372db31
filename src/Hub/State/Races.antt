-- ===== src/Hub/State/Races.antt =====
-- Two requests of one session at once. `enter` removes the session and adds it again in two calls, so
-- another `enter` of the session may come between.
use verse_entrance_server.Base.{
  suc, ◌+◌, ◌≤◌, ◌≡◌, refl, ap, inl, inr, Bool, true, false, some, List, [], ◌∷◌, arith, leb,
  leb-false, Bool-cases, Option-cases, usize_max, length, Bytes, bytes_eq, bytes_eq_refl,
  bytes_eq_sound, bytes_eq_iff, lookup, insert, lookup-insert,
}
use verse_entrance_server.Hub.Client.{Client}
use verse_entrance_server.Hub.UrlData.{limit}
use verse_entrance_server.Hub.State.{
  State, enter_url, add_connection, remove_connection, get_connection,
}
use verse_entrance_server.Hub.State.Sessions.{IsDistinct, length-remove}
use verse_entrance_server.Hub.State.Invariant.{Inv, add_connection-Inv}
use verse_entrance_server.Hub.State.Departure.{remove_connection-Inv}
use verse_entrance_server.Hub.State.Admission.{add_connection_accepted}
use verse_entrance_server.Hub.State.Runs.{remove_connection-lookup}

module _ {ℓ} {V : Type ℓ} where
  length-insert_present :
      (k : Bytes) (v : V) (m : List (Bytes × V)) {w : V}
      → lookup k m ≡ some w
      → length (insert k v m) ≡ length m
  unfolding lookup insert
  length-insert_present k v [] e = cc
  length-insert_present k v ((j, u) ∷ m) {w} e = elim (Bool-cases (bytes_eq j k)) [
    | inl same ↦ rw same
    | inr other ↦ rw other (ap suc (length-insert_present k v m {w = w} (rw other at e)))
  ]

  pub insert-IsDistinct :
      (k : Bytes) (v : V) (m : List (Bytes × V)) → IsDistinct m → IsDistinct (insert k v m)
  unfolding insert lookup
  insert-IsDistinct k v [] d = (refl, tt)
  insert-IsDistinct k v ((j, w) ∷ m) d = elim (Bool-cases (bytes_eq j k)) [
    | inl same ↦ rw same (rw (bytes_eq_sound j k same) at d)
    | inr other ↦ rw other (
      rw (lookup-insert k j v m) (ground (arith, bytes_eq_iff j k, bytes_eq_iff k j, d.0)),
      insert-IsDistinct k v m d.1,
    )
  ]

-- Adding a session that is connected counts it twice.
record CountsTwice (s : State) : Type 0 where
  distinct : IsDistinct s.connection_map
  counted : s.client_count ≡ length s.connection_map + 1
  small : s.client_count ≤ usize_max

add_connected :
    (s : State) (cd old : Client)
    → Inv s
    → lookup cd.session_id s.connection_map ≡ some old
    → (add_connection s cd).1 ≡ true
    → CountsTwice (add_connection s cd).0
unfolding add_connection
add_connected s cd old v e h = elim (Bool-cases (leb (limit s.max_connections) s.client_count)) [
  | inl full ↦ absurd (refused (rw full at h))
  | inr room ↦ elim (Option-cases (enter_url s cd)) [
    | inl none' ↦ absurd (refused (rw (room, none', add_connection) at h))
    | inr (urls, entered) ↦
        rw (room, entered, add_connection)
          (record {
            distinct = insert-IsDistinct cd.session_id cd s.connection_map v.distinct;
            counted = omega (
              arith,
              v.counted,
              length-insert_present cd.session_id cd s.connection_map {w = old} e,
            );
            small = omega (arith, v.words.total, leb-false _ _ room);
          })
  ]
]
  where
    refused : false ≡ true → ⊥
    refused k = cc

remove_counted_twice :
    (s : State) (sid : Bytes) (cd : Client)
    → CountsTwice s
    → lookup sid s.connection_map ≡ some cd
    → (remove_connection s sid).client_count ≡ length (remove_connection s sid).connection_map + 1
unfolding remove_connection
remove_counted_twice s sid cd v e =
    rw (e, remove_connection)
      (omega (arith, v.counted, v.small, length-remove sid s.connection_map {v = cd} v.distinct e))

-- The two calls of `enter` by each of two requests, both removals before both additions.
unfoldable pub overlapping_enters : State → Client → Client → State × Bool × Bool
overlapping_enters s c d =
    let cleared = remove_connection (remove_connection s c.session_id) d.session_id in
    let (one, accepted) = add_connection cleared c in
    let (two, accepted') = add_connection one d in (two, accepted, accepted')

-- When two requests of one session overlap so and both are accepted, one connection is left but
-- two are counted: once the session has been removed, the counter is one above the number of
-- connections.
pub overlapping_enters-counts :
    (s : State) (c d : Client)
    → Inv s
    → c.session_id ≡ d.session_id
    → (overlapping_enters s c d).1 ≡ true
    → (overlapping_enters s c d).2 ≡ true
    → let t = remove_connection (overlapping_enters s c d).0 d.session_id in
      t.client_count ≡ length t.connection_map + 1
unfolding overlapping_enters get_connection
overlapping_enters-counts s c d v e h k =
    remove_counted_twice (add_connection one d).0 d.session_id d
      (add_connected one d c one-Inv found k)
      (rw (add_connection_accepted one d d.session_id k) (rw (bytes_eq_refl d.session_id)))
  where
    cleared : State
    cleared = remove_connection (remove_connection s c.session_id) d.session_id

    one : State
    one = (add_connection cleared c).0

    one-Inv : Inv one
    one-Inv =
        add_connection-Inv cleared c
          (remove_connection-Inv _ d.session_id (remove_connection-Inv s c.session_id v))
          (rw e (remove_connection-lookup _ d.session_id))

    found : lookup d.session_id one.connection_map ≡ some c
    found =
        rw (add_connection_accepted cleared c d.session_id h) (rw (e, bytes_eq_refl d.session_id))
