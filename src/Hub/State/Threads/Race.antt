-- ===== src/Hub/State/Threads/Race.antt =====
-- Why a call for a session that another thread is at work on is left out of Hub/State/Threads.
use verse_entrance_server.Base.{
  ℕ, ◌≤◌, ◌≡◌, refl, false, some, arith, usize_max, dec_u64, Bytes, lookup,
}
use verse_entrance_server.Hub.State.Threads.{
  Shared, idle, removing, taken, adding, refused, go, act,
}

-- The connection of `sid` is removed by one thread after another has registered it and before the URL
-- refuses it.
unfoldable removed_while_refused : ℕ → Shared → Bytes → Shared
unfolding act
removed_while_refused limit m sid =
    let gone = (act limit m (removing sid false) (go false)).0 in
    let less = (act limit gone (taken sid false) (go false)).0 in
    (act limit less (refused sid) (go false)).0

full_refuses :
    (limit : ℕ) (m : Shared) (sid : Bytes)
    → limit ≤ m.client_count
    → (act limit m (adding sid) (go false)).1 ≡ idle
unfolding act
full_refuses limit m sid h = ground arith

-- The counter is then lessened twice for one connection: if it was 1, it wraps to the largest value,
-- and every later client is refused.
removed_while_refused-wraps :
    (limit : ℕ) (m : Shared) (sid other : Bytes)
    → limit ≤ usize_max
    → m.client_count ≡ 1
    → lookup sid m.connection_map ≡ some false
    → ((removed_while_refused limit m sid).client_count ≡ usize_max)
      × ((act limit (removed_while_refused limit m sid) (adding other) (go false)).1 ≡ idle)
unfolding removed_while_refused act
removed_while_refused-wraps limit m sid other small one here =
    let twice : (removed_while_refused limit m sid).client_count
        ≡ dec_u64 (dec_u64 m.client_count) =
      rw (here, removed_while_refused) refl in
    let wrapped : (removed_while_refused limit m sid).client_count ≡ usize_max =
      omega (arith, twice, one) in
    (
      wrapped,
      full_refuses limit (removed_while_refused limit m sid) other (omega (arith, wrapped, small)),
    )
