-- ===== src/Hub/State/UrlThreads/Facts.antt =====
-- What a step of one thread may do to the URL's entry, to the counters and lists, and to its own
-- session.
use verse_entrance_server.Base.{
  ℕ, ◌+◌, ◌≤◌, ◌<◌, max, ◌≡◌, ◌≢◌, ◌⊎◌, Bool, true, false, Option, none, some, ◌==◌, if◌then◌else◌,
  Bytes, lookup,
}
use verse_entrance_server.Hub.State.Sessions.{IsDistinct}
use verse_entrance_server.Hub.State.Threads.Sums.{flag, through}
use verse_entrance_server.Hub.State.UrlThreads.{
  Shared, Phase, idle, adding, occupied, loaded, counted, removing, found, subtracted, retained,
  Call, empty_tally, session, opens,
}

-- What the counter of a `UrlData` has for a thread, besides the clients of its list.
abbrev pub held : ℕ → Phase → ℕ
held v idle = 0
held v (adding sid) = 0
held v (occupied sid u) = 0
held v (loaded sid u n) = 0
held v (counted sid u) = if u == v then 1 else 0
held v (removing sid again) = 0
held v (found sid again u) = 0
held v (subtracted sid again u) = 0
held v (retained sid again) = 0

-- Whether a thread has locked the entry.
abbrev pub holding : Phase → ℕ
holding idle = 0
holding (adding sid) = 0
holding (occupied sid u) = 1
holding (loaded sid u n) = 1
holding (counted sid u) = 1
holding (removing sid again) = 0
holding (found sid again u) = 0
holding (subtracted sid again u) = 0
holding (retained sid again) = 0

-- Whether a thread is still to look whether the entry's `UrlData` is empty, having lessened a counter.
abbrev pub leaving : Phase → Bool
leaving idle = false
leaving (adding sid) = false
leaving (occupied sid u) = false
leaving (loaded sid u n) = false
leaving (counted sid u) = false
leaving (removing sid again) = false
leaving (found sid again u) = false
leaving (subtracted sid again u) = true
leaving (retained sid again) = true

-- Where a session stands in the lists.
pub data Spot : Type 0 where
  nowhere : Spot
  at : ℕ → Bool → Spot

abbrev pub seen : Spot → ℕ → Option Bool
seen nowhere v = none
seen (at u b) v = if u == v then some b else none

abbrev pub Stands : Shared → Bytes → Spot → Type 0
Stands m sid o = (v : ℕ) → lookup sid (m.heap v).clients ≡ seen o v

-- A session is connected, and the counter of the URL's entry has it.
abbrev pub Listed : Shared → Bytes → Type 0
Listed m sid = (u : ℕ) × (m.entry ≡ some u) × Stands m sid (at u true)

-- What holds of a session that no thread is at work on.
abbrev pub Rests : Shared → Bytes → Type 0
Rests m sid =
    ((m.connected sid ≡ true) × Listed m sid) ⊎ ((m.connected sid ≡ false) × Stands m sid nowhere)

-- What a thread may rely on of its own session.
abbrev pub Good : ℕ → Shared → Phase → Type 0
Good limit m idle = Unit
Good limit m (adding sid) = (m.connected sid ≡ false) × Stands m sid nowhere
Good limit m (occupied sid u) =
    (m.connected sid ≡ false) × Stands m sid nowhere × (m.entry ≡ some u)
Good limit m (loaded sid u n) =
    (m.connected sid ≡ false) × Stands m sid nowhere × (m.entry ≡ some u) × (n < limit)
Good limit m (counted sid u) = (m.connected sid ≡ false) × Stands m sid nowhere × (m.entry ≡ some u)
Good limit m (removing sid again) = (m.connected sid ≡ false) × Listed m sid
Good limit m (found sid again u) =
    (m.connected sid ≡ false) × (m.entry ≡ some u) × Stands m sid (at u true)
Good limit m (subtracted sid again u) = (m.connected sid ≡ false) × Stands m sid (at u false)
Good limit m (retained sid again) = (m.connected sid ≡ false) × Stands m sid nowhere

-- The store by itself.
pub record Sound (limit : ℕ) (m : Shared) : Type 0 where
  pub distinct : (u : ℕ) → IsDistinct (m.heap u).clients
  pub fits : (u : ℕ) → (m.heap u).client_count ≤ max 1 limit
  pub unused : (u : ℕ) → m.fresh ≤ u → m.heap u ≡ empty_tally
  pub young : (u : ℕ) → m.entry ≡ some u → u < m.fresh

pub record Moved (limit : ℕ) (c : Call) (m : Shared) (p : Phase) (m' : Shared) (p' : Phase)
    : Type 0 where
  pub sound : Sound limit m'
  pub good : Good limit m' p'
  pub account :
      (v : ℕ)
      → (m'.heap v).client_count + held v p + through (m.heap v).clients
        ≡ (m.heap v).client_count + held v p' + through (m'.heap v).clients
  pub lock : flag m'.locked + holding p ≡ flag m.locked + holding p'
  pub others :
      (sid : Bytes)
      → session p ≢ some sid
      → session p' ≢ some sid
      → (m'.connected sid ≡ m.connected sid)
        × ((v : ℕ) → lookup sid (m'.heap v).clients ≡ lookup sid (m.heap v).clients)
  pub entry_kept :
      (u : ℕ)
      → m.entry ≡ some u
      → (m'.entry ≡ some u) ⊎ (((m.heap u).client_count ≡ 0) × (m.locked ≡ false))
  pub empties :
      (u : ℕ)
      → m'.entry ≡ some u
      → (m'.heap u).client_count ≡ 0
      → (leaving p' ≡ true)
        ⊎ ((m.entry ≡ some u) × ((m.heap u).client_count ≡ 0) × (leaving p ≡ false))
  pub rests : (sid : Bytes) → session p ≡ some sid → session p' ≢ some sid → Rests m' sid
  pub stays :
      (sid : Bytes) → session p' ≡ some sid → (session p ≡ some sid) ⊎ (opens p c ≡ some sid)
