-- ===== src/Hub/State/Threads.antt =====
-- `add_connection` and `remove_connection` of hubserv/src/state.rs, and `enter`, which calls both
-- (hubserv/src/entrance_server_router.rs), by several threads at once: each step is one access to the
-- counter or to the map of connections. What the URL answers is any answer.
pub mod Sums
pub mod Facts
pub mod Moves
pub mod Safety
pub mod Race
use verse_entrance_server.Base.{
  ℕ, zero, suc, ◌+◌, ◌-◌, ◌*◌, ◌/◌, ◌%◌, ◌^◌, ◌≤◌, ◌<◌, max, min, ◌≡◌, refl, sym, ap, ap₂, subst,
  ◌∙◌, ◌≢◌, ◌↔◌, ◌⊎◌, inl, inr, Bool, true, false, ◌&&◌, ◌||◌, not, Option, none, some, List, [],
  ◌∷◌, ◌++◌, map, append_assoc, append-nil, arith, ltb, leb, ◌==◌, if◌then◌else◌, leb→le, leb-false,
  ==_iff, Bool-cases, Option-cases, unwrap_or, usize_max, dec_u64, length, retain, any, take, All,
  In, In-append_left, In-append_right, In-append_cases, length-append, length-map, length-retain-le,
  retain-append, length-take, any-append_true, Bytes, codes, bytes_eq, bytes_eq_refl,
  bytes_eq_sound, bytes_eq_iff, contains, starts_with, ends_with, lookup, insert, remove, values,
  lookup-insert, lookup-remove, insert_missing, remove_missing, remove-append, values-append,
  List-cases, get_elem?, get_elem?-In, set,
}

-- What the threads share. The value of a connection is whether its `add_connection` is through; no
-- step looks at it.
pub record Shared : Type 0 where
  pub client_count : ℕ
  pub connection_map : List (Bytes × Bool)

-- Where a thread is. With `true` a removal is the first half of `enter`.
pub data Phase : Type 0 where
  idle : Phase
  removing : Bytes → Bool → Phase
  taken : Bytes → Bool → Phase
  adding : Bytes → Phase
  loaded : Bytes → ℕ → Phase
  counted : Bytes → Phase
  registered : Bytes → Phase
  refused : Bytes → Phase
  uncounted : Bytes → Phase

-- What a thread does next, where it has a choice: begin a call, or go on, with the URL's answer.
pub data Choice : Type 0 where
  enter : Bytes → Choice
  leave : Bytes → Choice
  go : Bool → Choice

abbrev pub after_removal : Bytes → Bool → Phase
after_removal sid true = adding sid
after_removal sid false = idle

abbrev pub is_some : {A : Type 0} → Option A → Bool
is_some none = false
is_some (some a) = true

-- The removal from the map in `remove_connection`.
abbrev pub take_out : Shared → Bytes → Bool → Shared × Phase
take_out m sid again =
    if is_some (lookup sid m.connection_map)
    then (record m { connection_map = remove sid m.connection_map }, taken sid again)
    else (m, after_removal sid again)

-- The access to the map of URLs in `add_connection`.
abbrev pub ask_url : Shared → Bytes → Choice → Shared × Phase
ask_url m sid (go true) = (record m { connection_map = insert sid true m.connection_map }, idle)
ask_url m sid (go false) = (m, refused sid)
ask_url m sid (enter other) = (m, refused sid)
ask_url m sid (leave other) = (m, refused sid)

abbrev pub begin : Choice → Phase
begin (enter sid) = removing sid true
begin (leave sid) = removing sid false
begin (go answer) = idle

module _ (max_connections : ℕ) where
  -- One step of one thread.
  unfoldable pub act : Shared → Phase → Choice → Shared × Phase
  unfolding lookup remove insert
  act m idle c = (m, begin c)
  act m (removing sid again) c = take_out m sid again
  act m (taken sid again) c =
      (record m { client_count = dec_u64 m.client_count }, after_removal sid again)
  act m (adding sid) c =
      if leb max_connections m.client_count then (m, idle) else (m, loaded sid m.client_count)
  act m (loaded sid n) c =
      if m.client_count == n
      then (record m { client_count = n + 1 }, counted sid)
      else (m, adding sid)
  act m (counted sid) c =
      (record m { connection_map = insert sid false m.connection_map }, registered sid)
  act m (registered sid) c = ask_url m sid c
  act m (refused sid) c = (record m { client_count = dec_u64 m.client_count }, uncounted sid)
  act m (uncounted sid) c = (record m { connection_map = remove sid m.connection_map }, idle)

pub record System : Type 0 where
  pub shared : Shared
  pub pc : ℕ → Phase

-- The session a thread is at work on.
abbrev pub session : Phase → Option Bytes
session idle = none
session (removing sid again) = some sid
session (taken sid again) = some sid
session (adding sid) = some sid
session (loaded sid n) = some sid
session (counted sid) = some sid
session (registered sid) = some sid
session (refused sid) = some sid
session (uncounted sid) = some sid

-- The session that a step begins to work on.
abbrev pub opens : Phase → Choice → Option Bytes
opens idle c = session (begin c)
opens p c = none

abbrev pub initial : System
initial = record { shared = record { client_count = 0; connection_map = [] }; pc = λ i. idle }

module _ (max_connections : ℕ) where
  unfoldable pub move : System → ℕ → Choice → System
  unfolding act
  move s i c = record {
    shared = (act max_connections s.shared (s.pc i) c).0;
    pc = set s.pc i (act max_connections s.shared (s.pc i) c).1;
  }

  -- The states that `n` threads reach, where no call is begun for a session while another thread is at
  -- work on it.
  pub data Reach (n : ℕ) : System → Type 0 where
    start : Reach n initial
    next :
        {s : System} (i : ℕ) (c : Choice)
        → Reach n s
        → i < n
        → ((sid : Bytes) (j : ℕ) → opens (s.pc i) c ≡ some sid → session (s.pc j) ≢ some sid)
        → Reach n (move s i c)
