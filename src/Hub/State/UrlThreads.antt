-- ===== src/Hub/State/UrlThreads.antt =====
-- The connections of one URL by several threads at once: the part of `add_connection` and
-- `remove_connection` of hubserv/src/state.rs that works on the URL's entry, and the functions of
-- hubserv/src/state/url_data.rs that they call there. Each step is one access to the entry, to the
-- counter of a `UrlData` or to its list.
pub mod Lists
pub mod Facts
pub mod Steps
pub mod Begin
pub mod Entering
pub mod Leaving
pub mod Moves
pub mod Kept
pub mod Safety
pub mod Rest
pub mod Progress
pub mod Finishing
use verse_entrance_server.Base.{
  ℕ, zero, suc, ◌+◌, ◌-◌, ◌*◌, ◌/◌, ◌%◌, ◌^◌, ◌≤◌, ◌<◌, max, min, ◌≡◌, refl, sym, ap, ap₂, subst,
  ◌∙◌, ◌≢◌, ◌↔◌, ◌⊎◌, inl, inr, Bool, true, false, ◌&&◌, ◌||◌, not, Option, none, some, List, [],
  ◌∷◌, ◌++◌, map, append_assoc, append-nil, arith, ltb, leb, ◌==◌, if◌then◌else◌, leb→le, leb-false,
  ==_iff, Bool-cases, Option-cases, unwrap_or, usize_max, dec_u64, length, retain, any, take, All,
  In, In-append_left, In-append_right, In-append_cases, length-append, length-map, length-retain-le,
  retain-append, length-take, any-append_true, Bytes, codes, bytes_eq, bytes_eq_refl,
  bytes_eq_sound, bytes_eq_iff, contains, starts_with, ends_with, lookup, insert, remove, values,
  lookup-insert, lookup-remove, insert_missing, remove_missing, remove-append, values-append,
  List-cases, get_elem?, get_elem?-In, set,
}

-- A `UrlData`. The value of a client is whether the counter still has it; no step looks at it.
pub record Tally : Type 0 where
  pub client_count : ℕ
  pub clients : List (Bytes × Bool)

-- What the threads share. `entry` is the URL's entry in `url_data_map`, by the number of its `UrlData`
-- (an `Arc`); a `UrlData` that has left the map lives on in `heap` for the threads that hold it.
-- `locked` is whether a thread has the entry, and `connected` tells the sessions of the URL that
-- `connection_map` has and whose `add_connection` is through.
pub record Shared : Type 0 where
  pub entry : Option ℕ
  pub fresh : ℕ
  pub heap : ℕ → Tally
  pub locked : Bool
  pub connected : Bytes → Bool

-- Where a thread is. With `true` a removal is the first half of `enter`.
pub data Phase : Type 0 where
  idle : Phase
  adding : Bytes → Phase
  occupied : Bytes → ℕ → Phase
  loaded : Bytes → ℕ → ℕ → Phase
  counted : Bytes → ℕ → Phase
  removing : Bytes → Bool → Phase
  found : Bytes → Bool → ℕ → Phase
  subtracted : Bytes → Bool → ℕ → Phase
  retained : Bytes → Bool → Phase

-- What an idle thread does next: begin a call, or stay idle.
pub data Call : Type 0 where
  enter : Bytes → Call
  leave : Bytes → Call
  wait : Call

abbrev pub after_removal : Bytes → Bool → Phase
after_removal sid true = adding sid
after_removal sid false = idle

abbrev pub mark : Bytes → Bool → (Bytes → Bool) → Bytes → Bool
mark sid b connected k = if bytes_eq sid k then b else connected k

-- `connection_map.remove`
abbrev pub disconnect : Shared → Bytes → Bool → Shared × Phase
disconnect m sid again =
    if m.connected sid
    then (record m { connected = mark sid false m.connected }, removing sid again)
    else (m, after_removal sid again)

abbrev pub begin : Shared → Call → Shared × Phase
begin m (enter sid) = disconnect m sid true
begin m (leave sid) = disconnect m sid false
begin m wait = (m, idle)

abbrev pub with_client : Tally → Bytes → Tally
with_client d sid = record d { clients = d.clients ++ (sid, true) ∷ [] }

-- The counter no longer has the client.
abbrev pub uncount : Bytes → List (Bytes × Bool) → List (Bytes × Bool)
uncount sid [] = []
uncount sid ((k, b) ∷ l) = (k, (if bytes_eq k sid then false else b)) ∷ uncount sid l

abbrev pub empty_tally : Tally
empty_tally = record { client_count = 0; clients = [] }

-- `UrlData::new`
abbrev pub new_tally : Bytes → Tally
new_tally sid = record { client_count = 1; clients = (sid, true) ∷ [] }

-- `url_data_map.entry`: an occupied entry stays locked until `add_connection` of its `UrlData` is over.
abbrev pub open_entry : Shared → Bytes → Option ℕ → Shared × Phase
open_entry m sid none = (
  record m {
    entry = some m.fresh;
    fresh = m.fresh + 1;
    heap = set m.heap m.fresh (new_tally sid);
    connected = mark sid true m.connected;
  },
  idle,
)
open_entry m sid (some u) = (record m { locked = true }, occupied sid u)

-- `url_data_map.get`
abbrev pub find : Bytes → Bool → Option ℕ → Phase
find sid again none = retained sid again
find sid again (some u) = found sid again u

-- `url_data_map.remove_if`
abbrev pub drop_empty : (ℕ → Tally) → Option ℕ → Option ℕ
drop_empty heap none = none
drop_empty heap (some u) = if (heap u).client_count == 0 then none else some u

module _ (limit : ℕ) where
  -- One step of one thread.
  unfoldable pub act : Shared → Phase → Call → Shared × Phase
  unfolding remove
  act m idle c = begin m c
  act m (adding sid) c = if m.locked then (m, adding sid) else open_entry m sid m.entry
  act m (occupied sid u) c =
      if leb limit (m.heap u).client_count
      then (record m { locked = false }, idle)
      else (m, loaded sid u (m.heap u).client_count)
  act m (loaded sid u n) c =
      if (m.heap u).client_count == n
      then (
        record m {
          heap = set m.heap u (record { client_count = n + 1; clients = (m.heap u).clients });
        },
        counted sid u,
      )
      else (m, occupied sid u)
  act m (counted sid u) c = (
    record m {
      heap = set m.heap u (with_client (m.heap u) sid);
      locked = false;
      connected = mark sid true m.connected;
    },
    idle,
  )
  act m (removing sid again) c =
      if m.locked then (m, removing sid again) else (m, find sid again m.entry)
  act m (found sid again u) c = (
    record m {
      heap = set m.heap u (record {
        client_count = dec_u64 (m.heap u).client_count;
        clients = uncount sid (m.heap u).clients;
      });
    },
    subtracted sid again u,
  )
  act m (subtracted sid again u) c = (
    record m {
      heap = set m.heap u (record {
        client_count = (m.heap u).client_count;
        clients = remove sid (m.heap u).clients;
      });
    },
    retained sid again,
  )
  act m (retained sid again) c =
      if m.locked
      then (m, retained sid again)
      else (record m { entry = drop_empty m.heap m.entry }, after_removal sid again)

pub record System : Type 0 where
  pub shared : Shared
  pub pc : ℕ → Phase

-- The session a thread is at work on.
abbrev pub session : Phase → Option Bytes
session idle = none
session (adding sid) = some sid
session (occupied sid u) = some sid
session (loaded sid u n) = some sid
session (counted sid u) = some sid
session (removing sid again) = some sid
session (found sid again u) = some sid
session (subtracted sid again u) = some sid
session (retained sid again) = some sid

abbrev pub named : Call → Option Bytes
named (enter sid) = some sid
named (leave sid) = some sid
named wait = none

-- The session for which a step begins a call.
abbrev pub opens : Phase → Call → Option Bytes
opens idle c = named c
opens p c = none

abbrev pub initial : System
initial = record {
  shared = record {
    entry = none;
    fresh = 0;
    heap = λ u. empty_tally;
    locked = false;
    connected = λ k. false;
  };
  pc = λ i. idle;
}

module _ (limit : ℕ) where
  unfoldable pub move : System → ℕ → Call → System
  unfolding act
  move s i c = record {
    shared = (act limit s.shared (s.pc i) c).0;
    pc = set s.pc i (act limit s.shared (s.pc i) c).1;
  }

  -- The states that `n` threads reach, where no call is begun for a session while another thread is at
  -- work on it.
  pub data Reach (n : ℕ) : System → Type 0 where
    start : Reach n initial
    next :
        {s : System} (i : ℕ) (c : Call)
        → Reach n s
        → i < n
        → ((sid : Bytes) (j : ℕ) → opens (s.pc i) c ≡ some sid → session (s.pc j) ≢ some sid)
        → Reach n (move s i c)
