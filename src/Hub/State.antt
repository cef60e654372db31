-- ===== src/Hub/State.antt =====
-- hubserv/src/state.rs: the connections of the server, by session and by URL. One call after another.
pub mod Sessions
pub mod Invariant
pub mod Departure
pub mod Admission
pub mod Runs
pub mod Races
pub mod Registry
pub mod Threads
pub mod UrlThreads
use verse_entrance_server.Base.{
  ℕ, zero, suc, ◌+◌, ◌-◌, ◌*◌, ◌/◌, ◌%◌, ◌^◌, ◌≤◌, ◌<◌, max, min, ◌≡◌, refl, sym, ap, ap₂, subst,
  ◌∙◌, ◌≢◌, ◌↔◌, ◌⊎◌, inl, inr, Bool, true, false, ◌&&◌, ◌||◌, not, Option, none, some, List, [],
  ◌∷◌, ◌++◌, map, append_assoc, append-nil, arith, ltb, leb, ◌==◌, if◌then◌else◌, leb→le, leb-false,
  ==_iff, Bool-cases, Option-cases, unwrap_or, usize_max, dec_u64, length, retain, any, take, All,
  In, In-append_left, In-append_right, In-append_cases, length-append, length-map, length-retain-le,
  retain-append, length-take, any-append_true, Bytes, codes, bytes_eq, bytes_eq_refl,
  bytes_eq_sound, bytes_eq_iff, contains, starts_with, ends_with, lookup, insert, remove, values,
  lookup-insert, lookup-remove, insert_missing, remove_missing, remove-append, values-append,
}
use verse_entrance_server.Hub.Client.{Disposal, dispose, Client, Cells, new_cell, write_cell}
use verse_entrance_server.Hub.UrlData.{
  UrlData, limit, new_url_data, url_add_connection, url_remove_connection, is_empty,
}

pub record Config : Type 0 where
  pub max_connections : Option ℕ
  pub max_connections_by_url : Option ℕ
  pub max_routing_results : ℕ

pub record State : Type 0 where
  pub config : Config
  pub open config use *
  pub connection_map : List (Bytes × Client)
  pub url_data_map : List (Bytes × UrlData)
  pub client_count : ℕ
  pub cells : Cells
  -- What `dispose` was called on, the latest first.
  pub disposed : List Disposal

-- The state that `State::new` makes once it has its access logger.
unfoldable pub new_state : Config → State
new_state config = record {
  config = config;
  connection_map = [];
  url_data_map = [];
  client_count = 0;
  cells = λ a. new_cell;
  disposed = [];
}

-- `State::new`, which builds an access logger where the path of a log is given; `none` is its panic.
unfoldable pub open_state : (Bytes → Bool) → Option Bytes → Config → Option State
open_state builds_logger none config = some (new_state config)
open_state builds_logger (some path) config =
    if builds_logger path then some (new_state config) else none

unfoldable pub get_connection : State → Bytes → Option Client
get_connection s sid = lookup sid s.connection_map

unfoldable pub get_url_data : State → Bytes → Option UrlData
get_url_data s url = lookup url s.url_data_map

unfoldable pub is_new_connection_available : State → Bytes → Bool
unfolding get_url_data
is_new_connection_available s url =
    if leb (limit s.max_connections) s.client_count then false else (elim (get_url_data s url) [
      | none ↦ true
      | some ud ↦ if leb (limit s.max_connections_by_url) ud.client_count then false else true
    ])

-- Registers the client under its URL: `none` if the URL is full.
unfoldable pub enter_url : State → Client → Option (List (Bytes × UrlData))
unfolding url_add_connection new_url_data
enter_url s cd = elim (lookup cd.url s.url_data_map) [
  | none ↦ some (insert cd.url (new_url_data cd) s.url_data_map)
  | some ud ↦ elim (url_add_connection ud cd s.max_connections_by_url) [
    | none ↦ none
    | some ud' ↦ some (insert cd.url ud' s.url_data_map)
  ]
]

unfoldable pub add_connection : State → Client → State × Bool
unfolding enter_url
add_connection s cd =
    if leb (limit s.max_connections) s.client_count then (s, false) else (elim (enter_url s cd) [
      | some urls ↦ (
        record s {
          client_count = s.client_count + 1;
          connection_map = insert cd.session_id cd s.connection_map;
          url_data_map = urls;
        },
        true,
      )
      | none ↦ (
        record s {
          client_count = dec_u64 (s.client_count + 1);
          connection_map = remove cd.session_id (insert cd.session_id cd s.connection_map);
        },
        false,
      )
    ])

-- The URL's side of `remove_connection`: an emptied entry goes (`remove_if`).
unfoldable pub leave_url : List (Bytes × UrlData) → Client → Bytes → List (Bytes × UrlData)
unfolding url_remove_connection is_empty
leave_url urls cd sid = elim (lookup cd.url urls) [
  | none ↦ urls
  | some ud ↦
      if is_empty (url_remove_connection ud sid)
      then remove cd.url urls
      else insert cd.url (url_remove_connection ud sid) urls
]

unfoldable pub remove_connection : State → Bytes → State
unfolding leave_url dispose
remove_connection s sid = elim (lookup sid s.connection_map) [
  | none ↦ s
  | some cd ↦ record s {
    connection_map = remove sid s.connection_map;
    client_count = dec_u64 s.client_count;
    disposed = dispose s.cells cd ∷ s.disposed;
    url_data_map = leave_url s.url_data_map cd sid;
  }
]
