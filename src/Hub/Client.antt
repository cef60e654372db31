-- ===== src/Hub/Client.antt =====
-- hubserv/src/state/client_data.rs. An `Arc<ClientData>` is its address with the fields that never
-- change; the data channel and the routing info, which are written through any of the pointers, are
-- in a store of cells by address.
use verse_entrance_server.Base.{ℕ, ◌%◌, Option, none, some, [], ◌==◌, if◌then◌else◌, Bytes}
use verse_entrance_server.Proto.Swarm.{
  RoutingInfo, routing_info, u32_mod, get_relation_count, set_count,
}

pub record Client : Type 0 where
  pub address : ℕ
  pub session_id : Bytes
  pub pc : ℕ
  pub url : Bytes

pub record Cell : Type 0 where
  pub dc : Option ℕ
  pub routing_info : Option RoutingInfo

abbrev pub Cells : Type 0
Cells = ℕ → Cell

-- `ClientData::new`: the mutable part of a fresh client.
abbrev pub new_cell : Cell
new_cell = record { dc = none; routing_info = none }

abbrev pub write_cell : Cells → ℕ → Cell → Cells
write_cell cells a cell b = if a == b then cell else cells b

unfoldable pub get_dc : Cells → Client → Option ℕ
get_dc cells cd = (cells cd.address).dc

-- `OnceBox::set`: a second channel is refused (and logged).
unfoldable pub set_dc : Cells → Client → ℕ → Cells
set_dc cells cd dc = elim (cells cd.address).dc [
  | none ↦ write_cell cells cd.address (record (cells cd.address) { dc = some dc })
  | some old ↦ cells
]

abbrev pub forget_known : RoutingInfo → RoutingInfo
forget_known (routing_info i r) = routing_info (record i { known_gateway_session_ids = [] }) r

-- What `set_routing_info` keeps of the info that a client sends.
unfoldable pub trim_routing_info : RoutingInfo → RoutingInfo
unfolding set_count get_relation_count
trim_routing_info ri = forget_known (set_count (get_relation_count ri % u32_mod) ri)

unfoldable pub set_routing_info : Cells → Client → RoutingInfo → Cells
unfolding trim_routing_info
set_routing_info cells cd ri =
    write_cell cells cd.address
      (record (cells cd.address) { routing_info = some (trim_routing_info ri) })

unfoldable pub get_routing_info : Cells → Client → Option RoutingInfo
get_routing_info cells cd = (cells cd.address).routing_info

-- What a client that is disposed of loses: the callbacks of its peer connection and of its data channel,
-- if it has one, are replaced by empty ones, then the channel and the connection are closed.
pub record Disposal : Type 0 where
  pub dc : Option ℕ
  pub pc : ℕ

unfoldable pub dispose : Cells → Client → Disposal
unfolding get_dc
dispose cells cd = record { dc = get_dc cells cd; pc = cd.pc }
