-- ===== src/Tests/Messages.antt =====
-- Messages in a small world.
use verse_entrance_server.Base.{
  ℕ, zero, suc, ◌≤◌, ◌≡◌, refl, inl, inr, true, false, Option, none, some, List, [], ◌∷◌, ◌++◌,
  arith, length, take, In, Bytes, codes, bytes_eq, contains, lookup, insert,
}
use verse_entrance_server.Proto.Swarm.{RoutingInfo}
use verse_entrance_server.Proto.Rpc.{
  request, RpcPacket, encode_packet, decode_packet, decode_packet-encode_packet,
}
use verse_entrance_server.Hub.Client.{Client, new_cell, get_dc}
use verse_entrance_server.Hub.UrlData.{UrlData}
use verse_entrance_server.Hub.State.{
  new_state, add_connection, enter_url, State, get_connection, get_url_data, remove_connection,
}
use verse_entrance_server.Hub.State.Invariant.{Inv}
use verse_entrance_server.Hub.State.Runs.{run, step, enter_session}
use verse_entrance_server.Hub.State.Sessions.{at_url}
use verse_entrance_server.Hub.Swarm.{
  reply, panic, TransferRequest, transfer, exchange_routeing_info,
}
use verse_entrance_server.Hub.Swarm.Exchange.{
  relations, IsChoice, exchange_routeing_info-Inv, exchange_routeing_info-bounded,
  exchange_routeing_info_removed,
}
use verse_entrance_server.Hub.Swarm.Transfer.{IsSigned, Delivers, transfer-Delivers, transfer_sound}
use verse_entrance_server.Hub.Types.{
  RequestPayload, Url, normalize, normalize_url, byte_len, max_url_len, is_incorrect,
}
use verse_entrance_server.Hub.Types.Normalize.{normalize-accepted, normalize_panics}
use verse_entrance_server.Tests.Connections.{ann, one, one-Inv, ann_connected}
use verse_entrance_server.Tests.World.{
  zlib, zlib-IsLossless, rpc, rpc_faithful, ri_sent, world, world-IsFaithful,
}

abbrev packet : RpcPacket
packet = record {
  is_compressed = false;
  data' = some (request (record { rpc_id = 1; param = codes "hello" }));
}

decode_packet-encode_packet_example :
    decode_packet zlib rpc (encode_packet zlib rpc packet) ≡ some packet
decode_packet-encode_packet_example =
    decode_packet-encode_packet zlib rpc packet zlib-IsLossless rpc_faithful refl

-- A URL parser for the test: every text is the path of one host.
abbrev parse : List ℕ → Option Url
parse u = some (record { scheme = codes "https"; host_str = some (codes "a.example"); path = u })

abbrev payload : RequestPayload
payload = record { url = codes "/x/"; body = codes "sdp"; raw_url = [] }

abbrev normal : RequestPayload
normal = record { url = codes "https://a.example/x"; body = codes "sdp"; raw_url = codes "/x/" }

normalized : normalize parse true payload ≡ some normal
unfolding normalize normalize_url is_incorrect byte_len contains
normalized = refl

normalize-accepted_example :
    (codes "/x/" ≡ codes "/x/")
    × (codes "https://a.example/x" ≡ normalize_url parse (codes "/x/"))
    × (byte_len (codes "/x/") ≤ max_url_len)
    × (contains 13 (codes "/x/") ≡ false)
    × (contains 10 (codes "/x/") ≡ false)
normalize-accepted_example =
    normalize-accepted parse true payload normal normalized (λ e. ground arith)

-- 127 letters, a letter of two bytes and a line break.
abbrev letters : ℕ → List ℕ
letters zero = []
letters (suc n) = 97 ∷ letters n

abbrev broken : RequestPayload
broken = record { url = letters 127 ++ 233 ∷ 10 ∷ []; body = codes "sdp"; raw_url = [] }

broken_incorrect : is_incorrect broken.url ≡ true
unfolding is_incorrect byte_len contains
broken_incorrect = refl

normalize_panics_example : normalize parse true broken ≡ none
unfolding byte_len
normalize_panics_example =
    normalize_panics parse (letters 127) (10 ∷ []) 233 broken refl (omega arith) (omega arith)
      broken_incorrect

-- Ann with a data channel.
abbrev open_one : State
open_one = record one { cells = λ a. record new_cell { dc = some 21 } }

abbrev signed_request : TransferRequest
signed_request = record {
  to_session_id = codes "ann";
  signature = some (record {
    from_session_id = codes "bob";
    signature = codes "bob was here";
    salt = codes "salt";
  });
  payload = codes "hello";
  ttl = 3;
}

open_connected : get_connection open_one (codes "ann") ≡ some ann
unfolding get_connection
open_connected = ann_connected

has_channel : get_dc open_one.cells ann ≡ some 21
unfolding get_dc
has_channel = refl

transfer-Delivers_example :
    (bytes : Bytes) × (transfer world open_one signed_request
      ≡ reply (
        record { result = true; dest_session_id = codes "ann" },
        record { dc = 21; bytes = bytes } ∷ [],
      ))
    × Delivers world bytes (record signed_request { ttl = 2 })
transfer-Delivers_example =
    transfer-Delivers world open_one signed_request ann 21 world-IsFaithful
      (
        refl,
        (
          record {
            from_session_id = codes "bob";
            signature = codes "bob was here";
            salt = codes "salt";
          },
          refl,
          refl,
          refl,
        ),
      )
      (omega arith) open_connected has_channel refl

heard :
    (bytes : Bytes) × (transfer world open_one signed_request
      ≡ reply (
        record { result = true; dest_session_id = codes "ann" },
        record { dc = 21; bytes = bytes } ∷ [],
      ))
    × Delivers world bytes (record signed_request { ttl = 2 })
heard =
    transfer-Delivers world open_one signed_request ann 21 world-IsFaithful
      (
        refl,
        (
          record {
            from_session_id = codes "bob";
            signature = codes "bob was here";
            salt = codes "salt";
          },
          refl,
          refl,
          refl,
        ),
      )
      (omega arith) open_connected has_channel refl

transfer_sound_example :
    IsSigned world signed_request
    × (1 ≤ 3)
    × ((to : Client) × (dc : ℕ) × (get_connection open_one (codes "ann") ≡ some to)
        × (get_dc open_one.cells to ≡ some dc))
transfer_sound_example =
    transfer_sound world open_one signed_request
      (record { result = true; dest_session_id = codes "ann" })
      (record { dc = 21; bytes = heard.0 } ∷ []) heard.1 refl

exchange_routeing_info-Inv_example :
    (ri : RoutingInfo) × (t : State) × (exchange_routeing_info world 7 one ann ri_sent
      ≡ reply (ri, t))
    × Inv t
exchange_routeing_info-Inv_example =
    exchange_routeing_info-Inv world 7 one ann ri_sent one-Inv ann_connected

exchanged_one :
    (ri : RoutingInfo) × (t : State) × (exchange_routeing_info world 7 one ann ri_sent
      ≡ reply (ri, t))
    × Inv t
exchanged_one = exchange_routeing_info-Inv world 7 one ann ri_sent one-Inv ann_connected

In-take : (n : ℕ) (xs : List RoutingInfo) (x : RoutingInfo) → In x (take n xs) → In x xs
In-take zero xs x m = elim m [ ]
In-take (suc n) [] x m = elim m [ ]
In-take (suc n) (y ∷ ys) x (inl e) = inl e
In-take (suc n) (y ∷ ys) x (inr m) = inr (In-take n ys x m)

take-length : (n : ℕ) (xs : List RoutingInfo) → length (take n xs) ≤ n
take-length zero xs = omega arith
take-length (suc n) [] = omega arith
take-length (suc n) (x ∷ xs) = let h = take-length n xs in omega arith

take-IsChoice : IsChoice take
take-IsChoice n xs = (take-length n xs, In-take n xs)

exchange_routeing_info-bounded_example :
    (length (relations exchanged_one.0) ≤ one.max_routing_results)
    × ((ud : UrlData) × (get_url_data exchanged_one.1 (codes "https://a.example") ≡ some ud)
        × ((x : RoutingInfo) → In x (relations exchanged_one.0) → In x (relations ud.listing)))
exchange_routeing_info-bounded_example =
    exchange_routeing_info-bounded world 7 one exchanged_one.1 ann ri_sent exchanged_one.0
      take-IsChoice exchanged_one.2

ann_alone : length (at_url ann.url one.connection_map) ≡ 1
unfolding run step enter_session new_state add_connection enter_url remove_connection lookup insert
    bytes_eq
ann_alone = refl

exchange_routeing_info_removed_example :
    exchange_routeing_info world 7 (remove_connection one (codes "ann")) ann ri_sent ≡ panic
exchange_routeing_info_removed_example =
    exchange_routeing_info_removed world 7 one ann ri_sent one-Inv ann_connected ann_alone
