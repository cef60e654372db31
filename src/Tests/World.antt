-- ===== src/Tests/World.antt =====
-- A world in which protobuf, zlib and the WebRTC library are small functions.
use verse_entrance_server.Base.{
  ℕ, zero, suc, ◌≡◌, refl, sym, ap, Bool, true, false, Option, none, some, [], ◌∷◌, ◌++◌, leb,
  unwrap_or, length, take, Bytes, codes,
}
use verse_entrance_server.Common.Compress.{Zlib, IsLossless}
use verse_entrance_server.Common.Crypto.{drop, drop-append, take-append}
use verse_entrance_server.Proto.Swarm.{RoutingInfo, routing_info, absent, default_info}
use verse_entrance_server.Proto.Rpc.{Data, request, response, RpcPacket, Codec}
use verse_entrance_server.Hub.Swarm.{World, SignatureSet, TransferRequest}
use verse_entrance_server.Hub.Swarm.Transfer.{IsFaithful}

-- A compression for the test: it drops a leading zero.
abbrev pub deflate : Bytes → Option Bytes
deflate [] = none
deflate (zero ∷ xs) = some xs
deflate (suc n ∷ xs) = none

abbrev pub zlib : Zlib
zlib = record { deflate = deflate; inflate = λ xs. some (0 ∷ xs) }

pub zlib-IsLossless : IsLossless zlib
zlib-IsLossless [] ys e = cc
zlib-IsLossless (zero ∷ xs) ys e = ap (λ (o : Option Bytes). some (0 ∷ unwrap_or o [])) (sym e)
zlib-IsLossless (suc n ∷ xs) ys e = cc

-- A protobuf for the test: tags before the fields.
abbrev pub flag : Bool → ℕ
flag true = 1
flag false = 0

abbrev pub encode_data : Option Data → Bytes
encode_data none = 0 ∷ []
encode_data (some (request r)) = 1 ∷ r.rpc_id ∷ r.param
encode_data (some (response r)) = 2 ∷ r.rpc_id ∷ r.param

abbrev pub decode_data : Bytes → Option (Option Data)
decode_data [] = some none
decode_data (zero ∷ xs) = some none
decode_data (suc n ∷ []) = some none
decode_data (suc zero ∷ rpc_id ∷ param) =
    some (some (request (record { rpc_id = rpc_id; param = param })))
decode_data (suc (suc n) ∷ rpc_id ∷ param) =
    some (some (response (record { rpc_id = rpc_id; param = param })))

decode_data-encode_data : (d : Option Data) → decode_data (encode_data d) ≡ some d
decode_data-encode_data none = refl
decode_data-encode_data (some (request r)) = refl
decode_data-encode_data (some (response r)) = refl

abbrev pub decode_flagged : Bool → Bytes → Option RpcPacket
decode_flagged b bytes = elim (decode_data bytes) [
  | none ↦ none
  | some d ↦ some (record { is_compressed = b; data' = d })
]

abbrev pub decode_rpc : Bytes → Option RpcPacket
decode_rpc [] = none
decode_rpc (zero ∷ bytes) = decode_flagged false bytes
decode_rpc (suc n ∷ bytes) = decode_flagged true bytes

abbrev pub rpc : Codec
rpc = record { encode = λ p. flag p.is_compressed ∷ encode_data p.data'; decode = decode_rpc }

flagged :
    (b : Bool) (d : Option Data)
    → decode_rpc (flag b ∷ encode_data d) ≡ some (record { is_compressed = b; data' = d })
flagged true none = refl
flagged true (some (request r)) = refl
flagged true (some (response r)) = refl
flagged false none = refl
flagged false (some (request r)) = refl
flagged false (some (response r)) = refl

pub rpc_faithful : (p : RpcPacket) → rpc.decode (rpc.encode p) ≡ some p
rpc_faithful p = flagged p.is_compressed p.data'

-- A field with its length before it, and what follows.
abbrev pub field : Bytes → Bytes → Bytes
field xs rest = length xs ∷ xs ++ rest

abbrev pub first : Bytes → Bytes
first [] = []
first (n ∷ xs) = take n xs

abbrev pub after : Bytes → Bytes
after [] = []
after (n ∷ xs) = drop n xs

abbrev pub encode_signature : Option SignatureSet → Bytes
encode_signature none = []
encode_signature (some sign) = 1 ∷ field sign.from_session_id (field sign.signature sign.salt)

abbrev pub decode_signature : Bytes → Option SignatureSet
decode_signature [] = none
decode_signature (n ∷ xs) =
    some
      (record { from_session_id = first xs; signature = first (after xs); salt = after (after xs) })

abbrev pub encode_transfer : TransferRequest → Bytes
encode_transfer r = r.ttl ∷ field r.to_session_id (field r.payload (encode_signature r.signature))

abbrev pub decode_transfer : Bytes → Option TransferRequest
decode_transfer [] = none
decode_transfer (ttl ∷ xs) = some (record {
  to_session_id = first xs;
  signature = decode_signature (after (after xs));
  payload = first (after xs);
  ttl = ttl;
})

decode_signature-encode_signature :
    (o : Option SignatureSet) → decode_signature (encode_signature o) ≡ o
decode_signature-encode_signature none = refl
decode_signature-encode_signature (some sign) =
    rw
      (
        take-append sign.from_session_id (field sign.signature sign.salt),
        drop-append sign.from_session_id (field sign.signature sign.salt),
        take-append sign.signature sign.salt,
        drop-append sign.signature sign.salt,
      )
      refl

decode_transfer-encode_transfer :
    (r : TransferRequest) → decode_transfer (encode_transfer r) ≡ some r
decode_transfer-encode_transfer r =
    rw
      (
        take-append r.to_session_id (field r.payload (encode_signature r.signature)),
        drop-append r.to_session_id (field r.payload (encode_signature r.signature)),
        take-append r.payload (encode_signature r.signature),
        drop-append r.payload (encode_signature r.signature),
        decode_signature-encode_signature r.signature,
      )
      refl

-- What Ann sends of herself.
abbrev pub ri_sent : RoutingInfo
ri_sent = routing_info (record default_info { session_id = some (codes "ann") }) absent

abbrev pub world : World
world = record {
  zlib = zlib;
  rpc = rpc;
  encode_swarm = encode_data;
  decode_swarm = decode_data;
  encode_transfer = encode_transfer;
  decode_transfer = decode_transfer;
  encode_answer = λ res. flag res.result ∷ res.dest_session_id;
  encode_info = λ ri. [];
  decode_info = λ bytes. some ri_sent;
  is_session_id = λ id. leb 1 (length id);
  is_signed = λ sign parts. leb 1 (length sign.signature);
  choose_multiple = take;
  is_open = λ dc. true;
}

pub world-IsFaithful : IsFaithful world
world-IsFaithful = record {
  lossless = zlib-IsLossless;
  rpc = rpc_faithful;
  swarm = decode_data-encode_data;
  transfer' = decode_transfer-encode_transfer;
}
