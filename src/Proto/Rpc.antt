-- ===== src/Proto/Rpc.antt =====
-- The `rpc` module of proto/src/lib.rs: the packets of a data channel. The generated protobuf code is a
-- parameter.
use verse_entrance_server.Base.{
  ℕ, ◌≡◌, refl, sym, ap, subst, ◌∙◌, inl, inr, Bool, true, false, Option, none, some, if◌then◌else◌,
  Option-cases, Bytes,
}
use verse_entrance_server.Common.Compress.{
  Zlib, IsLossless, compress_if_needed, decompress, decompress-compress_if_needed,
}

pub record RpcMessage : Type 0 where
  pub rpc_id : ℕ
  pub param : Bytes

-- `rpc_packet::Data`
pub data Data : Type 0 where
  request : RpcMessage → Data
  response : RpcMessage → Data

pub record RpcPacket : Type 0 where
  pub is_compressed : Bool
  pub data' : Option Data

-- `prost::Message` for `RpcPacket`
pub record Codec : Type 0 where
  pub encode : RpcPacket → Bytes
  pub decode : Bytes → Option RpcPacket

unfoldable pub set_request : RpcMessage → RpcPacket → RpcPacket
set_request v p = record p { data' = some (request v) }

unfoldable pub set_response : RpcMessage → RpcPacket → RpcPacket
set_response v p = record p { data' = some (response v) }

abbrev pub message : Data → RpcMessage
message (request r) = r
message (response r) = r

abbrev pub set_param : Data → Bytes → Data
set_param (request r) bytes = request (record r { param = bytes })
set_param (response r) bytes = response (record r { param = bytes })

module _ (z : Zlib) where
  -- The parameter of one message, compressed where that pays.
  unfoldable pub shrink : RpcPacket → Data → RpcPacket
  shrink p d = elim (compress_if_needed z (message d).param) [
    | none ↦ p
    | some none ↦ p
    | some (some compressed) ↦ record p {
      is_compressed = true;
      data' = some (set_param d compressed);
    }
  ]

  -- What `encode_packet` makes of the packet before it is written.
  unfoldable pub compress_packet : RpcPacket → RpcPacket
  unfolding shrink
  compress_packet p = elim p.data' [ none ↦ p | some d ↦ if p.is_compressed then p else shrink p d ]

  unfoldable pub expand : RpcPacket → Data → RpcPacket
  expand p d = elim (decompress z (message d).param) [
    | none ↦ p
    | some decompressed ↦ record p {
      is_compressed = false;
      data' = some (set_param d decompressed);
    }
  ]

  unfoldable pub decompress_packet : RpcPacket → RpcPacket
  unfolding expand
  decompress_packet p = elim p.data' [
    | none ↦ p
    | some d ↦ if p.is_compressed then expand p d else p
  ]

  unfoldable pub encode_packet : Codec → RpcPacket → Bytes
  unfolding compress_packet
  encode_packet codec p = codec.encode (compress_packet p)

  unfoldable pub decode_packet : Codec → Bytes → Option RpcPacket
  unfolding decompress_packet
  decode_packet codec bytes = elim (codec.decode bytes) [
    | none ↦ none
    | some p ↦ some (decompress_packet p)
  ]

set_param_twice : (d : Data) (bytes : Bytes) → set_param (set_param d bytes) (message d).param ≡ d
set_param_twice (request r) bytes = refl
set_param_twice (response r) bytes = refl

message-set_param : (d : Data) (bytes : Bytes) → (message (set_param d bytes)).param ≡ bytes
message-set_param (request r) bytes = refl
message-set_param (response r) bytes = refl

module _ (z : Zlib) (p : RpcPacket) (d : Data) where
  shrink_pays :
      (ys : Bytes)
      → compress_if_needed z (message d).param ≡ some (some ys)
      → shrink z p d ≡ record p { is_compressed = true; data' = some (set_param d ys) }
  unfolding shrink
  shrink_pays ys e = rw (e, shrink) refl

  shrink_fails : compress_if_needed z (message d).param ≡ none → shrink z p d ≡ p
  unfolding shrink
  shrink_fails e = rw (e, shrink) refl

  shrink_keeps : compress_if_needed z (message d).param ≡ some none → shrink z p d ≡ p
  unfolding shrink
  shrink_keeps e = rw (e, shrink) refl

abbrev plain : Option Data → RpcPacket
plain o = record { is_compressed = false; data' = o }

module _ (z : Zlib) where
  expand_lem :
      (d : Data) (ys : Bytes)
      → decompress z ys ≡ some (message d).param
      → decompress_packet z (record { is_compressed = true; data' = some (set_param d ys) })
        ≡ plain (some d)
  unfolding decompress_packet expand
  expand_lem d ys back =
      rw (decompress_packet, expand, message-set_param d ys, back, set_param_twice d ys) refl

  unpack :
      (o : Option Data) → IsLossless z → decompress_packet z (compress_packet z (plain o)) ≡ plain o
  unfolding decompress_packet compress_packet
  unpack none lossless = refl
  unpack (some d) lossless = elim (Option-cases (compress_if_needed z (message d).param)) [
    | inl e ↦ ap (decompress_packet z) (shrink_fails z (plain (some d)) d e)
    | inr (none, e) ↦ ap (decompress_packet z) (shrink_keeps z (plain (some d)) d e)
    | inr (some ys, e) ↦
        let (shorter, back) = decompress-compress_if_needed z (message d).param ys lossless e in
        ap (decompress_packet z) (shrink_pays z (plain (some d)) d ys e) ∙ expand_lem d ys back
  ]

  -- Let the generated code decode what it encoded and zlib be lossless. A packet whose parameter is
  -- not marked as compressed is decoded as it was encoded, compressed on the way or not.
  pub decode_packet-encode_packet :
      (codec : Codec) (p : RpcPacket)
      → IsLossless z
      → ((q : RpcPacket) → codec.decode (codec.encode q) ≡ some q)
      → p.is_compressed ≡ false
      → decode_packet z codec (encode_packet z codec p) ≡ some p
  unfolding decode_packet encode_packet
  decode_packet-encode_packet codec p lossless faithful e =
      rw (decode_packet, encode_packet, faithful (compress_packet z p))
        (ap some (
          subst (λ q. decompress_packet z (compress_packet z q) ≡ q) (sym same)
            (unpack p.data' lossless)))
    where
      same : p ≡ plain p.data'
      same = ap (λ (b : Bool). record p { is_compressed = b }) e
