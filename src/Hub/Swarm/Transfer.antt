-- ===== src/Hub/Swarm/Transfer.antt =====
-- Passing a message on to another client.
use verse_entrance_server.Base.{
  ℕ, ◌-◌, ◌≤◌, ◌≡◌, refl, ap, ◌∙◌, ◌⊎◌, inl, inr, Bool, true, false, ◌&&◌, Option, some, List, [],
  ◌∷◌, arith, ltb, Bool-cases, Option-cases, Bytes,
}
use verse_entrance_server.Proto.Rpc.{
  RpcPacket, Data, request, response, decode_packet, decode_packet-encode_packet,
}
use verse_entrance_server.Common.Compress.{IsLossless}
use verse_entrance_server.Hub.Client.{Client, get_dc}
use verse_entrance_server.Hub.State.{State, get_connection}
use verse_entrance_server.Hub.Swarm.{
  World, Reply, reply, fail, panic, SignatureSet, TransferRequest, TransferResponse, Sent,
  rpc_id_swarm, rpc_id_transfer, send_to, send_rpc_response, transfer_signed, transfer_to, transfer,
}

-- The generated code decodes what it encoded, and zlib is lossless.
pub record IsFaithful (w : World) : Type 0 where
  pub lossless : IsLossless w.zlib
  pub rpc : (p : RpcPacket) → w.rpc.decode (w.rpc.encode p) ≡ some p
  pub swarm : (d : Option Data) → w.decode_swarm (w.encode_swarm d) ≡ some d
  pub transfer' : (r : TransferRequest) → w.decode_transfer (w.encode_transfer r) ≡ some r

-- Bytes from which the receiver decodes the given request, in its three wrappings.
abbrev pub Delivers : World → Bytes → TransferRequest → Type 0
Delivers w bytes req =
    (packet : Bytes) × (param : Bytes) × (decode_packet w.zlib w.rpc bytes
      ≡ some (record {
        is_compressed = false;
        data' = some (response (record { rpc_id = rpc_id_swarm; param = packet }));
      }))
    × (w.decode_swarm packet
        ≡ some (some (request (record { rpc_id = rpc_id_transfer; param = param }))))
    × (w.decode_transfer param ≡ some req)

-- What a signed request needs to be passed on, apart from a receiver.
abbrev pub IsSigned : World → TransferRequest → Type 0
IsSigned w req =
    (w.is_session_id req.to_session_id ≡ true)
    × ((sign : SignatureSet) × (req.signature ≡ some sign)
        × (w.is_session_id sign.from_session_id ≡ true)
        × (w.is_signed sign (req.to_session_id ∷ req.payload ∷ []) ≡ true))

signed_lem :
    (w : World) (s : State) (req : TransferRequest) (sign : SignatureSet)
    → w.is_session_id req.to_session_id ≡ true
    → req.signature ≡ some sign
    → transfer_to w s req ≡ transfer_signed w s req sign
unfolding transfer_to
signed_lem w s req sign e f = simp (transfer_to, e, f) refl

-- A correctly signed request with hops left, for a connected client whose channel takes data, is passed
-- on to that client alone with one hop less, unchanged otherwise, and the sender is told so.
pub transfer-Delivers :
    (w : World) (s : State) (req : TransferRequest) (to : Client) (dc : ℕ)
    → IsFaithful w
    → IsSigned w req
    → 1 ≤ req.ttl
    → get_connection s req.to_session_id ≡ some to
    → get_dc s.cells to ≡ some dc
    → w.is_open dc ≡ true
    → (bytes : Bytes) × (transfer w s req
        ≡ reply (
          record { result = true; dest_session_id = req.to_session_id },
          record { dc = dc; bytes = bytes } ∷ [],
        ))
      × Delivers w bytes (record req { ttl = req.ttl - 1 })
unfolding transfer transfer_signed send_rpc_response send_to
transfer-Delivers w s req to dc faithful (valid, (sign, has_sign, valid', signed)) hops e f g = (
  _,
  rw
      (
        transfer,
        signed_lem w s req sign valid has_sign,
        transfer_signed,
        valid',
        signed,
        one_hop req.ttl hops,
        send_rpc_response,
        e,
        send_to,
        f,
        g,
      )
      refl,
  (
    _,
    _,
    decode_packet-encode_packet w.zlib w.rpc _ faithful.lossless faithful.rpc refl,
    faithful.swarm _,
    faithful.transfer' _,
  ),
)
  where
    one_hop : (n : ℕ) → 1 ≤ n → ltb n 1 ≡ false
    one_hop n h = ground arith

Reply-cases : {A : Type 0} (r : Reply A) → ((a : A) × (r ≡ reply a)) ⊎ ((r ≡ fail) ⊎ (r ≡ panic))
Reply-cases (reply a) = inl (a, refl)
Reply-cases fail = inr (inl refl)
Reply-cases panic = inr (inr refl)

-- Whether a reply says that the request was passed on.
abbrev answered : Reply (TransferResponse × List Sent) → Bool
answered (reply (res, sent)) = res.result
answered fail = false
answered panic = false

send_to-true :
    (w : World) (s : State) (cd : Client) (rpc_id : ℕ) (param : Bytes) (sent : List Sent)
    → send_to w s cd rpc_id param ≡ reply (true, sent)
    → (dc : ℕ) × (get_dc s.cells cd ≡ some dc)
unfolding send_to
send_to-true w s cd rpc_id param sent h = elim (Option-cases (get_dc s.cells cd)) [
  | inl e ↦ absurd (ground arith)
  | inr found ↦ found
]

send_rpc_response-true :
    (w : World) (s : State) (sid : Bytes) (rpc_id : ℕ) (param : Bytes) (sent : List Sent)
    → send_rpc_response w s sid rpc_id param ≡ reply (true, sent)
    → (to : Client) × (dc : ℕ) × (get_connection s sid ≡ some to) × (get_dc s.cells to ≡ some dc)
unfolding send_rpc_response
send_rpc_response-true w s sid rpc_id param sent h = elim (Option-cases (get_connection s sid)) [
  | inl e ↦ absurd (ground arith)
  | inr (to, e) ↦
      let (dc, f) = send_to-true w s to rpc_id param sent (rw (send_rpc_response, e) at h) in
      (to, dc, e, f)
]

-- What `transfer_signed` has checked when it says that a request was passed on.
transfer_signed-true :
    (w : World) (s : State) (req : TransferRequest) (sign : SignatureSet) (sent : List Sent)
    → transfer_signed w s req sign ≡ reply (true, sent)
    → (w.is_session_id sign.from_session_id ≡ true)
      × (w.is_signed sign (req.to_session_id ∷ req.payload ∷ []) ≡ true)
      × (1 ≤ req.ttl)
      × ((to : Client) × (dc : ℕ) × (get_connection s req.to_session_id ≡ some to)
          × (get_dc s.cells to ≡ some dc))
unfolding transfer_signed
transfer_signed-true w s req sign sent h =
    elim (Bool-cases (
      w.is_session_id sign.from_session_id
      && w.is_signed sign (req.to_session_id ∷ req.payload ∷ []))) [
        | inl e ↦ elim (Bool-cases (ltb req.ttl 1)) [
          | inl f ↦ absurd (ground arith)
          | inr f ↦ (
            ground arith,
            ground arith,
            ground arith,
            send_rpc_response-true w s req.to_session_id _ _ sent (rw (transfer_signed, e, f) at h),
          )
        ]
        | inr e ↦ absurd (ground arith)
      ]

transfer_to-true :
    (w : World) (s : State) (req : TransferRequest) (sent : List Sent)
    → transfer_to w s req ≡ reply (true, sent)
    → IsSigned w req
      × (1 ≤ req.ttl)
      × ((to : Client) × (dc : ℕ) × (get_connection s req.to_session_id ≡ some to)
          × (get_dc s.cells to ≡ some dc))
unfolding transfer_to
transfer_to-true w s req sent h = elim (Bool-cases (w.is_session_id req.to_session_id)) [
  | inl e ↦ elim (Option-cases req.signature) [
    | inl f ↦ absurd (ground arith)
    | inr (sign, f) ↦
        let (valid, signed, hops, receiver) =
          transfer_signed-true w s req sign sent (rw (transfer_to, e, f) at h) in
        ((e, (sign, f, valid, signed)), hops, receiver)
  ]
  | inr e ↦ absurd (ground arith)
]

-- If the sender is told that a request was passed on, the request was correctly signed, had hops left
-- and was for a connected client with a data channel.
pub transfer_sound :
    (w : World) (s : State) (req : TransferRequest) (res : TransferResponse) (sent : List Sent)
    → transfer w s req ≡ reply (res, sent)
    → res.result ≡ true
    → IsSigned w req
      × (1 ≤ req.ttl)
      × ((to : Client) × (dc : ℕ) × (get_connection s req.to_session_id ≡ some to)
          × (get_dc s.cells to ≡ some dc))
unfolding transfer
transfer_sound w s req res sent h k = elim (Reply-cases (transfer_to w s req)) [
  | inl ((result, sent'), e) ↦
      transfer_to-true w s req sent' (e ∙ ap (λ b. reply (b, sent')) (told result sent' e))
  | inr (inl failed) ↦ absurd (ground arith)
  | inr (inr failed) ↦ absurd (ground arith)
]
  where
    told :
        (result : Bool) (sent' : List Sent)
        → transfer_to w s req ≡ reply (result, sent')
        → result ≡ true
    told result sent' e = ap answered (rw (transfer, e) at h) ∙ k
