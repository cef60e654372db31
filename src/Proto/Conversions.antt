-- ===== src/Proto/Conversions.antt =====
-- The `signaling` module of proto/src/lib.rs, and the conversion of signature sets.
use verse_entrance_server.Base.{
  ℕ, ◌≡◌, sym, ap, ◌↔◌, inl, inr, Option, none, some, ◌==◌, if◌then◌else◌, ==_iff, Bool-cases,
  unwrap_or, length, Bytes,
}

-- `transfer_payload::Data`
pub data TransferData : Type 0 where
  request_offer : Bytes → TransferData
  offer : Bytes → Bytes → TransferData
  encrypted_payload : Bytes → TransferData

pub record TransferPayload : Type 0 where
  pub data' : Option TransferData

unfoldable pub set_encrypted_payload : TransferPayload → Bytes → TransferPayload
set_encrypted_payload p v = record p { data' = some (encrypted_payload v) }

-- `swarm::SignatureSet`
pub record SignatureSet : Type 0 where
  pub from_session_id : Bytes
  pub signature : Bytes
  pub salt : Bytes

-- `verse_session_id::SignatureSet`, of a signature and a salt of fixed lengths.
pub record SizedSignatureSet : Type 0 where
  pub signature : Bytes
  pub salt : Bytes

module _ (signature_len salt_len : ℕ) where
  unfoldable pub try_from : SignatureSet → Option SizedSignatureSet
  try_from value =
      if length value.signature == signature_len
      then if length value.salt == salt_len
        then some (record { signature = value.signature; salt = value.salt })
        else none
      else none

  sized_inj :
      {a b : SizedSignatureSet} → ◌≡◌ {A = Option SizedSignatureSet} (some a) (some b) → b ≡ a
  sized_inj {a} e = sym (ap (λ (o : Option SizedSignatureSet). unwrap_or o a) e)

  nothing : {a : SizedSignatureSet} → ◌≡◌ {A = Option SizedSignatureSet} none (some a) → ⊥
  nothing e = cc

  -- A signature set is converted exactly if its signature and its salt have the lengths of the arrays,
  -- and keeps both.
  try_from_iff :
      (value : SignatureSet) (r : SizedSignatureSet)
      → (try_from value ≡ some r) ↔ (
          (length value.signature ≡ signature_len)
          × (length value.salt ≡ salt_len)
          × (r ≡ record { signature = value.signature; salt = value.salt }))
  unfolding try_from
  try_from_iff value r = (
    (λ e. elim (Bool-cases (length value.signature == signature_len)) [
      | inr short ↦ absurd (nothing (rw short at e))
      | inl sig ↦ elim (Bool-cases (length value.salt == salt_len)) [
        | inr short ↦ absurd (nothing (rw (sig, short) at e))
        | inl salt ↦ ((==_iff _ _).0 sig, (==_iff _ _).0 salt, sized_inj (rw (sig, salt) at e))
      ]
    ]),
    (λ (sig, salt, e).
        rw ((==_iff _ _).1 sig, (==_iff _ _).1 salt)
          (ap (λ (x : SizedSignatureSet). some x) (sym e))),
  )
