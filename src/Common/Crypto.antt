-- ===== src/Common/Crypto.antt =====
-- `E2eKeySet` of common/src/crypto.rs. The cipher (AES-256-GCM) is a parameter; the random nonce of an
-- encryption is an argument.
use verse_entrance_server.Base.{
  ℕ, zero, suc, ◌≤◌, ◌<◌, ◌≡◌, refl, ap, subst, inl, inr, false, Option, none, some, [], ◌∷◌, ◌++◌,
  arith, ltb, if◌then◌else◌, Option-cases, length, take, length-append, Bytes,
}

abbrev pub nonce_size : ℕ
nonce_size = 12

-- `decrypt` fails on what was not made with the key and the nonce.
pub record Cipher : Type 0 where
  pub encrypt : Bytes → Bytes → Bytes → Option Bytes
  pub decrypt : Bytes → Bytes → Bytes → Option Bytes

-- The end of a decryption: `panic` is a slice out of range.
pub data Outcome : Type 0 where
  plain : Bytes → Outcome
  error : Outcome
  panic : Outcome

abbrev pub drop : ℕ → Bytes → Bytes
drop zero xs = xs
drop (suc n) [] = []
drop (suc n) (x ∷ xs) = drop n xs

module _ (cipher : Cipher) where
  unfoldable pub encrypt_data : Bytes → Bytes → Bytes → Option Bytes
  encrypt_data secret nonce data' = elim (cipher.encrypt secret nonce data') [
    | none ↦ none
    | some encrypted ↦ some (nonce ++ encrypted)
  ]

  unfoldable pub decrypt_data : Bytes → Bytes → Outcome
  decrypt_data secret data' =
      if ltb (length data') nonce_size
      then panic
      else (elim (cipher.decrypt secret (take nonce_size data') (drop nonce_size data')) [
        | none ↦ error
        | some text ↦ plain text
      ])

enough_le : {m n : ℕ} → m ≤ n → ltb n m ≡ false
enough_le h = ground arith

pub take-append : (xs ys : Bytes) → take (length xs) (xs ++ ys) ≡ xs
take-append [] ys = refl
take-append (x ∷ xs) ys = ap (◌∷◌ x) (take-append xs ys)

pub drop-append : (xs ys : Bytes) → drop (length xs) (xs ++ ys) ≡ ys
drop-append [] ys = refl
drop-append (x ∷ xs) ys = drop-append xs ys

module _ (cipher : Cipher) where
  -- Let the cipher decrypt what it encrypted. With a nonce of 12 bytes and one shared secret, what
  -- one side encrypts the other decrypts.
  pub decrypt_data-encrypt_data :
      (secret nonce text sent : Bytes)
      → ((k n t c : Bytes) → cipher.encrypt k n t ≡ some c → cipher.decrypt k n c ≡ some t)
      → length nonce ≡ nonce_size
      → encrypt_data cipher secret nonce text ≡ some sent
      → decrypt_data cipher secret sent ≡ plain text
  unfolding encrypt_data decrypt_data
  decrypt_data-encrypt_data secret nonce text sent correct l e =
      elim (Option-cases (cipher.encrypt secret nonce text)) [
        | inl f ↦ ground arith
        | inr (c, f) ↦
            let same : sent ≡ nonce ++ c = ground arith in
            let long : ltb (length sent) nonce_size ≡ false =
              enough_le (rw (same, length-append nonce c, l) omega arith) in
            let front : take nonce_size sent ≡ nonce =
              rw same (subst (λ n. take n (nonce ++ c) ≡ nonce) l (take-append nonce c)) in
            let back : drop nonce_size sent ≡ c =
              rw same (subst (λ n. drop n (nonce ++ c) ≡ c) l (drop-append nonce c)) in
            rw (long, front, back, correct secret nonce text c f) refl
      ]

  -- Data shorter than a nonce makes a decryption panic, whatever the key.
  pub decrypt_data_short :
      (secret data' : Bytes) → length data' < nonce_size → decrypt_data cipher secret data' ≡ panic
  unfolding decrypt_data
  decrypt_data_short secret data' h = ground arith
