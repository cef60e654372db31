-- ===== src/Common/Compress.antt =====
-- common/src/compress.rs. The zlib library is a parameter: `deflate` compresses a whole buffer and may
-- fail, `inflate` decompresses one.
use verse_entrance_server.Base.{
  ℕ, ◌<◌, ◌≡◌, inl, inr, Option, none, some, arith, ltb, leb, if◌then◌else◌, Bool-cases,
  Option-cases, length, Bytes,
}

abbrev pub min_length : ℕ
min_length = 100

pub record Zlib : Type 0 where
  pub deflate : Bytes → Option Bytes
  pub inflate : Bytes → Option Bytes

-- Decompression undoes compression.
abbrev pub IsLossless : Zlib → Type 0
IsLossless z = (xs ys : Bytes) → z.deflate xs ≡ some ys → z.inflate ys ≡ some xs

module _ (z : Zlib) where
  -- `none` for an error, `some none` where compression does not pay.
  unfoldable pub compress_if_needed : Bytes → Option (Option Bytes)
  compress_if_needed uncompressed =
      if ltb (length uncompressed) min_length then some none else (elim (z.deflate uncompressed) [
        | none ↦ none
        | some compressed ↦
            if leb (length uncompressed) (length compressed)
            then some none
            else some (some compressed)
      ])

  unfoldable pub decompress : Bytes → Option Bytes
  decompress compressed = z.inflate compressed

module _ (z : Zlib) where
  -- What is compressed is shorter than it was, and decompresses to what it was.
  pub decompress-compress_if_needed :
      (xs ys : Bytes)
      → IsLossless z
      → compress_if_needed z xs ≡ some (some ys)
      → (length ys < length xs) × (decompress z ys ≡ some xs)
  unfolding compress_if_needed decompress
  decompress-compress_if_needed xs ys lossless e = elim (Bool-cases (ltb (length xs) min_length)) [
    | inl f ↦ ground arith
    | inr f ↦ elim (Option-cases (z.deflate xs)) [
      | inl g ↦ ground arith
      | inr (w, g) ↦ elim (Bool-cases (leb (length xs) (length w))) [
        | inl i ↦ ground arith
        | inr i ↦ let same : w ≡ ys = ground arith in (ground arith, lossless xs ys (rw same at g))
      ]
    ]
  ]
