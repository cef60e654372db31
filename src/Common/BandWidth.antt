-- ===== src/Common/BandWidth.antt =====
-- common/src/band_width.rs. Times are `u64` milliseconds; `none` is the panic of a division by zero.
-- A release build: sums and differences wrap around.
use verse_entrance_server.Base.{
  ℕ, ◌+◌, ◌-◌, ◌*◌, ◌/◌, ◌%◌, ◌^◌, ◌≤◌, ◌<◌, ◌≡◌, refl, ◌⊎◌, inl, inr, Option, none, some, arith,
  ltb, ◌==◌, if◌then◌else◌, Bool-cases,
}

abbrev pub default_min_span_ms : ℕ
default_min_span_ms = 1000

abbrev u64_mod : ℕ
u64_mod = 2 ^ 64

pub record BandWidth : Type 0 where
  pub created : ℕ
  pub begin : ℕ
  pub bytes_total : ℕ
  pub bytes_per_second : ℕ
  pub min_span_ms : ℕ

unfoldable pub new_with_min_span_ms : ℕ → BandWidth
new_with_min_span_ms span = record {
  created = 0;
  begin = 0;
  bytes_total = 0;
  bytes_per_second = 0;
  min_span_ms = span;
}

-- `BandWidth::new`
unfoldable pub new_band_width : BandWidth
unfolding new_with_min_span_ms
new_band_width = new_with_min_span_ms default_min_span_ms

unfoldable pub get_current_bits_per_seconds : BandWidth → ℕ
get_current_bits_per_seconds b = b.bytes_per_second * 8 % u64_mod

-- `a - b` on a `u64`
abbrev pub sub_u64 : ℕ → ℕ → ℕ
sub_u64 a b = (a + u64_mod - b) % u64_mod

-- The rest of `add_bytes`, once `begin` and `bytes_total` are set.
unfoldable pub close_span : BandWidth → ℕ → ℕ → Option BandWidth
close_span b now ms =
    if ltb ms b.min_span_ms
    then some b
    else if ms / 1000 == 0
    then none
    else some (record b {
      bytes_per_second = b.bytes_total / (ms / 1000);
      created = now;
      begin = 0;
      bytes_total = 0;
    })

unfoldable pub add_bytes : BandWidth → ℕ → ℕ → Option BandWidth
unfolding close_span
add_bytes b byte_len now =
    let begin : ℕ = if b.begin == 0 then now else b.begin in
    close_span (record b { begin = begin; bytes_total = (b.bytes_total + byte_len) % u64_mod }) now
      (sub_u64 now begin)

close_span_total :
    (b : BandWidth) (now ms : ℕ)
    → default_min_span_ms ≤ b.min_span_ms
    → (b' : BandWidth) × (close_span b now ms ≡ some b')
      × (b'.min_span_ms ≡ b.min_span_ms)
      × ((b'.begin ≡ 0) ⊎ ((b'.begin ≡ b.begin) × (ms < b.min_span_ms)))
unfolding close_span
close_span_total b now ms h = elim (Bool-cases (ltb ms b.min_span_ms)) [
  | inl e ↦ rw e (b, refl, refl, inr (refl, ground arith))
  | inr e ↦ elim (Bool-cases (ms / 1000 == 0)) [
    | inl f ↦ absurd (ground arith)
    | inr f ↦ rw (e, f) (_, refl, refl, inl refl)
  ]
]

begin_now_le : (begin now : ℕ) → begin ≤ now → (if begin == 0 then now else begin) ≤ now
begin_now_le begin now h = ground arith

sub_u64_lem : (now begin : ℕ) → begin ≤ now → now < u64_mod → sub_u64 now begin ≡ now - begin
sub_u64_lem now begin h l = omega arith

open_span :
    {begin begin' now span : ℕ}
    → begin ≤ now
    → begin' ≡ begin
    → now - begin < span
    → now < begin' + span
open_span le e h = omega arith

-- With the default span, or any of a second or more, adding bytes never panics, keeps the span, and
-- on a clock that does not go back keeps less than the span open.
add_bytes_total :
    (b : BandWidth) (byte_len now : ℕ)
    → default_min_span_ms ≤ b.min_span_ms
    → b.begin ≤ now
    → now < u64_mod
    → (b' : BandWidth) × (add_bytes b byte_len now ≡ some b')
      × (b'.min_span_ms ≡ b.min_span_ms)
      × ((b'.begin ≡ 0) ⊎ (now < b'.begin + b.min_span_ms))
unfolding add_bytes
add_bytes_total b byte_len now h k l =
    let begin : ℕ = if b.begin == 0 then now else b.begin in
    let le : begin ≤ now = begin_now_le b.begin now k in
    let (b', e, f, g) =
      close_span_total
        (record b { begin = begin; bytes_total = (b.bytes_total + byte_len) % u64_mod }) now
        (sub_u64 now begin) h in
    (
      b',
      e,
      f,
      elim g [
        | inl g' ↦ inl g'
        | inr (g1, g2) ↦ inr (open_span le g1 (rw (sub_u64_lem now begin le l) at g2))
      ],
    )

-- With a shorter span, a call within a second of the first one, but not within the span, panics.
pub add_bytes_panics :
    (b : BandWidth) (byte_len now : ℕ)
    → 0 < b.begin
    → b.begin + b.min_span_ms ≤ now
    → now < b.begin + 1000
    → now < u64_mod
    → add_bytes b byte_len now ≡ none
unfolding add_bytes
add_bytes_panics b byte_len now p h k l = ground arith
