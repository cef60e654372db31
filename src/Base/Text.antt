-- ===== src/Base/Text.antt =====
-- Strings and byte vectors, both lists of bytes: comparison, `starts_with`, `ends_with`, `find`.
use Prim.Native.Nat.{ℕ}
use Prim.Native.Char.{code}
use Prim.Native.String.{String}
use mathlib.Core.Path.{◌≡◌, refl, ap, sym, ◌∙◌}
use mathlib.Core.Logic.{◌↔◌, ◌⊎◌, ◌≢◌, inl, inr}
use mathlib.Core.Option.{Option, none, some}
use mathlib.Core.Bool.{Bool, true, false, ◌&&◌}
use mathlib.Core.List.{List, [], ◌∷◌}
use native.Mathlib.Omega.{arith}
use verse_entrance_server.Base.Tests.{
  ◌==◌, if◌then◌else◌, Bool-cases, none_some, some_inj, true_false,
}

abbrev pub Bytes : Type 0
Bytes = List ℕ

-- The bytes of an ASCII literal.
abbrev pub codes : String → Bytes
codes String.[] = []
codes (String.◌∷◌ c s) = code c ∷ codes s

unfoldable pub bytes_eq : Bytes → Bytes → Bool
bytes_eq [] [] = true
bytes_eq [] (y ∷ ys) = false
bytes_eq (x ∷ xs) [] = false
bytes_eq (x ∷ xs) (y ∷ ys) = x == y && bytes_eq xs ys

pub bytes_eq_refl : (xs : Bytes) → bytes_eq xs xs ≡ true
unfolding bytes_eq
bytes_eq_refl [] = refl
bytes_eq_refl (x ∷ xs) = ground (arith, bytes_eq_refl xs)

pub bytes_eq_sound : (xs ys : Bytes) → bytes_eq xs ys ≡ true → xs ≡ ys
unfolding bytes_eq
bytes_eq_sound [] [] h = refl
bytes_eq_sound [] (y ∷ ys) h = cc
bytes_eq_sound (x ∷ xs) [] h = cc
bytes_eq_sound (x ∷ xs) (y ∷ ys) h = ground (arith, bytes_eq_sound xs ys)

pub bytes_eq_iff : (xs ys : Bytes) → (bytes_eq xs ys ≡ true) ↔ (xs ≡ ys)
bytes_eq_iff xs ys = (bytes_eq_sound xs ys, λ e. rw e (bytes_eq_refl ys))

-- `str::contains` of one ASCII character.
unfoldable pub contains : ℕ → Bytes → Bool
contains c [] = false
contains c (x ∷ xs) = if x == c then true else contains c xs

unfoldable pub starts_with : Bytes → Bytes → Bool
starts_with xs [] = true
starts_with [] (y ∷ ys) = false
starts_with (x ∷ xs) (y ∷ ys) = x == y && starts_with xs ys

-- `s.ends_with(t)`: some tail of `s` is `t`.
unfoldable pub ends_with : Bytes → Bytes → Bool
ends_with [] t = bytes_eq [] t
ends_with (x ∷ xs) t = if bytes_eq (x ∷ xs) t then true else ends_with xs t

-- Whether a name is that of the sequence.
pub some-cases : (o : Option Bytes) (k : Bytes) → (o ≡ some k) ⊎ (o ≢ some k)
some-cases none k = inr none_some
some-cases (some j) k = elim (Bool-cases (bytes_eq j k)) [
  | inl same ↦ inl (ap (λ (x : Bytes). some x) (bytes_eq_sound j k same))
  | inr other ↦ inr (λ e. true_false (sym (bytes_eq_refl j) ∙ ap (bytes_eq j) (some_inj e) ∙ other))
]

pub bytes_eq_other : (k j : Bytes) → ◌≢◌ {A = Option Bytes} (some k) (some j) → bytes_eq k j ≡ false
bytes_eq_other k j n = elim (Bool-cases (bytes_eq k j)) [
  | inr e ↦ e
  | inl e ↦ absurd (n (ap (λ (x : Bytes). some x) (bytes_eq_sound k j e)))
]
