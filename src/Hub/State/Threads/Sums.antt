-- ===== src/Hub/State/Threads/Sums.antt =====
-- The connections whose `add_connection` is through.
use verse_entrance_server.Base.{
  ℕ, suc, ◌+◌, ◌≡◌, refl, ap, subst, inl, inr, Bool, true, false, Option, none, some, List, [], ◌∷◌,
  arith, Bool-cases, unwrap_or, Bytes, bytes_eq, bytes_eq_sound, lookup, insert, remove,
  remove_missing, length, bytes_eq_refl, sym, ◌≢◌, ◌∙◌, none_some,
}
use verse_entrance_server.Hub.State.Sessions.{IsDistinct}

abbrev pub flag : Bool → ℕ
flag true = 1
flag false = 0

-- How many connections are through.
abbrev pub through : List (Bytes × Bool) → ℕ
through [] = 0
through ((k, b) ∷ m) = flag b + through m

some_same : (a b : Bool) → ◌≡◌ {A = Option Bool} (some a) (some b) → a ≡ b
some_same a b e = ap (λ (o : Option Bool). unwrap_or o a) e

pub through-insert_missing :
    (k : Bytes) (m : List (Bytes × Bool))
    → lookup k m ≡ none
    → through (insert k false m) ≡ through m
unfolding lookup insert
through-insert_missing k [] e = refl
through-insert_missing k ((j, b) ∷ m) e = ground (arith, through-insert_missing k m)

pub through-insert :
    (k : Bytes) (m : List (Bytes × Bool))
    → lookup k m ≡ some false
    → through (insert k true m) ≡ suc (through m)
unfolding lookup insert
through-insert k [] e = cc
through-insert k ((j, b) ∷ m) e = elim (Bool-cases (bytes_eq j k)) [
  | inl same ↦ let f : b ≡ false = some_same b false (rw same at e) in rw (same, f) (omega arith)
  | inr other ↦ rw other (ground (arith, through-insert k m (rw other at e)))
]

pub through-remove :
    (k : Bytes) (m : List (Bytes × Bool)) (b : Bool)
    → IsDistinct m
    → lookup k m ≡ some b
    → through (remove k m) + flag b ≡ through m
unfolding lookup remove
through-remove k [] b d e = cc
through-remove k ((j, c) ∷ m) b d e = elim (Bool-cases (bytes_eq j k)) [
  | inl same ↦
      let f : c ≡ b = some_same c b (rw same at e) in
      let gone : lookup k m ≡ none =
        subst (λ (x : Bytes). lookup x m ≡ none) (bytes_eq_sound j k same) d.0 in
      rw (same, f, remove_missing k m gone) (omega arith)
  | inr other ↦ rw other (omega (arith, through-remove k m b d.1 (rw other at e)))
]

-- Where every connection is through.
pub all_through :
    (m : List (Bytes × Bool))
    → IsDistinct m
    → ((sid : Bytes) → lookup sid m ≢ some false)
    → through m ≡ length m
unfolding lookup
all_through [] d h = refl
all_through ((k, false) ∷ m) d h = absurd (h k (rw (bytes_eq_refl k)))
all_through ((k, true) ∷ m) d h = omega (arith, all_through m d.1 (λ sid e. h sid (later sid e)))
  where
    later : (sid : Bytes) → lookup sid m ≡ some false → lookup sid ((k, true) ∷ m) ≡ some false
    later sid e = elim (Bool-cases (bytes_eq k sid)) [
      | inr other ↦ rw other e
      | inl same ↦
          absurd
            (none_some (sym d.0 ∙ ap (λ (x : Bytes). lookup x m) (bytes_eq_sound k sid same) ∙ e))
    ]
