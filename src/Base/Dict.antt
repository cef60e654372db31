-- ===== src/Base/Dict.antt =====
-- Maps keyed by byte strings (`DashMap`, `HashMap`) as association lists. A new key goes to the end;
-- the order stands for the arbitrary one of the hash table.
use mathlib.Core.Path.{◌≡◌, refl}
use mathlib.Core.List.{List, [], ◌∷◌, ◌++◌}
use mathlib.Core.Option.{Option, none, some}
use native.Mathlib.Omega.{arith}
use verse_entrance_server.Base.Tests.{if◌then◌else◌}
use verse_entrance_server.Base.Text.{Bytes, bytes_eq, bytes_eq_iff}

module _ {ℓ} {V : Type ℓ} where
  unfoldable pub lookup : Bytes → List (Bytes × V) → Option V
  lookup k [] = none
  lookup k ((j, v) ∷ m) = if bytes_eq j k then some v else lookup k m

  unfoldable pub insert : Bytes → V → List (Bytes × V) → List (Bytes × V)
  insert k v [] = (k, v) ∷ []
  insert k v ((j, w) ∷ m) = if bytes_eq j k then (k, v) ∷ m else (j, w) ∷ insert k v m

  unfoldable pub remove : Bytes → List (Bytes × V) → List (Bytes × V)
  remove k [] = []
  remove k ((j, w) ∷ m) = if bytes_eq j k then remove k m else (j, w) ∷ remove k m

  abbrev pub values : List (Bytes × V) → List V
  values [] = []
  values ((j, w) ∷ m) = w ∷ values m

module _ {ℓ} {V : Type ℓ} where
  pub lookup-insert :
      (k j : Bytes) (v : V) (m : List (Bytes × V))
      → lookup j (insert k v m) ≡ (if bytes_eq k j then some v else lookup j m)
  unfolding lookup insert
  lookup-insert k j v [] = refl
  lookup-insert k j v ((i, w) ∷ m) =
      ground (arith, bytes_eq_iff k j, bytes_eq_iff i k, bytes_eq_iff i j, lookup-insert k j v m)

  pub lookup-remove :
      (k j : Bytes) (m : List (Bytes × V))
      → lookup j (remove k m) ≡ (if bytes_eq k j then none else lookup j m)
  unfolding lookup remove
  lookup-remove k j [] = ground arith
  lookup-remove k j ((i, w) ∷ m) =
      ground (arith, bytes_eq_iff k j, bytes_eq_iff i k, bytes_eq_iff i j, lookup-remove k j m)

  -- A key that is missing is put at the end.
  pub insert_missing :
      (k : Bytes) (v : V) (m : List (Bytes × V))
      → lookup k m ≡ none
      → insert k v m ≡ m ++ (k, v) ∷ []
  unfolding lookup insert
  insert_missing k v [] h = refl
  insert_missing k v ((i, w) ∷ m) h = ground (arith, insert_missing k v m)

  pub remove_missing : (k : Bytes) (m : List (Bytes × V)) → lookup k m ≡ none → remove k m ≡ m
  unfolding lookup remove
  remove_missing k [] h = refl
  remove_missing k ((i, w) ∷ m) h = ground (arith, remove_missing k m)

  pub remove-append :
      (k : Bytes) (m n : List (Bytes × V)) → remove k (m ++ n) ≡ remove k m ++ remove k n
  unfolding remove
  remove-append k [] n = refl
  remove-append k ((i, w) ∷ m) n = ground (arith, remove-append k m n)

  pub values-append : (m n : List (Bytes × V)) → values (m ++ n) ≡ values m ++ values n
  values-append [] n = refl
  values-append ((i, w) ∷ m) n = rw (values-append m n)
