-- ===== src/Hub/State/UrlThreads/Lists.antt =====
-- The clients of a `UrlData` that its counter has.
use verse_entrance_server.Base.{
  ◌+◌, ◌≤◌, ◌≡◌, refl, ap, subst, inl, inr, Bool, true, false, Option, none, some, List, [], ◌∷◌,
  ◌++◌, arith, if◌then◌else◌, Bool-cases, unwrap_or, Bytes, bytes_eq, bytes_eq_sound, bytes_eq_iff,
  lookup,
}
use verse_entrance_server.Hub.State.Sessions.{IsDistinct}
use verse_entrance_server.Hub.State.Threads.Sums.{through}
use verse_entrance_server.Hub.State.UrlThreads.{uncount}

some_same : (a b : Bool) → ◌≡◌ {A = Option Bool} (some a) (some b) → a ≡ b
some_same a b e = ap (λ (o : Option Bool). unwrap_or o a) e

pub through-append : (l l' : List (Bytes × Bool)) → through (l ++ l') ≡ through l + through l'
through-append [] l' = omega arith
through-append ((k, b) ∷ l) l' = omega (arith, through-append l l')

pub lookup-append :
    (j k : Bytes) (b : Bool) (l : List (Bytes × Bool))
    → lookup k l ≡ none
    → lookup j (l ++ (k, b) ∷ []) ≡ (if bytes_eq k j then some b else lookup j l)
unfolding lookup
lookup-append j k b [] e = refl
lookup-append j k b ((i, c) ∷ l) e =
    ground (arith, bytes_eq_iff k j, bytes_eq_iff i k, bytes_eq_iff i j, lookup-append j k b l)

pub lookup-uncount_other :
    (j k : Bytes) (l : List (Bytes × Bool))
    → bytes_eq k j ≡ false
    → lookup j (uncount k l) ≡ lookup j l
unfolding lookup
lookup-uncount_other j k [] e = refl
lookup-uncount_other j k ((i, c) ∷ l) e =
    ground (arith, bytes_eq_iff k j, bytes_eq_iff i k, bytes_eq_iff i j, lookup-uncount_other j k l)

pub lookup-uncount :
    (k : Bytes) (b : Bool) (l : List (Bytes × Bool))
    → lookup k l ≡ some b
    → lookup k (uncount k l) ≡ some false
unfolding lookup
lookup-uncount k b [] e = cc
lookup-uncount k b ((i, c) ∷ l) e = ground (arith, lookup-uncount k b l)

uncount_missing : (k : Bytes) (l : List (Bytes × Bool)) → lookup k l ≡ none → uncount k l ≡ l
unfolding lookup
uncount_missing k [] e = refl
uncount_missing k ((i, c) ∷ l) e = ground (arith, uncount_missing k l)

pub uncount_nothing :
    (j k : Bytes) (l : List (Bytes × Bool)) → lookup j l ≡ none → lookup j (uncount k l) ≡ none
unfolding lookup
uncount_nothing j k [] e = refl
uncount_nothing j k ((i, c) ∷ l) e = ground (arith, uncount_nothing j k l)

pub uncount-IsDistinct :
    (k : Bytes) (l : List (Bytes × Bool)) → IsDistinct l → IsDistinct (uncount k l)
uncount-IsDistinct k [] d = tt
uncount-IsDistinct k ((i, c) ∷ l) d = (uncount_nothing i k l d.0, uncount-IsDistinct k l d.1)

pub through-uncount :
    (k : Bytes) (l : List (Bytes × Bool))
    → IsDistinct l
    → lookup k l ≡ some true
    → through (uncount k l) + 1 ≡ through l
unfolding lookup
through-uncount k [] d e = cc
through-uncount k ((i, c) ∷ l) d e = elim (Bool-cases (bytes_eq i k)) [
  | inl same ↦
      let f : c ≡ true = some_same c true (rw same at e) in
      let gone : lookup k l ≡ none =
        subst (λ (x : Bytes). lookup x l ≡ none) (bytes_eq_sound i k same) d.0 in
      rw (same, f, uncount_missing k l gone) (omega arith)
  | inr other ↦ rw other (omega (arith, through-uncount k l d.1 (rw other at e)))
]

pub through_positive :
    (k : Bytes) (l : List (Bytes × Bool)) → lookup k l ≡ some true → 1 ≤ through l
unfolding lookup
through_positive k [] e = cc
through_positive k ((i, c) ∷ l) e = elim (Bool-cases (bytes_eq i k)) [
  | inl same ↦ rw (some_same c true (rw same at e)) (omega arith)
  | inr other ↦ omega (arith, through_positive k l (rw other at e))
]
