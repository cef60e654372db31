-- ===== src/Hub/State/Sessions.antt =====
-- The map from sessions to clients: distinct keys, and the clients of one URL in it.
use verse_entrance_server.Base.{
  ◌+◌, ◌≡◌, refl, inl, inr, false, none, some, List, [], ◌∷◌, ◌++◌, append-nil, arith,
  if◌then◌else◌, Bool-cases, length, retain, All, retain-append, Bytes, bytes_eq, bytes_eq_refl,
  bytes_eq_sound, bytes_eq_iff, lookup, remove, values, lookup-remove, remove_missing,
  values-append,
}
use verse_entrance_server.Hub.Client.{Client}
use verse_entrance_server.Hub.UrlData.{is_other}

module _ {ℓ} {V : Type ℓ} where
  abbrev pub IsDistinct : List (Bytes × V) → Type ℓ
  IsDistinct [] = Unit
  IsDistinct ((k, v) ∷ m) = (lookup k m ≡ none) × IsDistinct m

module _ {ℓ} {V : Type ℓ} where
  lookup-remove_other :
      (k j : Bytes) (m : List (Bytes × V)) → lookup j m ≡ none → lookup j (remove k m) ≡ none
  lookup-remove_other k j m e = ground (arith, lookup-remove k j m)

  pub remove-IsDistinct :
      (k : Bytes) (m : List (Bytes × V)) → IsDistinct m → IsDistinct (remove k m)
  unfolding remove
  remove-IsDistinct k [] d = tt
  remove-IsDistinct k ((j, w) ∷ m) d = elim (Bool-cases (bytes_eq j k)) [
    | inl same ↦ rw same (remove-IsDistinct k m d.1)
    | inr other ↦ rw other (lookup-remove_other k j m d.0, remove-IsDistinct k m d.1)
  ]

  lookup-append_one :
      (j k : Bytes) (v : V) (m : List (Bytes × V))
      → lookup j m ≡ none
      → bytes_eq k j ≡ false
      → lookup j (m ++ (k, v) ∷ []) ≡ none
  unfolding lookup
  lookup-append_one j k v [] e h = rw h
  lookup-append_one j k v ((i, w) ∷ m) e h = ground (arith, lookup-append_one j k v m)

  pub append-IsDistinct :
      (k : Bytes) (v : V) (m : List (Bytes × V))
      → lookup k m ≡ none
      → IsDistinct m
      → IsDistinct (m ++ (k, v) ∷ [])
  unfolding lookup
  append-IsDistinct k v [] e d = (refl, tt)
  append-IsDistinct k v ((j, w) ∷ m) e d = elim (Bool-cases (bytes_eq j k)) [
    | inl same ↦ absurd (found (rw same at e))
    | inr other ↦ (
      lookup-append_one j k v m d.0 (ground (arith, bytes_eq_iff j k, bytes_eq_iff k j)),
      append-IsDistinct k v m (rw other at e) d.1,
    )
  ]
    where
      found : some w ≡ none → ⊥
      found h = cc

  pub length-remove :
      (k : Bytes) (m : List (Bytes × V)) {v : V}
      → IsDistinct m
      → lookup k m ≡ some v
      → length (remove k m) + 1 ≡ length m
  unfolding lookup remove
  length-remove k [] d e = cc
  length-remove k ((j, w) ∷ m) {v} d e = elim (Bool-cases (bytes_eq j k)) [
    | inl same ↦
        let gone : remove k m ≡ m = remove_missing k m (rw (bytes_eq_sound j k same) at d.0) in
        rw (same, gone) (omega arith)
    | inr other ↦ rw other (omega (arith, length-remove k m {v = v} d.1 (rw other at e)))
  ]

-- Each client stands under its own session id.
abbrev pub IsNamed : List (Bytes × Client) → Type 0
IsNamed m = All (λ (p : Bytes × Client). p.1.session_id ≡ p.0) m

pub remove-IsNamed : (k : Bytes) (m : List (Bytes × Client)) → IsNamed m → IsNamed (remove k m)
unfolding remove
remove-IsNamed k [] h = tt
remove-IsNamed k ((j, w) ∷ m) h = elim (Bool-cases (bytes_eq j k)) [
  | inl same ↦ rw same (remove-IsNamed k m h.1)
  | inr other ↦ rw other (h.0, remove-IsNamed k m h.1)
]

pub append-IsNamed :
    (c : Client) (m : List (Bytes × Client)) → IsNamed m → IsNamed (m ++ (c.session_id, c) ∷ [])
append-IsNamed c [] h = (refl, tt)
append-IsNamed c ((j, w) ∷ m) h = (h.0, append-IsNamed c m h.1)

-- The clients of a URL, in the order of the map.
abbrev pub at_url : Bytes → List (Bytes × Client) → List Client
at_url url m = retain (λ c. bytes_eq c.url url) (values m)

pub at_url-append :
    (url : Bytes) (c : Client) (m : List (Bytes × Client))
    → at_url url (m ++ (c.session_id, c) ∷ [])
      ≡ (if bytes_eq c.url url then at_url url m ++ c ∷ [] else at_url url m)
at_url-append url c m =
    rw
      (
        values-append m ((c.session_id, c) ∷ []),
        retain-append (λ (d : Client). bytes_eq d.url url) (values m) (c ∷ []),
      )
      (elim (Bool-cases (bytes_eq c.url url)) [ inl e ↦ rw e | inr e ↦ rw (e, append-nil) ])

-- Without a session its URL loses that client, and no other URL loses any.
pub at_url-remove :
    (url sid : Bytes) (m : List (Bytes × Client))
    → IsNamed m
    → at_url url (remove sid m) ≡ retain (is_other sid) (at_url url m)
unfolding remove
at_url-remove url sid [] h = refl
at_url-remove url sid ((j, w) ∷ m) h = rw (← h.0) (ground (arith, at_url-remove url sid m h.1))

pub at_url-remove_elsewhere :
    (url sid : Bytes) (m : List (Bytes × Client)) (cd : Client)
    → IsDistinct m
    → lookup sid m ≡ some cd
    → bytes_eq cd.url url ≡ false
    → at_url url (remove sid m) ≡ at_url url m
unfolding lookup remove
at_url-remove_elsewhere url sid [] cd d e h = cc
at_url-remove_elsewhere url sid ((j, w) ∷ m) cd d e h = elim (Bool-cases (bytes_eq j sid)) [
  | inl same ↦
      let gone : remove sid m ≡ m = remove_missing sid m (rw (bytes_eq_sound j sid same) at d.0) in
      rw (same, gone) (ground arith)
  | inr other ↦ ground (arith, at_url-remove_elsewhere url sid m cd d.1)
]

pub length-at_url-remove :
    (sid : Bytes) (m : List (Bytes × Client)) (cd : Client)
    → IsDistinct m
    → lookup sid m ≡ some cd
    → length (at_url cd.url (remove sid m)) + 1 ≡ length (at_url cd.url m)
unfolding lookup remove
length-at_url-remove sid [] cd d e = cc
length-at_url-remove sid ((j, w) ∷ m) cd d e = elim (Bool-cases (bytes_eq j sid)) [
  | inl same ↦
      let gone : remove sid m ≡ m = remove_missing sid m (rw (bytes_eq_sound j sid same) at d.0) in
      rw (same, gone) (ground (arith, bytes_eq_refl cd.url))
  | inr other ↦ ground (arith, length-at_url-remove sid m cd d.1)
]
