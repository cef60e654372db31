-- ===== src/Hub/Types/Normalize.antt =====
-- When the URL of a request is accepted, and when its check panics.
use verse_entrance_server.Base.{
  ℕ, ◌+◌, ◌-◌, ◌≤◌, ◌<◌, ◌≡◌, refl, ◌≢◌, inl, inr, Bool, true, false, ◌&&◌, not, Option, none, some,
  List, [], ◌∷◌, ◌++◌, arith, ltb, ◌==◌, Bool-cases, All, contains,
}
use verse_entrance_server.Hub.Types.{
  RequestPayload, Url, len_utf8, byte_len, is_char_boundary, max_url_len, is_incorrect,
  normalize_url, normalize,
}

is_incorrect-false :
    (raw : List ℕ)
    → is_incorrect raw ≡ false
    → (byte_len raw ≤ max_url_len) × (contains 13 raw ≡ false) × (contains 10 raw ≡ false)
unfolding is_incorrect
is_incorrect-false raw h = ground arith

module _ (parse : List ℕ → Option Url) where
  -- A request that keeps a URL has a text of at most 4096 bytes without a line break, which is what the
  -- access log gets, and the URL is the normal form of that text.
  pub normalize-accepted :
      (warns : Bool) (p q : RequestPayload)
      → normalize parse warns p ≡ some q
      → q.url ≢ []
      → (q.raw_url ≡ p.url)
        × (q.url ≡ normalize_url parse p.url)
        × (byte_len q.raw_url ≤ max_url_len)
        × (contains 13 q.raw_url ≡ false)
        × (contains 10 q.raw_url ≡ false)
  unfolding normalize
  normalize-accepted warns p q h k = elim (Bool-cases (is_incorrect p.url)) [
    | inl e ↦
        elim (Bool-cases (warns && ltb 128 (byte_len p.url) && not (is_char_boundary p.url 128))) [
          | inl f ↦ absurd (ground arith)
          | inr f ↦
              let same : record p { raw_url = p.url; url = [] } ≡ q = ground arith in
              let none' : q.url ≡ [] = rw⁻¹ same refl in absurd (k none')
        ]
    | inr e ↦
        let (short, cr, lf) = is_incorrect-false p.url e in
        let same : record p { raw_url = p.url; url = normalize_url parse p.url } ≡ q =
          ground arith in
        rw⁻¹ same (refl, refl, short, cr, lf)
  ]

sub_le : (n l m : ℕ) → n ≤ l + m → n - l ≤ m
sub_le n l m h = omega arith

-- ASCII text can be cut anywhere.
is_char_boundary_ascii :
    (cs : List ℕ) (n : ℕ) → All (λ c. c < 128) cs → n ≤ byte_len cs → is_char_boundary cs n ≡ true
unfolding is_char_boundary byte_len
is_char_boundary_ascii [] n ascii h = ground arith
is_char_boundary_ascii (c ∷ cs) n (a, ascii) h =
    let later : is_char_boundary cs (n - len_utf8 c) ≡ true =
      is_char_boundary_ascii cs (n - len_utf8 c) ascii (sub_le n (len_utf8 c) (byte_len cs) h) in
    let one : len_utf8 c ≡ 1 = ground arith in ground arith

is_char_boundary_within :
    (front : List ℕ) (c : ℕ) (back : List ℕ) (n : ℕ)
    → byte_len front < n
    → n < byte_len front + len_utf8 c
    → is_char_boundary (front ++ c ∷ back) n ≡ false
unfolding is_char_boundary byte_len
is_char_boundary_within [] c back n h k = ground arith
is_char_boundary_within (f ∷ front) c back n h k =
    let later : is_char_boundary (front ++ c ∷ back) (n - len_utf8 f) ≡ false =
      is_char_boundary_within front c back (n - len_utf8 f) (omega arith) (omega arith) in
    let past : ltb n (len_utf8 f) ≡ false = ground arith in
    let some' : (n == 0) ≡ false = ground arith in rw (some', past) later

byte_len-append : (xs ys : List ℕ) → byte_len (xs ++ ys) ≡ byte_len xs + byte_len ys
unfolding byte_len
byte_len-append [] ys = omega arith
byte_len-append (x ∷ xs) ys = omega (arith, byte_len-append xs ys)

module _ (parse : List ℕ → Option Url) where
  -- A request whose URL is ASCII is normalized without a panic, whatever is logged.
  normalize_ascii :
      (warns : Bool) (p : RequestPayload)
      → All (λ c. c < 128) p.url
      → (q : RequestPayload) × (normalize parse warns p ≡ some q)
  unfolding normalize
  normalize_ascii warns p ascii = elim (Bool-cases (is_incorrect p.url)) [
    | inl e ↦
        elim (Bool-cases (warns && ltb 128 (byte_len p.url) && not (is_char_boundary p.url 128))) [
          | inl f ↦
              let long : 128 ≤ byte_len p.url = ground arith in
              let cut : is_char_boundary p.url 128 ≡ true =
                is_char_boundary_ascii p.url 128 ascii long in
              absurd (ground arith)
          | inr f ↦ (record p { raw_url = p.url; url = [] }, rw (normalize, e, f) refl)
        ]
    | inr e ↦
        (record p { raw_url = p.url; url = normalize_url parse p.url }, rw (normalize, e) refl)
  ]

  -- When warnings are logged, a URL that is not accepted and has a character across its 128th byte
  -- makes the handler panic.
  pub normalize_panics :
      (front back : List ℕ) (c : ℕ) (p : RequestPayload)
      → p.url ≡ front ++ c ∷ back
      → byte_len front < 128
      → 128 < byte_len front + len_utf8 c
      → is_incorrect p.url ≡ true
      → normalize parse true p ≡ none
  unfolding normalize byte_len
  normalize_panics front back c p e h k bad =
      let cut : is_char_boundary p.url 128 ≡ false =
        rw e (is_char_boundary_within front c back 128 h k) in
      let long : ltb 128 (byte_len p.url) ≡ true =
        rw (e, byte_len-append front (c ∷ back)) ground arith in
      rw (bad, long, cut) refl
