-- ===== src/Hub/Types.antt =====
-- hubserv/src/types.rs: the requests of the HTTP API. A text is the list of its characters (code
-- points), as a Rust `str` is; the `url` crate, serde and the signature check are parameters.
pub mod Normalize
use verse_entrance_server.Base.{
  ℕ, ◌+◌, ◌-◌, ◌≤◌, ◌<◌, ◌≡◌, refl, ◌≢◌, inl, inr, Bool, true, false, ◌&&◌, ◌||◌, not, Option, none,
  some, List, [], ◌∷◌, ◌++◌, arith, ltb, leb, ◌==◌, if◌then◌else◌, Bool-cases, All, Bytes, codes,
  contains,
}

-- The length of a character in UTF-8.
abbrev pub len_utf8 : ℕ → ℕ
len_utf8 c = if ltb c 128 then 1 else if ltb c 2048 then 2 else if ltb c 65536 then 3 else 4

-- `str::len`, in bytes.
unfoldable pub byte_len : List ℕ → ℕ
byte_len [] = 0
byte_len (c ∷ cs) = len_utf8 c + byte_len cs

-- `str::is_char_boundary`: whether `&s[..n]` does not panic.
unfoldable pub is_char_boundary : List ℕ → ℕ → Bool
is_char_boundary [] n = n == 0
is_char_boundary (c ∷ cs) n =
    let rest = is_char_boundary cs (n - len_utf8 c) in
    if n == 0 then true else if ltb n (len_utf8 c) then false else rest

abbrev pub max_url_len : ℕ
max_url_len = 4096

-- What the `url` crate found in a text.
pub record Url : Type 0 where
  pub scheme : List ℕ
  pub host_str : Option (List ℕ)
  pub path : List ℕ

-- `EnterRequestPayload` and `CandidateRequestPayload`: `body` is the SDP or the candidate.
pub record RequestPayload : Type 0 where
  pub url : List ℕ
  pub body : List ℕ
  pub raw_url : List ℕ

-- `char::is_whitespace`
abbrev is_whitespace : ℕ → Bool
is_whitespace c =
    (leb 9 c && leb c 13)
    || (c == 32)
    || (c == 133)
    || (c == 160)
    || (c == 5760)
    || (leb 8192 c && leb c 8202)
    || (c == 8232)
    || (c == 8233)
    || (c == 8239)
    || (c == 8287)
    || (c == 12288)

abbrev reverse_onto : List ℕ → List ℕ → List ℕ
reverse_onto acc [] = acc
reverse_onto acc (c ∷ cs) = reverse_onto (c ∷ acc) cs

abbrev trim_start : List ℕ → List ℕ
trim_start [] = []
trim_start (c ∷ cs) = let rest = trim_start cs in if is_whitespace c then rest else c ∷ cs

-- `str::trim`
unfoldable pub trim : List ℕ → List ℕ
trim cs = reverse_onto [] (trim_start (reverse_onto [] (trim_start cs)))

-- `if res.ends_with('/') { res.pop(); }`
unfoldable pub pop_slash : List ℕ → List ℕ
pop_slash [] = []
pop_slash (c ∷ []) = if c == 47 then [] else c ∷ []
pop_slash (c ∷ d ∷ cs) = c ∷ pop_slash (d ∷ cs)

-- The test of a URL that is not accepted.
unfoldable pub is_incorrect : List ℕ → Bool
is_incorrect raw = ltb max_url_len (byte_len raw) || contains 13 raw || contains 10 raw

module _ (parse : List ℕ → Option Url) where
  unfoldable pub normalize_url : List ℕ → List ℕ
  unfolding trim pop_slash
  normalize_url u = elim (parse (trim u)) [
    | none ↦ []
    | some v ↦ elim v.host_str [
      | none ↦ []
      | some host ↦ pop_slash (v.scheme ++ codes "://" ++ host ++ v.path)
    ]
  ]

  -- `normalize`; `warns` says whether warnings are logged, since only then the message is made.
  -- `none` is the panic of a slice that ends within a character.
  unfoldable pub normalize : Bool → RequestPayload → Option RequestPayload
  unfolding normalize_url is_incorrect
  normalize warns p =
      if is_incorrect p.url
      then if warns && ltb 128 (byte_len p.url) && not (is_char_boundary p.url 128)
        then none
        else some (record p { raw_url = p.url; url = [] })
      else some (record p { raw_url = p.url; url = normalize_url p.url })

  -- `normalize` of a `CandidateRequestPayload`, which repeats that of an `EnterRequestPayload`.
  unfoldable pub normalize_candidate : Bool → RequestPayload → Option RequestPayload
  unfolding normalize_url is_incorrect
  normalize_candidate warns p =
      if is_incorrect p.url
      then if warns && ltb 128 (byte_len p.url) && not (is_char_boundary p.url 128)
        then none
        else some (record p { raw_url = p.url; url = [] })
      else some (record p { raw_url = p.url; url = normalize_url p.url })

-- What `verify` checks a request with: the session id that a text stands for, the signature of the
-- payload under a session id, and the JSON decoder.
pub record Verifier : Type 0 where
  pub parse_session_id : Bytes → Option Bytes
  pub is_signed : Bytes → Bytes → Bytes → Bool
  pub from_json : Bytes → Option RequestPayload

pub record SignedRequest : Type 0 where
  pub session_id : Bytes
  pub sign : Bytes
  pub payload : Bytes

-- `verify`, with the `normalize` of the payload's type. `none` is a panic, `some none` an error.
unfoldable pub verify :
    Verifier
    → (RequestPayload → Option RequestPayload)
    → SignedRequest
    → Option (Option (Bytes × RequestPayload))
verify v normalizes req = elim (v.parse_session_id req.session_id) [
  | none ↦ some none
  | some sid ↦
      if v.is_signed sid req.payload req.sign
      then (elim (v.from_json req.payload) [
        | none ↦ some none
        | some p ↦ elim (normalizes p) [ none ↦ none | some q ↦ some (some (sid, q)) ]
      ])
      else some none
]
