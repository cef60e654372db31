-- ===== src/Hub/StatusServer.antt =====
-- hubserv/src/status_server.rs: what the server reports of itself.
use verse_entrance_server.Base.{
  ℕ, zero, suc, ◌+◌, ◌-◌, ◌/◌, ◌%◌, ◌^◌, ◌<◌, ◌≡◌, ap, ◌∙◌, Option, List, [], ◌∷◌, ◌++◌, arith, ltb,
  if◌then◌else◌, unwrap_or, length, Bytes, codes, insert, lookup, bytes_eq, some, refl,
}
use verse_entrance_server.Hub.UrlData.{limit}
use verse_entrance_server.Hub.State.{State, Config, new_state}
use verse_entrance_server.Hub.State.Invariant.{IsWordSized}
use verse_entrance_server.Hub.State.Runs.{Call, run, run-new_state-Inv, run-config}

-- An `i64`: a number, or one below 0 by its amount.
pub data I64 : Type 0 where
  nonneg : ℕ → I64
  negative : ℕ → I64

-- `as i64` of a `u64`
abbrev pub as_i64 : ℕ → I64
as_i64 n = if ltb n (2 ^ 63) then nonneg n else negative (2 ^ 64 - n)

unfoldable pub get_metrics : State → List (Bytes × I64)
get_metrics s = (codes "client_count", as_i64 s.client_count) ∷ []

-- Decimal digits; a number below 2^64 has 20 at most.
abbrev decimal : ℕ → ℕ → Bytes
decimal zero n = []
decimal (suc fuel) n =
    let rest = decimal fuel (n / 10) in
    if ltb n 10 then (b'0' + n) ∷ [] else rest ++ (b'0' + n % 10) ∷ []

abbrev pub print_i64 : I64 → Bytes
print_i64 (nonneg n) = decimal 20 n
print_i64 (negative n) = b'-' ∷ decimal 20 n

abbrev pub metric_line : Bytes → Bytes × I64 → Bytes
metric_line prefix (name, value) = prefix ++ (name ++ (codes " " ++ print_i64 value))

-- `join("\n")`
abbrev pub join_lines : List Bytes → Bytes
join_lines [] = []
join_lines (l ∷ []) = l
join_lines (l ∷ m ∷ ls) = l ++ (10 ∷ join_lines (m ∷ ls))

abbrev pub metric_lines : Bytes → List (Bytes × I64) → List Bytes
metric_lines prefix [] = []
metric_lines prefix (v ∷ vs) = metric_line prefix v ∷ metric_lines prefix vs

unfoldable pub prometheus : Bytes → Option Bytes → State → Bytes
unfolding get_metrics
prometheus version prometheus_prefix s = join_lines (
    metric_lines (unwrap_or prometheus_prefix [])
      ((codes "instance{version=\"" ++ version ++ codes "\"}", nonneg 1) ∷ get_metrics s))

-- A value of the status page.
pub data Value : Type 0 where
  text : Bytes → Value
  number : I64 → Value

abbrev pub insert_metrics : List (Bytes × I64) → List (Bytes × Value) → List (Bytes × Value)
insert_metrics [] res = res
insert_metrics ((name, value) ∷ vs) res = insert_metrics vs (insert name (number value) res)

unfoldable pub index : Bytes → State → List (Bytes × Value)
unfolding get_metrics insert
index version s = insert_metrics (get_metrics s) (insert (codes "version") (text version) [])

-- The status page has the version and the number of clients, each under its name, and nothing else.
index-values :
    (version : Bytes) (s : State)
    → (lookup (codes "version") (index version s) ≡ some (text version))
      × (lookup (codes "client_count") (index version s) ≡ some (number (as_i64 s.client_count)))
      × (length (index version s) ≡ 2)
unfolding index get_metrics insert lookup bytes_eq
index-values version s = (refl, refl, refl)

as_i64-small : (n : ℕ) → n < 2 ^ 63 → as_i64 n ≡ nonneg n
as_i64-small n h = ground arith

-- Let fewer than 2^63 connections be allowed. After any history of entries and departures, one call
-- after the other, the status page reports the number of the connections.
get_metrics-connections :
    (c : Config) (cs : List Call)
    → IsWordSized c
    → limit c.max_connections < 2 ^ 63
    → get_metrics (run (new_state c) cs)
      ≡ (codes "client_count", nonneg (length (run (new_state c) cs).connection_map)) ∷ []
unfolding get_metrics new_state
get_metrics-connections c cs w small =
    let s = run (new_state c) cs in
    let v = run-new_state-Inv c cs w in
    let same : limit s.max_connections ≡ limit c.max_connections =
      ap (λ (k : Config). limit k.max_connections) (run-config (new_state c) cs) in
    ap (λ (value : I64). (codes "client_count", value) ∷ [])
      (as_i64-small s.client_count (omega (arith, v.fits, same)) ∙ ap nonneg v.counted)
