-- ===== src/Proto/Gateways/Hints.antt =====
-- What the hints of the nodes leave in the map: the largest hint for an id, minus one.
use verse_entrance_server.Base.{
  ℕ, ◌-◌, ◌≤◌, ◌<◌, max, ◌≡◌, refl, sym, ap, ◌∙◌, inl, inr, Bool, true, false, Option, none, some,
  List, [], ◌∷◌, ◌++◌, arith, if◌then◌else◌, Option-cases, unwrap_or, All, Bytes, bytes_eq,
  bytes_eq_refl, bytes_eq_iff, lookup, insert, lookup-insert,
}
use verse_entrance_server.Proto.Swarm.{SessionIdWithTtl, RoutingInfo, info, u32_mod}
use verse_entrance_server.Proto.Gateways.{Known, entry, dec_u32, note_hint, note_hints, note_nodes}

abbrev pub ttl_of : Option SessionIdWithTtl → Option ℕ
ttl_of none = none
ttl_of (some v) = some v.ttl

-- The largest hint for `sid`.
abbrev pub max_hint : Bytes → List SessionIdWithTtl → Option ℕ
max_hint sid [] = none
max_hint sid (o ∷ os) =
    if bytes_eq o.session_id sid
    then some (max o.ttl (unwrap_or (max_hint sid os) 0))
    else max_hint sid os

abbrev pub InRange : SessionIdWithTtl → Type 0
InRange o = (1 ≤ o.ttl) × (o.ttl < u32_mod)

-- An entry joined with the largest of some hints.
abbrev pub join : Option ℕ → Option ℕ → Option ℕ
join o none = o
join none (some m) = some (m - 1)
join (some v) (some m) = some (max v (m - 1))

note_hint-ttl :
    (sid : Bytes) (exists : Known) (o : SessionIdWithTtl)
    → InRange o
    → ttl_of (lookup sid (note_hint exists o)) ≡ (
        if bytes_eq o.session_id sid
        then join (ttl_of (lookup sid exists)) (some o.ttl)
        else ttl_of (lookup sid exists))
unfolding note_hint
note_hint-ttl sid exists o r = elim (Option-cases (lookup o.session_id exists)) [
  | inl e ↦
      rw (e, note_hint)
        (ground (
          arith,
          bytes_eq_iff o.session_id sid,
          lookup-insert o.session_id sid (entry o.session_id (dec_u32 o.ttl)) exists,
        ))
  | inr (v, e) ↦
      rw (e, note_hint)
        (ground (
          arith,
          bytes_eq_iff o.session_id sid,
          lookup-insert o.session_id sid (record v { ttl = dec_u32 o.ttl }) exists,
        ))
]

join_step :
    (b : Bool) (o r : Option ℕ) (t : ℕ)
    → 1 ≤ t
    → join (if b then join o (some t) else o) r
      ≡ join o (if b then some (max t (unwrap_or r 0)) else r)
join_step false o r t h = refl
join_step true none none t h = ap some (omega arith)
join_step true none (some m) t h = ap some (omega arith)
join_step true (some v) none t h = ap some (omega arith)
join_step true (some v) (some m) t h = ap some (omega arith)

note_hints-ttl :
    (sid : Bytes) (exists : Known) (os : List SessionIdWithTtl)
    → All InRange os
    → ttl_of (lookup sid (note_hints exists os))
      ≡ join (ttl_of (lookup sid exists)) (max_hint sid os)
unfolding note_hints
note_hints-ttl sid exists [] r = refl
note_hints-ttl sid exists (o ∷ os) r =
    note_hints-ttl sid (note_hint exists o) os r.1
    ∙ rw (note_hint-ttl sid exists o r.0) (
        join_step (bytes_eq o.session_id sid) (ttl_of (lookup sid exists)) (max_hint sid os) o.ttl
          r.0.0)

-- All hints of the nodes, in the order in which they are visited.
abbrev pub hints : List RoutingInfo → List SessionIdWithTtl
hints [] = []
hints (r ∷ rs) = (info r).known_gateway_session_ids ++ hints rs

note_hints-append :
    (exists : Known) (os ps : List SessionIdWithTtl)
    → note_hints exists (os ++ ps) ≡ note_hints (note_hints exists os) ps
unfolding note_hints
note_hints-append exists [] ps = refl
note_hints-append exists (o ∷ os) ps = note_hints-append (note_hint exists o) os ps

pub note_nodes-hints :
    (exists : Known) (rs : List RoutingInfo) → note_nodes exists rs ≡ note_hints exists (hints rs)
unfolding note_nodes
note_nodes-hints exists [] = refl
note_nodes-hints exists (r ∷ rs) =
    note_nodes-hints (note_hints exists (info r).known_gateway_session_ids) rs
    ∙ sym (note_hints-append exists (info r).known_gateway_session_ids (hints rs))

pub note_nodes-ttl :
    (sid : Bytes) (rs : List RoutingInfo)
    → All InRange (hints rs)
    → ttl_of (lookup sid (note_nodes [] rs)) ≡ join none (max_hint sid (hints rs))
unfolding lookup
note_nodes-ttl sid rs r = rw (note_nodes-hints [] rs) (note_hints-ttl sid [] (hints rs) r)

-- Once an entry holds the largest `u32`, no hint changes it.
note_hint-stuck :
    (sid : Bytes) (exists : Known) (o : SessionIdWithTtl)
    → o.ttl < u32_mod
    → ttl_of (lookup sid exists) ≡ some (u32_mod - 1)
    → ttl_of (lookup sid (note_hint exists o)) ≡ some (u32_mod - 1)
unfolding note_hint
note_hint-stuck sid exists o r h = elim (Option-cases (lookup o.session_id exists)) [
  | inl e ↦
      rw (e, note_hint)
        (ground (
          arith,
          bytes_eq_iff o.session_id sid,
          lookup-insert o.session_id sid (entry o.session_id (dec_u32 o.ttl)) exists,
        ))
  | inr (v, e) ↦
      rw (e, note_hint)
        (ground (
          arith,
          bytes_eq_iff o.session_id sid,
          lookup-insert o.session_id sid (record v { ttl = dec_u32 o.ttl }) exists,
        ))
]

note_hints-stuck :
    (sid : Bytes) (exists : Known) (os : List SessionIdWithTtl)
    → All (λ o. o.ttl < u32_mod) os
    → ttl_of (lookup sid exists) ≡ some (u32_mod - 1)
    → ttl_of (lookup sid (note_hints exists os)) ≡ some (u32_mod - 1)
unfolding note_hints
note_hints-stuck sid exists [] r h = h
note_hints-stuck sid exists (o ∷ os) r h =
    note_hints-stuck sid (note_hint exists o) os r.1 (note_hint-stuck sid exists o r.0 h)

-- A first hint of 0 wraps around to the largest `u32`, and stays there.
pub note_nodes_zero :
    (sid : Bytes) (os : List SessionIdWithTtl) (rs : List RoutingInfo)
    → hints rs ≡ entry sid 0 ∷ os
    → All (λ o. o.ttl < u32_mod) os
    → ttl_of (lookup sid (note_nodes [] rs)) ≡ some (u32_mod - 1)
unfolding note_hints note_hint lookup insert
note_nodes_zero sid os rs e r =
    rw (note_nodes-hints [] rs, e)
      (note_hints-stuck sid ((sid, entry sid (u32_mod - 1)) ∷ []) os r
        (ground (arith, bytes_eq_refl sid)))
