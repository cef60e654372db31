-- ===== src/Cluster/Cf.antt =====
-- cluster/src/cf.rs: the requests to the name server, which is a parameter, with what can fail.
pub mod Laws
use verse_entrance_server.Base.{
  ℕ, zero, suc, ◌+◌, ◌-◌, ◌*◌, ◌/◌, ◌%◌, ◌^◌, ◌≤◌, ◌<◌, max, min, ◌≡◌, refl, sym, ap, ap₂, subst,
  ◌∙◌, ◌≢◌, ◌↔◌, ◌⊎◌, inl, inr, Bool, true, false, ◌&&◌, ◌||◌, not, Option, none, some, List, [],
  ◌∷◌, ◌++◌, map, append_assoc, append-nil, arith, ltb, leb, ◌==◌, if◌then◌else◌, leb→le, leb-false,
  ==_iff, Bool-cases, Option-cases, unwrap_or, usize_max, dec_u64, length, retain, any, take, All,
  In, In-append_left, In-append_right, In-append_cases, length-append, length-map, length-retain-le,
  retain-append, length-take, any-append_true, Bytes, codes, bytes_eq, bytes_eq_refl,
  bytes_eq_sound, bytes_eq_iff, contains, starts_with, ends_with, lookup, insert, remove, values,
  lookup-insert, lookup-remove, insert_missing, remove_missing, remove-append, values-append,
  List-cases, get_elem?, get_elem?-In,
}
use verse_entrance_server.Cluster.Manager.{CfARecord}

pub record CfAuthInfo : Type 0 where
  pub email : Bytes
  pub api_key : Bytes

-- Why an operation ended early: a request failed, the address is no IPv4 address, the data could not
-- be printed, or the zone is not there.
pub data Failure : Type 0 where
  request_failed : Failure
  bad_address : Failure
  unprintable : Failure
  zone_not_found : Failure

pub data Outcome : Type 0 where
  ok : Outcome
  err : Failure → Outcome

-- `?` after a call that changes what is outside.
abbrev pub and_then : {Net : Type 0} → Net × Outcome → (Net → Net × Outcome) → Net × Outcome
and_then (net, ok) next = next net
and_then (net, err e) next = (net, err e)

abbrev pub checked : {Net : Type 0} → Net × Bool → Net × Outcome
checked (net, true) = (net, ok)
checked (net, false) = (net, err request_failed)

-- What a listing tells of a record; the content only of an A record.
pub record DnsRecord (Addr : Type 0) : Type 0 where
  pub id : Bytes
  pub name : Bytes
  pub content : Option Addr

-- The crate `cloudflare` and the service behind it, in a state `Net` of what is outside. Readings give
-- `none`, and changes `false`, when the request fails; the state may change all the same.
pub record NameServer (Net Addr : Type 0) : Type 0 where
  pub parse_addr : Bytes → Option Addr
  pub print_addr : Addr → Bytes
  pub connects : Net → CfAuthInfo → Bool
  pub list_zones : Net → Bytes → Option (List Bytes)
  pub list_records : Net → Bytes → Option (List (DnsRecord Addr))
  pub delete_record : Net → Bytes → Bytes → Net × Bool
  pub create_record : Net → Bytes → Bytes → Addr → Net × Bool

module _ {Net Addr : Type 0} (ns : NameServer Net Addr) where
  -- The A records of a listing.
  unfoldable pub arecords : List (DnsRecord Addr) → List CfARecord
  arecords [] = []
  arecords (d ∷ ds) =
      let rest = arecords ds in
      (elim d.content [
        | none ↦ rest
        | some a ↦ record { id = d.id; name = d.name; ip = ns.print_addr a } ∷ rest
      ])

  unfoldable pub get_arecords : Net → Bytes → Option (List CfARecord)
  unfolding arecords
  get_arecords net zone_id = elim (ns.list_records net zone_id) [
    | none ↦ none
    | some ds ↦ some (arecords ds)
  ]

  unfoldable pub add_arecord : Net → Bytes → Bytes → Bytes → Net × Outcome
  add_arecord net zone_id prefix ip = elim (ns.parse_addr ip) [
    | none ↦ (net, err bad_address)
    | some a ↦ checked (ns.create_record net zone_id prefix a)
  ]

  unfoldable pub delete_arecord : Net → Bytes → Bytes → Net × Outcome
  delete_arecord net zone_id id = checked (ns.delete_record net zone_id id)

  -- The one zone of that name: `some none` if there is none, or more than one.
  unfoldable pub get_zone_id : Net → Bytes → Option (Option Bytes)
  get_zone_id net domain = elim (ns.list_zones net domain) [
    | none ↦ none
    | some [] ↦ some none
    | some (z ∷ []) ↦ some (some z)
    | some (z ∷ w ∷ zs) ↦ some none
  ]
