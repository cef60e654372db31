-- ===== src/Hub/Dns.antt =====
-- hubserv/src/dns.rs: the one record of a host without a cluster.
use verse_entrance_server.Base.{Bool, Option, none, some, List, [], ◌∷◌, if◌then◌else◌, Bytes}
use verse_entrance_server.Cluster.Func.{split_once}
use verse_entrance_server.Cluster.Cf.{
  request_failed, bad_address, zone_not_found, Outcome, err, checked, DnsRecord, NameServer,
}

-- What the name server offers besides: the records of one name, and the change of a record.
pub record NamedRecords (Net Addr : Type 0) : Type 0 where
  pub list_named : Net → Bytes → Bytes → Option (List (DnsRecord Addr))
  pub update_record : Net → Bytes → Bytes → Bytes → Addr → Net × Bool

-- `name.splitn(2, '.')`: the first label and the rest, or the whole name twice.
abbrev pub label_domain : Bytes → Bytes × Bytes
label_domain name = elim (split_once name) [
  | none ↦ (name, name)
  | some (label, domain) ↦ (label, domain)
]

-- The first A record of a listing, by its id.
abbrev pub first_a : {Addr : Type 0} → List (DnsRecord Addr) → Option Bytes
first_a [] = none
first_a (d ∷ ds) = elim d.content [ none ↦ first_a ds | some a ↦ some d.id ]

module _ {Net Addr : Type 0} (ns : NameServer Net Addr) (named : NamedRecords Net Addr) where
  -- Once the zone is known.
  unfoldable pub set_in_zone : Net → Bytes → Bytes → Bytes → Bytes → Net × Outcome
  set_in_zone net zone_id name label ip = elim (ns.parse_addr ip) [
    | none ↦ (net, err bad_address)
    | some a ↦ elim (named.list_named net zone_id name) [
      | none ↦ (net, err request_failed)
      | some ds ↦ elim (first_a ds) [
        | none ↦ checked (ns.create_record net zone_id label a)
        | some id ↦ checked (named.update_record net zone_id id label a)
      ]
    ]
  ]

  unfoldable pub set_arecord : Net → Bytes → Bytes → Bytes → Bytes → Net × Outcome
  unfolding set_in_zone split_once
  set_arecord net name ip cf_email cf_api_key =
      if ns.connects net record { email = cf_email; api_key = cf_api_key }
      then (elim (ns.list_zones net (label_domain name).1) [
        | none ↦ (net, err request_failed)
        | some [] ↦ (net, err zone_not_found)
        | some (z ∷ []) ↦ set_in_zone net z name (label_domain name).0 ip
        | some (z ∷ w ∷ zs) ↦ (net, err zone_not_found)
      ])
      else (net, err request_failed)
