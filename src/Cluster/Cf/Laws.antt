-- ===== src/Cluster/Cf/Laws.antt =====
-- What cluster/src/manager.rs relies on of the name server, for one zone: the documented effect of
-- each request that succeeds.
use verse_entrance_server.Base.{
  ◌≡◌, refl, sym, subst, ◌≢◌, ◌↔◌, ◌⊎◌, inl, inr, true, some, List, [], ◌∷◌, ◌++◌, Option-cases, In,
  Bytes,
}
use verse_entrance_server.Cluster.Func.{dot}
use verse_entrance_server.Cluster.Manager.{CfARecord}
use verse_entrance_server.Cluster.Cf.{NameServer, DnsRecord, arecords}

-- The zone `base` with the id `zone_id`. A listing is complete; ids are unique; a deletion takes the
-- records of the id away; a creation adds a record of its own, whose name is completed by the zone's;
-- an address is printed as it was read.
pub record Laws {Net Addr : Type 0} (ns : NameServer Net Addr) (base zone_id : Bytes) : Type 0 where
  pub contents : Net → List (DnsRecord Addr)
  pub zone : (net : Net) (z : Bytes) → ns.list_zones net base ≡ some (z ∷ []) → z ≡ zone_id
  pub listed :
      (net : Net) (l : List (DnsRecord Addr))
      → ns.list_records net zone_id ≡ some l
      → l ≡ contents net
  pub printed : (ip : Bytes) (a : Addr) → ns.parse_addr ip ≡ some a → ns.print_addr a ≡ ip
  pub unique :
      (net : Net) (x y : DnsRecord Addr)
      → In x (contents net)
      → In y (contents net)
      → x.id ≡ y.id
      → x ≡ y
  pub deleted :
      (net : Net) (id : Bytes) (d : DnsRecord Addr)
      → (ns.delete_record net zone_id id).1 ≡ true
      → In d (contents (ns.delete_record net zone_id id).0) ↔ (In d (contents net) × (id ≢ d.id))
  pub created_kept :
      (net : Net) (prefix : Bytes) (a : Addr) (d : DnsRecord Addr)
      → (ns.create_record net zone_id prefix a).1 ≡ true
      → In d (contents net)
      → In d (contents (ns.create_record net zone_id prefix a).0)
  pub created_origin :
      (net : Net) (prefix : Bytes) (a : Addr) (d : DnsRecord Addr)
      → (ns.create_record net zone_id prefix a).1 ≡ true
      → In d (contents (ns.create_record net zone_id prefix a).0)
      → In d (contents net) ⊎ (d.content ≡ some a)
  pub created_new :
      (net : Net) (prefix : Bytes) (a : Addr)
      → prefix ≢ []
      → (ns.create_record net zone_id prefix a).1 ≡ true
      → (d : DnsRecord Addr) × In d (contents (ns.create_record net zone_id prefix a).0)
        × (d.name ≡ prefix ++ dot ∷ base)
        × (d.content ≡ some a)

module _ {Net Addr : Type 0} (ns : NameServer Net Addr) where
  abbrev pub as_record : DnsRecord Addr → Addr → CfARecord
  as_record d a = record { id = d.id; name = d.name; ip = ns.print_addr a }

  pub arecords-In :
      (d : DnsRecord Addr) (a : Addr) (ds : List (DnsRecord Addr))
      → In d ds
      → d.content ≡ some a
      → In (as_record d a) (arecords ns ds)
  unfolding arecords
  arecords-In d a [] m e = elim m [ ]
  arecords-In d a (x ∷ ds) (inl h) e =
      subst (λ (y : DnsRecord Addr). In (as_record d a) (arecords ns (y ∷ ds))) (sym h)
        (rw (e, arecords) (inl refl))
  arecords-In d a (x ∷ ds) (inr m) e = elim (Option-cases x.content) [
    | inl f ↦ rw (f, arecords) (arecords-In d a ds m e)
    | inr (b, f) ↦ rw (f, arecords) (inr (arecords-In d a ds m e))
  ]

  pub In-arecords :
      (r : CfARecord) (ds : List (DnsRecord Addr))
      → In r (arecords ns ds)
      → (d : DnsRecord Addr) × (a : Addr) × In d ds × (d.content ≡ some a) × (as_record d a ≡ r)
  unfolding arecords
  In-arecords r [] m = elim m [ ]
  In-arecords r (x ∷ ds) m = elim (Option-cases x.content) [
    | inl f ↦ let (d, a, k, e, s) = In-arecords r ds (rw (f, arecords) at m) in (d, a, inr k, e, s)
    | inr (b, f) ↦ elim (rw (f, arecords) at m) [
      | inl e ↦ (x, b, inl refl, f, e)
      | inr k ↦ let (d, a, l, e, s) = In-arecords r ds k in (d, a, inr l, e, s)
    ]
  ]
