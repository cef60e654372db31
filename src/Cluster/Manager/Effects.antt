-- ===== src/Cluster/Manager/Effects.antt =====
-- What the calls of `update_dns` (cluster/src/manager.rs), run against a lawful name server, do to the
-- listing.
use verse_entrance_server.Base.{
  ◌≡◌, refl, sym, ap, ap₂, subst, ◌∙◌, ◌≢◌, ◌↔◌, ◌⊎◌, inl, inr, Bool, true, false, Option, some,
  List, [], ◌∷◌, ◌++◌, Option-cases, unwrap_or, In, Bytes,
}
use verse_entrance_server.Cluster.Func.{dot}
use verse_entrance_server.Cluster.Manager.{CfARecord}
use verse_entrance_server.Cluster.Manager.Diff.{HasUniqueIds}
use verse_entrance_server.Cluster.Manager.Loops.{Deletes, Adds}
use verse_entrance_server.Cluster.Manager.Update.{deletions, additions}
use verse_entrance_server.Cluster.Manager.Run.{execute}
use verse_entrance_server.Cluster.Cf.{
  NameServer, DnsRecord, arecords, Outcome, ok, err, and_then, checked, Failure, bad_address,
  request_failed,
}
use verse_entrance_server.Cluster.Cf
use verse_entrance_server.Cluster.Cf.Laws.{Laws, as_record, arecords-In, In-arecords}

err-not-ok : {f : Failure} → err f ≡ ok → ⊥
err-not-ok e = cc

pub and_then-ok :
    {Net : Type 0} (p : Net × Outcome) (next : Net → Net × Outcome)
    → (and_then p next).1 ≡ ok
    → (p.1 ≡ ok) × (and_then p next ≡ next p.0)
and_then-ok (net, ok) next e = (refl, refl)
and_then-ok (net, err f) next e = absurd (err-not-ok e)

checked-ok :
    {Net : Type 0} (p : Net × Bool) → (checked p).1 ≡ ok → (p.1 ≡ true) × ((checked p).0 ≡ p.0)
checked-ok (net, true) e = (refl, refl)
checked-ok (net, false) e = absurd (err-not-ok e)

module _ {Net Addr : Type 0} (ns : NameServer Net Addr) (base zone_id : Bytes)
    (laws : Laws ns base zone_id) where
  -- The A records of the zone.
  abbrev pub view : Net → List CfARecord
  view net = arecords ns (laws.contents net)

  some_same : (x y : Addr) → ◌≡◌ {A = Option Addr} (some x) (some y) → x ≡ y
  some_same x y e = ap (λ (o : Option Addr). unwrap_or o x) e

  pub view_unique : (net : Net) → HasUniqueIds (view net)
  view_unique net x y m n same =
      let (d, a, k, e, f) = In-arecords ns x (laws.contents net) m in
      let (d', a', k', e', f') = In-arecords ns y (laws.contents net) n in
      let ids : d.id ≡ d'.id =
        ap (λ (r : CfARecord). r.id) f ∙ same ∙ sym (ap (λ (r : CfARecord). r.id) f') in
      let one : d ≡ d' = laws.unique net d d' k k' ids in
      let a_same : a ≡ a' =
        some_same a a' (sym e ∙ ap (λ (q : DnsRecord Addr). q.content) one ∙ e') in
      sym f ∙ ap₂ (λ (q : DnsRecord Addr) (b : Addr). as_record ns q b) one a_same ∙ f'

  deleted-view :
      (net : Net) (id : Bytes) (r : CfARecord)
      → (ns.delete_record net zone_id id).1 ≡ true
      → In r (view (ns.delete_record net zone_id id).0) ↔ (In r (view net) × (id ≢ r.id))
  deleted-view net id r yes' = (λ m. forth m, λ p. back p.0 p.1)
    where
      after : Net
      after = (ns.delete_record net zone_id id).0

      forth : In r (view after) → In r (view net) × (id ≢ r.id)
      forth m =
          let (d, a, k, e, f) = In-arecords ns r (laws.contents after) m in
          let (l, other) = (laws.deleted net id d yes').0 k in
          (
            subst (λ (q : CfARecord). In q (view net)) f
                (arecords-In ns d a (laws.contents net) l e),
            λ same. other (same ∙ sym (ap (λ (q : CfARecord). q.id) f)),
          )

      back : In r (view net) → (id ≢ r.id) → In r (view after)
      back m other =
          let (d, a, k, e, f) = In-arecords ns r (laws.contents net) m in
          let l =
            (laws.deleted net id d yes').1
              (k, λ same. other (same ∙ ap (λ (q : CfARecord). q.id) f)) in
          subst (λ (q : CfARecord). In q (view after)) f
            (arecords-In ns d a (laws.contents after) l e)

  one_deletion :
      (net : Net) (x : CfARecord) (dels after : List CfARecord)
      → (ns.delete_record net zone_id x.id).1 ≡ true
      → Deletes dels (view (ns.delete_record net zone_id x.id).0) after
      → Deletes (x ∷ dels) (view net) after
  one_deletion net x dels after done ih r = (λ m. forth m, λ p. back p)
    where
      forth : In r after → In r (view net) × ((d : CfARecord) → In d (x ∷ dels) → d.id ≢ r.id)
      forth m =
          let (m1, alive) = (ih r).0 m in
          let (m0, other) = (deleted-view net x.id r done).0 m1 in
          (
            m0,
            λ d k. elim k [
              | inl f ↦ λ same. other (ap (λ (q : CfARecord). q.id) f ∙ same)
              | inr l ↦ alive d l
            ],
          )

      back : In r (view net) × ((d : CfARecord) → In d (x ∷ dels) → d.id ≢ r.id) → In r after
      back p =
          (ih r).1 ((deleted-view net x.id r done).1 (p.0, p.1 x (inl refl)), λ d k. p.1 d (inr k))

  -- The loop of deletions.
  pub execute-Deletes :
      (net : Net) (dels : List CfARecord)
      → (execute ns zone_id net (deletions dels)).1 ≡ ok
      → Deletes dels (view net) (view (execute ns zone_id net (deletions dels)).0)
  unfolding execute Cf.delete_arecord
  execute-Deletes net [] e = λ r. (λ m. (m, λ d k. elim k [ ]), λ p. p.0)
  execute-Deletes net (x ∷ dels) e =
      let step' = checked (ns.delete_record net zone_id x.id) in
      let (first, rest) =
        and_then-ok step' (λ after. execute ns zone_id after (deletions dels)) e in
      let (done, same) = checked-ok (ns.delete_record net zone_id x.id) first in
      let later : and_then step' (λ after. execute ns zone_id after (deletions dels))
          ≡ execute ns zone_id (ns.delete_record net zone_id x.id).0 (deletions dels) =
        rest ∙ ap (λ (n : Net). execute ns zone_id n (deletions dels)) same in
      let ih = execute-Deletes (ns.delete_record net zone_id x.id).0 dels (rw later at e) in
      subst (λ (p : Net × Outcome). Deletes (x ∷ dels) (view net) (view p.0)) (sym later)
        (one_deletion net x dels
          (view (execute ns zone_id (ns.delete_record net zone_id x.id).0 (deletions dels)).0) done
          ih)

  module _ (t : CfARecord → Bool) (prefix_of : Bytes → Bytes)
      (prefixed : (ip : Bytes) → prefix_of ip ≢ [])
      (named : (ip : Bytes) (r : CfARecord)
        → r.name ≡ prefix_of ip ++ dot ∷ base
        → t r ≡ true) where
    one_addition :
        (net : Net) (ip : Bytes) (a : Addr) (ips : List Bytes) (after : List CfARecord)
        → ns.parse_addr ip ≡ some a
        → (ns.create_record net zone_id (prefix_of ip) a).1 ≡ true
        → Adds t ips (view (ns.create_record net zone_id (prefix_of ip) a).0) after
        → Adds t (ip ∷ ips) (view net) after
    one_addition net ip a ips after parsed done ih = record {
      kept = λ r m. ih.kept r (kept_one r m);
      origin = λ r m. origin_all r m;
      filled = λ j m. filled_all j m;
    }
      where
        middle : Net
        middle = (ns.create_record net zone_id (prefix_of ip) a).0

        kept_one : (r : CfARecord) → In r (view net) → In r (view middle)
        kept_one r m =
            let (d, b, k, e, f) = In-arecords ns r (laws.contents net) m in
            subst (λ (q : CfARecord). In q (view middle)) f
              (arecords-In ns d b (laws.contents middle)
                (laws.created_kept net (prefix_of ip) a d done k) e)

        origin_one : (r : CfARecord) → In r (view middle) → In r (view net) ⊎ (ip ≡ r.ip)
        origin_one r m =
            let (d, b, k, e, f) = In-arecords ns r (laws.contents middle) m in
            elim (laws.created_origin net (prefix_of ip) a d done k) [
              | inl old ↦ inl (
                  subst (λ (q : CfARecord). In q (view net)) f
                    (arecords-In ns d b (laws.contents net) old e))
              | inr new ↦
                  let same : a ≡ b = some_same a b (sym new ∙ e) in
                  inr (
                    sym (laws.printed ip a parsed)
                    ∙ ap (λ (c : Addr). ns.print_addr c) same
                    ∙ ap (λ (q : CfARecord). q.ip) f)
            ]

        origin_all : (r : CfARecord) → In r after → In r (view net) ⊎ In r.ip (ip ∷ ips)
        origin_all r m = elim (ih.origin r m) [
          | inr new ↦ inr (inr new)
          | inl mid ↦ elim (origin_one r mid) [ inl old ↦ inl old | inr e ↦ inr (inl e) ]
        ]

        filled_all :
            (j : Bytes) → In j (ip ∷ ips) → (r : CfARecord) × In r after × (t r ≡ true) × (r.ip ≡ j)
        filled_all j (inr m) = ih.filled j m
        filled_all j (inl e) =
            let (d, k, n, c) = laws.created_new net (prefix_of ip) a (prefixed ip) done in
            (
              as_record ns d a,
              ih.kept (as_record ns d a) (arecords-In ns d a (laws.contents middle) k c),
              named ip (as_record ns d a) n,
              laws.printed ip a parsed ∙ e,
            )

    -- The loop of additions.
    pub execute-Adds :
        (net : Net) (ips : List Bytes)
        → (execute ns zone_id net (additions prefix_of ips)).1 ≡ ok
        → Adds t ips (view net) (view (execute ns zone_id net (additions prefix_of ips)).0)
    unfolding execute Cf.add_arecord
    execute-Adds net [] e = record {
      kept = λ r m. m;
      origin = λ r m. inl m;
      filled = λ ip m. elim m [ ];
    }
    execute-Adds net (ip ∷ ips) e = elim (Option-cases (ns.parse_addr ip)) [
      | inl bad ↦ absurd (err-not-ok (rw (bad, Cf.add_arecord) at e))
      | inr (a, parsed) ↦
          let more = λ (after : Net). execute ns zone_id after (additions prefix_of ips) in
          let made = ns.create_record net zone_id (prefix_of ip) a in
          let e' : (and_then (checked made) more).1 ≡ ok = rw (parsed, Cf.add_arecord) at e in
          let (first, rest) = and_then-ok (checked made) more e' in
          let (done, same) = checked-ok made first in
          let later : and_then (checked made) more ≡ more made.0 =
            rest ∙ ap (λ (n : Net). more n) same in
          let ih = execute-Adds made.0 ips (rw later at e') in
          rw (parsed, Cf.add_arecord)
            (subst (λ (p : Net × Outcome). Adds t (ip ∷ ips) (view net) (view p.0)) (sym later)
              (one_addition net ip a ips (view (more made.0).0) parsed done ih))
    ]
