-- ===== src/Tests/Services.antt =====
-- An update of a cluster of one node against the name server of the tests.
use verse_entrance_server.Base.{
  ◌≡◌, refl, sym, ap, subst, ◌≢◌, inl, true, false, none, some, List, [], ◌∷◌, arith, In, Bytes,
  codes, bytes_eq, contains, starts_with, ends_with,
}
use verse_entrance_server.Cluster.Func.{split_host, get_node_prefix}
use verse_entrance_server.Cluster.Manager.{CfARecord, Node, is_single, split_records, diff_records}
use verse_entrance_server.Cluster.Manager.Update.{IsOwn}
use verse_entrance_server.Cluster.Manager.Run.{
  Aws, Manager, update, execute, load_nodes_from_ec2, get_nodes, run_update_dns,
}
use verse_entrance_server.Cluster.Cf.{NameServer, DnsRecord, arecords, Outcome, ok}
use verse_entrance_server.Cluster.Cf
use verse_entrance_server.Cluster.Manager.Update
use verse_entrance_server.Cluster.Manager.Repair.{
  zone_records, update_dns-settles, update_dns-covers,
}
use verse_entrance_server.Cluster.Manager.Reliable.{Reliable, update-repairs}
use verse_entrance_server.Tests.NameServer.{Slot, contents, toy, toy_zone, toy_laws}

abbrev pub manager : Manager
manager = record {
  cluster_host = codes "hub.example.com";
  role = codes "dev";
  stage = codes "CellServer";
  aws_region = codes "ap-northeast-1";
  cluster_json_s3_path = record { bucket = codes "b"; key = codes "k" };
  cf_auth = record { email = codes "e"; api_key = codes "a" };
}

abbrev pub node_id : Bytes → Bytes
node_id ip = codes "0123456789abcdef"

-- Two records of a node that is gone.
abbrev pub net : List Slot
net =
    some (codes "hub.example.com", codes "10.0.0.1")
    ∷ some (codes "hub-0123456789abcdef.example.com", codes "10.0.0.1")
    ∷ []

abbrev pub nodes : List Node
nodes = record { public_ip = codes "10.0.0.2" } ∷ []

abbrev net' : List Slot
net' =
    none
    ∷ none
    ∷ some (codes "hub.example.com", codes "10.0.0.2")
    ∷ some (codes "hub-0123456789abcdef.example.com", codes "10.0.0.2")
    ∷ []

ran : run_update_dns toy node_id manager net nodes ≡ (net', ok)
unfolding run_update_dns Cf.get_zone_id Cf.get_arecords Update.update_dns execute split_records
    diff_records is_single split_host get_node_prefix Cf.add_arecord Cf.delete_arecord bytes_eq
    contains starts_with ends_with
ran = refl

ran_well : (run_update_dns toy node_id manager net nodes).1 ≡ ok
ran_well = ap (λ (p : List Slot × Outcome). p.1) ran

pub host_dotless : starts_with (codes "hub.example.com") (codes ".") ≡ false
unfolding starts_with
host_dotless = refl

pub host_prefixed : (split_host (codes "hub.example.com")).0 ≢ []
unfolding split_host contains
host_prefixed e = ground arith

update_dns-settles_example :
    (run_update_dns toy node_id manager (run_update_dns toy node_id manager net nodes).0 nodes).0
    ≡ (run_update_dns toy node_id manager net nodes).0
update_dns-settles_example =
    update_dns-settles toy node_id manager toy_zone toy_laws (λ ip. refl) host_dotless host_prefixed
      net nodes ran_well

update_dns-covers_example :
    ((r : CfARecord) × In r (
        zone_records toy node_id manager toy_zone toy_laws
          (run_update_dns toy node_id manager net nodes).0)
      × (r.name ≡ codes "hub.example.com")
      × (r.ip ≡ codes "10.0.0.2"))
    × ((r : CfARecord) × In r (
          zone_records toy node_id manager toy_zone toy_laws
            (run_update_dns toy node_id manager net nodes).0)
        × (is_single
              (split_host (codes "hub.example.com")).0
              (split_host (codes "hub.example.com")).1
              r.name
            ≡ true)
        × (r.ip ≡ codes "10.0.0.2"))
update_dns-covers_example =
    update_dns-covers toy node_id manager toy_zone toy_laws (λ ip. refl) host_dotless host_prefixed
      net nodes (codes "10.0.0.2") ran_well (inl refl)

abbrev new_record : CfARecord
new_record = record { id = 2 ∷ []; name = codes "hub.example.com"; ip = codes "10.0.0.2" }

listed_now : In new_record (
    zone_records toy node_id manager toy_zone toy_laws
      (run_update_dns toy node_id manager net nodes).0)
unfolding arecords
listed_now =
    subst (λ (n : List Slot). In new_record (zone_records toy node_id manager toy_zone toy_laws n))
      (sym (ap (λ (p : List Slot × Outcome). p.0) ran)) (inl refl)

abbrev pub aws : Aws (List Slot)
aws = record {
  running_instances = λ n region role stage. some (none ∷ some (codes "10.0.0.2") ∷ []);
  put_object = λ n bucket key body. (n, true);
  print_json = λ l. some (codes "{}");
}

pub reliable : Reliable aws toy manager toy_zone
reliable = record {
  prints = λ l. (codes "{}", refl);
  puts = λ n js. refl;
  connects = λ n. refl;
  zones = λ n. refl;
  lists = λ n. (contents 0 n, refl);
  deletes = λ n id. refl;
  creates = λ n prefix a. refl;
  parses = λ n l ip e m. (ip, refl);
}

pub nodes_read : get_nodes aws manager net ≡ some nodes
unfolding get_nodes load_nodes_from_ec2
nodes_read = refl

update-repairs_example :
    ((update aws toy node_id manager net).1 ≡ ok)
    × ((run_update_dns toy node_id manager (update aws toy node_id manager net).0 nodes).0
        ≡ (update aws toy node_id manager net).0)
update-repairs_example =
    update-repairs aws toy manager toy_zone reliable node_id toy_laws (λ ip. refl) host_dotless
      host_prefixed net nodes nodes_read
