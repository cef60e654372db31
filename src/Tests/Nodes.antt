-- ===== src/Tests/Nodes.antt =====
-- A cluster of two nodes, its name server records, and the shared services.
use verse_entrance_server.Base.{
  ℕ, ◌≡◌, refl, ap, subst, inl, true, false, Option, some, List, [], ◌∷◌, ◌++◌, arith,
  if◌then◌else◌, unwrap_or, length, In, Bytes, codes, bytes_eq,
}
use verse_entrance_server.Cluster.Func.{split_host}
use verse_entrance_server.Cluster.Node
use verse_entrance_server.Cluster.Node.{is_my_work_unique, is_my_work_total}
use verse_entrance_server.Cluster.Manager.{split_records, CfARecord, diff_records, has_ip}
use verse_entrance_server.Cluster.Manager.Update.{
  delete_arecord, update_dns, IsOwn, update_dns-IsOwn,
}
use verse_entrance_server.Hub.Redirect.{
  redirect, proceed, forbidden, redirect_if_needed, redirect_if_needed-ends,
}
use verse_entrance_server.Common.Crypto.{
  drop, drop-append, Cipher, plain, encrypt_data, decrypt_data, decrypt_data-encrypt_data,
}

abbrev nodes : List Node.NodeListNode
nodes = record { host = codes "n0.example" } ∷ record { host = codes "n1.example" } ∷ []

abbrev node_0 : Node.Client
node_0 = record {
  node_host = codes "n0.example";
  cluster_host = codes "c.example";
  node_list = some nodes;
}

abbrev node_1 : Node.Client
node_1 = record {
  node_host = codes "n1.example";
  cluster_host = codes "c.example";
  node_list = some nodes;
}

-- A hash for the test: the length.
abbrev hash : Bytes → ℕ
hash url = length url

odd_other : Node.get_worker hash node_0 (codes "https://a.example") ≡ Node.other node_1.node_host
unfolding Node.get_worker Node.get_assigned_node bytes_eq
odd_other = refl

odd_mine : Node.is_my_work hash node_1 (codes "https://a.example") ≡ true
unfolding Node.is_my_work Node.get_assigned_node bytes_eq
odd_mine = refl

redirect_if_needed-ends_example :
    (redirect_if_needed hash node_0 (codes "c.example") (codes "https://a.example") (codes "/enter")
      ≡ (if bytes_eq (codes "c.example") (codes "c.example")
          then redirect (codes "https://" ++ codes "n1.example" ++ codes "/enter")
          else forbidden))
    × (redirect_if_needed hash node_1
          (codes "n1.example")
          (codes "https://a.example")
          (codes "/enter")
        ≡ proceed)
redirect_if_needed-ends_example =
    redirect_if_needed-ends hash node_0 node_1 (codes "c.example") (codes "n1.example")
      (codes "https://a.example") (codes "/enter") refl odd_other

is_my_work_unique_example : codes "n1.example" ≡ codes "n1.example"
is_my_work_unique_example =
    is_my_work_unique hash node_1 node_1 (codes "https://a.example") refl odd_mine odd_mine

is_my_work_total_example :
    (node : Node.NodeListNode) × In node nodes
    × (Node.is_my_work hash
          (Node.set_node_list (Node.new_client node.host (codes "c.example")) nodes)
          (codes "https://a.example")
        ≡ true)
is_my_work_total_example =
    is_my_work_total hash nodes (codes "c.example") (codes "https://a.example") (omega arith)

abbrev stale : CfARecord
stale = record { id = codes "1"; name = codes "c.example"; ip = codes "10.0.0.1" }

abbrev current : CfARecord
current = record { id = codes "2"; name = codes "c.example"; ip = codes "10.0.0.2" }

abbrev fresh : CfARecord
fresh = record { id = codes "3"; name = codes "c.example"; ip = codes "10.0.0.3" }

abbrev records : List CfARecord
records = stale ∷ current ∷ []

abbrev ips : List Bytes
ips = codes "10.0.0.2" ∷ codes "10.0.0.3" ∷ []

abbrev node_id : Bytes → Bytes
node_id ip = codes "0123456789abcdef"

abbrev node_record : CfARecord
node_record = record {
  id = codes "4";
  name = codes "0123456789abcdef.c.example";
  ip = codes "10.0.0.4";
}

abbrev apex : CfARecord
apex = record { id = codes "5"; name = codes "c.example"; ip = codes "10.0.0.4" }

-- A cipher for the test: the nonce before the text.
abbrev cipher : Cipher
cipher = record {
  encrypt = λ secret nonce text. some (nonce ++ text);
  decrypt = λ secret nonce text. some (drop (length nonce) text);
}

decrypts : (k n t c : Bytes) → cipher.encrypt k n t ≡ some c → cipher.decrypt k n c ≡ some t
decrypts k n t c e =
    subst (λ (d : Bytes). some (drop (length n) d) ≡ some t)
      (ap (λ (o : Option Bytes). unwrap_or o []) e) (ap some (drop-append n t))

abbrev sent : Bytes
sent = codes "123456789012" ++ codes "123456789012" ++ codes "text"

encrypted : encrypt_data cipher (codes "key") (codes "123456789012") (codes "text") ≡ some sent
unfolding encrypt_data
encrypted = refl

decrypt_data-encrypt_data_example : decrypt_data cipher (codes "key") sent ≡ plain (codes "text")
decrypt_data-encrypt_data_example =
    decrypt_data-encrypt_data cipher (codes "key") (codes "123456789012") (codes "text") sent
      decrypts refl encrypted

stale_deleted : In (delete_arecord (codes "1")) (update_dns node_id records (codes "c.example") ips)
unfolding update_dns split_records diff_records split_host bytes_eq
stale_deleted = inl refl

update_dns-IsOwn_example :
    (r : CfARecord) × In r records
    × (r.id ≡ codes "1")
    × (has_ip ips r.ip ≡ false)
    × IsOwn (codes "c.example") r
update_dns-IsOwn_example =
    update_dns-IsOwn node_id records (codes "c.example") (codes "1") ips stale_deleted
