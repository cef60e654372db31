-- ===== src/Hub/NodeList.antt =====
-- `start_client` of hubserv/src/cluster.rs: the list of the cluster's nodes is loaded, with up to five
-- tries, and then again every minute. The server of the list is outside: `answer i` is what it gives
-- to the request of number `i`, once decoded, or `none` where the request or the decoding fails.
pub mod Latest
pub mod Counts
pub mod Starts
use verse_entrance_server.Base.{
  ℕ, zero, suc, ◌+◌, ◌-◌, ◌*◌, ◌/◌, ◌%◌, ◌^◌, ◌≤◌, ◌<◌, max, min, ◌≡◌, refl, sym, ap, ap₂, subst,
  ◌∙◌, ◌≢◌, ◌↔◌, ◌⊎◌, inl, inr, Bool, true, false, ◌&&◌, ◌||◌, not, Option, none, some, List, [],
  ◌∷◌, ◌++◌, map, append_assoc, append-nil, arith, ltb, leb, ◌==◌, if◌then◌else◌, leb→le, leb-false,
  ==_iff, Bool-cases, Option-cases, unwrap_or, usize_max, dec_u64, length, retain, any, take, All,
  In, In-append_left, In-append_right, In-append_cases, length-append, length-map, length-retain-le,
  retain-append, length-take, any-append_true, Bytes, codes, bytes_eq, bytes_eq_refl,
  bytes_eq_sound, bytes_eq_iff, contains, starts_with, ends_with, lookup, insert, remove, values,
  lookup-insert, lookup-remove, insert_missing, remove_missing, remove-append, values-append,
  List-cases, get_elem?, get_elem?-In, set, set_ind, total, total-set, le-total, total-zero, if_ind,
}
use verse_entrance_server.Cluster.Node.{NodeListNode, Client}
use verse_entrance_server.Hub.Args.{Args}
use verse_entrance_server.Hub.Redirect.{load_node_list, load_node_list_lem}

-- The client, the requests that have been made, and the seconds that have been slept.
pub record Loading : Type 0 where
  pub client : Client
  pub requests : ℕ
  pub slept : ℕ

abbrev pub sleep : ℕ → Loading → Loading
sleep seconds l = record l { slept = l.slept + seconds }

module _ (answer : ℕ → Option (List NodeListNode)) where
  -- `load_node_list`, and whether it was `Ok`.
  unfoldable pub load : Loading → Loading × Bool
  unfolding load_node_list
  load l = elim (answer l.requests) [
    | none ↦ (record l { requests = suc l.requests }, false)
    | some nodes ↦
        (record l { client = load_node_list l.client nodes; requests = suc l.requests }, true)
  ]

  -- The first loop, with `k` tries left, from the try `n` on.
  unfoldable pub tries : ℕ → ℕ → Loading → Loading
  unfolding load
  tries zero n l = l
  tries (suc k) n l =
      let (l', loaded) = load l in
      let rest = tries k (n + 1) (sleep ((n + 1) * 3) l') in if loaded then l' else rest

  -- Nothing is started without the list's URL or without a client.
  unfoldable pub start_client : Args → Option Client → Option Loading
  unfolding tries
  start_client a client = elim a.cluster_node_list_url [
    | none ↦ none
    | some url ↦ elim client [
      | none ↦ none
      | some c ↦ some (tries 5 0 (record { client = c; requests = 0; slept = 0 }))
    ]
  ]

  -- `k` rounds of the task that `start_client` spawns.
  unfoldable pub rounds : ℕ → Loading → Loading
  unfolding load
  rounds zero l = l
  rounds (suc k) l = (load (sleep 60 (rounds k l))).0
