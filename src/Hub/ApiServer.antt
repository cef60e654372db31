-- ===== src/Hub/ApiServer.antt =====
-- hubserv/src/api_server.rs: where the server listens, the request that updates the cluster, and the
-- access log. Serving itself is the HTTP library's.
use verse_entrance_server.Base.{
  ℕ, ◌≡◌, refl, ◌↔◌, inl, inr, Bool, true, Option, none, some, List, [], ◌∷◌, ◌++◌, arith,
  if◌then◌else◌, Bool-cases, unwrap_or, Bytes, codes,
}
use verse_entrance_server.Cluster.Cf.{NameServer, Outcome, ok, err}
use verse_entrance_server.Cluster.Manager.Run.{Aws, Manager, update}
use verse_entrance_server.Hub.Args.{Args}

-- The path of the request that updates the cluster.
unfoldable pub update_cluster_path : Args → Bytes
update_cluster_path a = codes "/update-cluster-" ++ unwrap_or a.update_cluster_key []

-- With TLS on port 443 for some hosts, without on a port, or not at all: TLS without a host is given up
-- with a warning.
pub data Listening : Type 0 where
  tls : List Bytes → Listening
  plain_http : ℕ → Listening
  no_api : Listening

unfoldable pub listening : Args → Listening
listening a =
    if a.use_https
    then (elim a.http_host [
      | none ↦ no_api
      | some http_host ↦ elim a.cluster_node_host [
        | none ↦ tls (http_host ∷ [])
        | some cluster_node_host ↦ tls (http_host ∷ cluster_node_host ∷ [])
      ]
    ])
    else plain_http a.http_port

-- The answers of `update_cluster`: status 200 with "update" true or false, or status 500.
pub data UpdateReply : Type 0 where
  updated : UpdateReply
  not_updated : UpdateReply
  internal_error : UpdateReply

abbrev pub reply_of : {Net : Type 0} → Net × Outcome → Net × UpdateReply
reply_of (net, ok) = (net, updated)
reply_of (net, err e) = (net, internal_error)

-- `create_headers` is whether the headers of the answer could be made.
module _ {Net Addr : Type 0} (aws : Aws Net) (ns : NameServer Net Addr) (node_id : Bytes → Bytes)
    (create_headers : Net → Bool) where
  unfoldable pub update_cluster : Option Manager → Net → Net × UpdateReply
  unfolding update
  update_cluster manager net =
      if create_headers net
      then (elim manager [
        | none ↦ (net, not_updated)
        | some m ↦ reply_of (update aws ns node_id m net)
      ])
      else (net, internal_error)

  reply_of-updated : (p : Net × Outcome) → ((reply_of p).1 ≡ updated) ↔ (p.1 ≡ ok)
  reply_of-updated (net, ok) = (λ e. refl, λ e. refl)
  reply_of-updated (net, err f) = (λ e. cc, λ e. cc)

  reason :
      (manager : Option Manager) (net : Net)
      → (update_cluster manager net).1 ≡ updated
      → (m : Manager) × (manager ≡ some m)
        × (create_headers net ≡ true)
        × ((update aws ns node_id m net).1 ≡ ok)
  unfolding update_cluster
  reason none net e = absurd (ground arith)
  reason (some m) net e = elim (Bool-cases (create_headers net)) [
    | inl h ↦ (m, refl, h, (reply_of-updated (update aws ns node_id m net)).0 (rw h at e))
    | inr h ↦ absurd (differ (rw h at e))
  ]
    where
      differ : internal_error ≡ updated → ⊥
      differ k = cc

  -- The request is answered with "update" true exactly if its headers can be made and there is a
  -- manager whose update succeeded; and without a manager nothing outside is changed.
  update_cluster-updated :
      (manager : Option Manager) (net : Net)
      → (((update_cluster manager net).1 ≡ updated) ↔ (
          (m : Manager) × (manager ≡ some m)
          × (create_headers net ≡ true)
          × ((update aws ns node_id m net).1 ≡ ok)))
        × ((update_cluster none net).0 ≡ net)
  unfolding update_cluster
  update_cluster-updated manager net = ((λ e. reason manager net e, λ p. back p), quiet)
    where
      back :
          (m : Manager) × (manager ≡ some m)
            × (create_headers net ≡ true)
            × ((update aws ns node_id m net).1 ≡ ok)
          → (update_cluster manager net).1 ≡ updated
      back (m, e, h, o) =
          rw (e, h, update_cluster) ((reply_of-updated (update aws ns node_id m net)).1 o)

      quiet : (update_cluster none net).0 ≡ net
      quiet = ground arith

-- A header of a request, `none` if it is missing, `some none` if it is not text.
abbrev pub header_text : Option (Option Bytes) → Bytes
header_text none = codes "-"
header_text (some v) = unwrap_or v []

-- A request as far as it is logged.
pub record LoggedRequest : Type 0 where
  pub method : Bytes
  pub uri : Bytes
  pub user_agent : Option (Option Bytes)
  pub referer : Option (Option Bytes)
  pub x_forwarded_for : Option (Option Bytes)

-- The line that `log_middleware` writes, if there is a logger, after the answer with the status.
unfoldable pub log_middleware : Bool → LoggedRequest → Bytes → List Bytes
log_middleware logger req status =
    if logger
    then (status
        ++ codes " "
        ++ req.method
        ++ codes " "
        ++ req.uri
        ++ codes " "
        ++ header_text req.user_agent
        ++ codes " "
        ++ header_text req.referer
        ++ codes " "
        ++ header_text req.x_forwarded_for)
      ∷ []
    else []
