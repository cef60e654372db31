-- ===== src/Hub/Start/Missing.antt =====
-- What the start of the server (hubserv/src/main.rs) comes to without the settings of a cluster.
use verse_entrance_server.Base.{◌≡◌, sym, ap, ◌∙◌, ◌≢◌, none, some, arith, In, Bytes}
use verse_entrance_server.Hub.Args.{Args, set_other_args}
use verse_entrance_server.Hub.Args.Load.{Platform, load, load-set_other_args}
-- What `main` does about the name server. `panics` is an `unwrap` of a setting that is not given.
use verse_entrance_server.Hub.Start.{sets_arecord, panics, start, required}

module _ (node_id : Bytes → Bytes) where
  -- Settings as they are loaded, with a host and a public address: if one of the settings of a cluster
  -- is not given, the server panics.
  start-panics :
      (a : Args) (http_host public_ip : Bytes)
      → a.http_host ≡ some http_host
      → a.public_ip ≡ some public_ip
      → In none (required a)
      → start (set_other_args node_id a) ≡ panics
  unfolding start set_other_args
  start-panics a http_host public_ip e f m = rw (e, f, start, set_other_args) (ground arith)

  completed_never_sets :
      (a : Args) (http_host public_ip cf_email cf_api_key : Bytes)
      → start (set_other_args node_id a) ≢ sets_arecord http_host public_ip cf_email cf_api_key
  unfolding start set_other_args
  completed_never_sets a http_host public_ip cf_email cf_api_key e = ground arith

module _ {Env : Type 0} (p : Platform Env) (node_id : Bytes → Bytes) where
  -- Whatever settings are loaded, the server never sets the one record of a host without a cluster.
  pub start-never_sets :
      (env : Env) (a : Args) (http_host public_ip cf_email cf_api_key : Bytes)
      → load p node_id env ≡ some a
      → start a ≢ sets_arecord http_host public_ip cf_email cf_api_key
  start-never_sets env a http_host public_ip cf_email cf_api_key e f =
      let (b, g) = load-set_other_args p node_id env a e in
      completed_never_sets node_id b http_host public_ip cf_email cf_api_key
        (ap (λ (c : Args). start c) (sym g) ∙ f)
