-- ===== src/Hub/Args/Load.antt =====
-- `Args::load` of hubserv/src/args.rs: the command line and the environment are read, secrets are put
-- into the environment, and both are read again.
use verse_entrance_server.Base.{
  ◌≡◌, sym, ap, inl, inr, Option, none, some, List, [], ◌∷◌, if◌then◌else◌, Option-cases, unwrap_or,
  Bytes, codes,
}
use verse_entrance_server.Hub.Args.{Args, replace_tags, replace, set_other_args}

-- The crates and services it uses, in a state `Env` of the process: `clap`, the EC2 tags, and the
-- secret store. A request or a reading that fails is `none`.
pub record Platform (Env : Type 0) : Type 0 where
  pub parse : Env → Args
  pub ec2_tags : Env → Bytes → Option Bytes → Option (List (Option Bytes × Option Bytes))
  pub secret_string : Env → Bytes → Option Bytes → Option (Option Bytes)
  pub from_json : Bytes → Option (List (Bytes × Bytes))
  pub to_uppercase : Bytes → Bytes
  pub set_var : Env → Bytes → Bytes → Env

-- The loop over the tags of a page; a tag without a key or a value is passed over.
abbrev pub whole_tags : List (Option Bytes × Option Bytes) → List (Bytes × Bytes)
whole_tags [] = []
whole_tags ((some key, some value) ∷ tags) = (key, value) ∷ whole_tags tags
whole_tags ((some key, none) ∷ tags) = whole_tags tags
whole_tags ((none, value) ∷ tags) = whole_tags tags

module _ {Env : Type 0} (p : Platform Env) where
  unfoldable pub load_ec2_tags : Env → Bytes → Option Bytes → Option (List (Bytes × Bytes))
  load_ec2_tags env instance_id region = elim (p.ec2_tags env instance_id region) [
    | none ↦ none
    | some tags ↦ some (whole_tags tags)
  ]

  abbrev pub set_vars : Env → List (Bytes × Bytes) → Env
  set_vars env [] = env
  set_vars env ((k, v) ∷ js) =
      set_vars (p.set_var env (p.to_uppercase (replace k (codes "-") (codes "_"))) v) js

  unfoldable pub load_secrets : Env → Bytes → Option Bytes → Option Env
  load_secrets env secret_name region = elim (p.secret_string env secret_name region) [
    | none ↦ none
    | some none ↦ some env
    | some (some secret) ↦ elim (p.from_json secret) [
      | none ↦ none
      | some js ↦ some (set_vars env js)
    ]
  ]

  unfoldable pub load_to_env : Args → Env → Option Env
  unfolding load_secrets
  load_to_env a env =
      if a.aws_secretsmanager_enabled
      then (elim a.aws_secretsmanager_name [
        | none ↦ some env
        | some secret_name ↦ load_secrets env secret_name a.aws_secretsmanager_region
      ])
      else some env

  abbrev pub tags_of : Args → Env → Option (List (Bytes × Bytes))
  tags_of a env = elim a.aws_ec2_instance_id [
    | none ↦ some []
    | some instance_id ↦ load_ec2_tags env instance_id a.aws_ec2_region
  ]

  abbrev pub replaced : Option Bytes → List (Bytes × Bytes) → Option Bytes
  replaced none tags = none
  replaced (some v) tags = some (replace_tags v tags)

  abbrev pub tagged : Args → List (Bytes × Bytes) → Args
  tagged a tags = record a {
    aws_secretsmanager_name = replaced a.aws_secretsmanager_name tags;
    aws_secretsmanager_region = replaced a.aws_secretsmanager_region tags;
  }

  module _ (node_id : Bytes → Bytes) where
    -- `Args::load`
    unfoldable pub load : Env → Option Args
    unfolding load_to_env set_other_args
    load env = elim (tags_of (p.parse env) env) [
      | none ↦ none
      | some tags ↦ elim (load_to_env (tagged (p.parse env) tags) env) [
        | none ↦ none
        | some env' ↦ some (set_other_args node_id (p.parse env'))
      ]
    ]

    -- What is loaded was completed by `set_other_args`.
    pub load-set_other_args :
        (env : Env) (a : Args) → load env ≡ some a → (b : Args) × (a ≡ set_other_args node_id b)
    unfolding load
    load-set_other_args env a e = elim (Option-cases (tags_of (p.parse env) env)) [
      | inl f ↦ absurd (none-some (rw (f, load) at e))
      | inr (tags, f) ↦ elim (Option-cases (load_to_env (tagged (p.parse env) tags) env)) [
        | inl g ↦ absurd (none-some (rw (f, g, load) at e))
        | inr (env', g) ↦
            let h : ◌≡◌ {A = Option Args} (some (set_other_args node_id (p.parse env'))) (some a) =
              rw (f, g, load) at e in
            (p.parse env', ap (λ (o : Option Args). unwrap_or o a) (sym h))
      ]
    ]
      where
        none-some : ◌≡◌ {A = Option Args} none (some a) → ⊥
        none-some k = cc
