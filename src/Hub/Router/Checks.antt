-- ===== src/Hub/Router/Checks.antt =====
-- When a request to enter passes the checks of `enter`.
use verse_entrance_server.Base.{
  ℕ, ◌≡◌, refl, ap, ◌≢◌, inl, inr, true, false, ◌||◌, Option, none, some, ◌==◌, if◌then◌else◌,
  Bool-cases, unwrap_or, length, Bytes, codes, if_ind,
}
use verse_entrance_server.Cluster.Node
use verse_entrance_server.Hub.State.{State, is_new_connection_available}
use verse_entrance_server.Hub.Redirect.{Verdict, proceed, forbidden, redirect, redirect_if_needed}
use verse_entrance_server.Hub.Types.{RequestPayload}
use verse_entrance_server.Hub.Router.{
  Response, ok, redirected, status, to_response, check_worker, admit,
}

pub status-ok : {code : ℕ} {sdp : Bytes} → status code ≡ ok sdp → ⊥
status-ok e = cc

redirected-ok : {url sdp : Bytes} → redirected url ≡ ok sdp → ⊥
redirected-ok e = cc

some_r-ok :
    {r : Response} {sdp : Bytes}
    → (r ≡ ok sdp → ⊥)
    → ◌≢◌ {A = Option Response} (some r) (some (ok sdp))
some_r-ok {r} h e = h (ap (λ (o : Option Response). unwrap_or o r) e)

none-ok : {sdp : Bytes} → ◌≢◌ {A = Option Response} none (some (ok sdp))
none-ok e = cc

module _ (to_hash : Bytes → ℕ) (cluster_client : Option Node.Client) (host : Bytes) where
  to_response-ok : (v : Verdict) (sdp : Bytes) → to_response v ≢ some (ok sdp)
  unfolding to_response
  to_response-ok proceed sdp = none-ok
  to_response-ok forbidden sdp = some_r-ok status-ok
  to_response-ok (redirect url) sdp = some_r-ok redirected-ok

  check_worker-ok :
      (c : Option Node.Client) (url path sdp : Bytes)
      → check_worker to_hash c host url path ≢ some (ok sdp)
  unfolding check_worker
  check_worker-ok none url path sdp = none-ok
  check_worker-ok (some c) url path sdp =
      to_response-ok (redirect_if_needed to_hash c host url path) sdp

  -- A request that passes the checks of `enter`.
  pub record Admitted (s : State) (payload : RequestPayload) : Type 0 where
    pub url_given : (length payload.url == 0) ≡ false
    pub body_given : (length payload.body == 0) ≡ false
    pub worker : check_worker to_hash cluster_client host payload.url (codes "/enter") ≡ none
    pub available : is_new_connection_available s payload.url ≡ true

  after_check :
      (s : State) (payload : RequestPayload) (o : Option Response)
      → check_worker to_hash cluster_client host payload.url (codes "/enter") ≡ o
      → (elim o [
        | some r ↦ some r
        | none ↦ if is_new_connection_available s payload.url then none else some (status 503)
      ])
        ≡ none
      → (o ≡ none) × (is_new_connection_available s payload.url ≡ true)
  after_check s payload (some r) e f = absurd (clash f)
    where
      clash : ◌≡◌ {A = Option Response} (some r) none → ⊥
      clash k = cc
  after_check s payload none e f = elim (Bool-cases (is_new_connection_available s payload.url)) [
    | inl there ↦ (refl, there)
    | inr gone ↦ absurd (clash (rw gone at f))
  ]
    where
      clash : ◌≡◌ {A = Option Response} (some (status 503)) none → ⊥
      clash k = cc

  pub admit-Admitted :
      (s : State) (payload : RequestPayload)
      → admit to_hash cluster_client s host payload ≡ none
      → Admitted s payload
  unfolding admit
  admit-Admitted s payload e = elim (Bool-cases (length payload.url == 0)) [
    | inl empty ↦ absurd (clash (rw empty at e))
    | inr u ↦ elim (Bool-cases (length payload.body == 0)) [
      | inl empty ↦ absurd (clash (rw (u, empty) at e))
      | inr b ↦
          let (w, v) =
            after_check s payload
              (check_worker to_hash cluster_client host payload.url (codes "/enter")) refl
              (rw (u, b) at e) in
          record { url_given = u; body_given = b; worker = w; available = v }
    ]
  ]
    where
      clash : ◌≡◌ {A = Option Response} (some (status 400)) none → ⊥
      clash k = cc

  pub Admitted-admit :
      (s : State) (payload : RequestPayload)
      → Admitted s payload
      → admit to_hash cluster_client s host payload ≡ none
  unfolding admit
  Admitted-admit s payload a = rw (a.url_given, a.body_given, a.worker, a.available) refl

  after_check-ok :
      (s : State) (payload : RequestPayload) (sdp : Bytes) (o : Option Response)
      → o ≢ some (ok sdp)
      → (elim o [
        | some r ↦ some r
        | none ↦ if is_new_connection_available s payload.url then none else some (status 503)
      ])
        ≢ some (ok sdp)
  after_check-ok s payload sdp (some r) h = h
  after_check-ok s payload sdp none h =
      if_ind (λ o. o ≢ some (ok sdp)) (is_new_connection_available s payload.url) none
        (some (status 503)) (λ e. none-ok) (λ e. some_r-ok status-ok)

  pub admit-ok :
      (s : State) (payload : RequestPayload) (sdp : Bytes)
      → admit to_hash cluster_client s host payload ≢ some (ok sdp)
  unfolding admit
  admit-ok s payload sdp =
      if_ind (λ o. o ≢ some (ok sdp)) ((length payload.url == 0) || (length payload.body == 0))
        (some (status 400))
        (elim (check_worker to_hash cluster_client host payload.url (codes "/enter")) [
          | some r ↦ some r
          | none ↦ if is_new_connection_available s payload.url then none else some (status 503)
        ])
        (λ e. some_r-ok status-ok)
        (λ e.
          after_check-ok s payload sdp
            (check_worker to_hash cluster_client host payload.url (codes "/enter"))
            (check_worker-ok cluster_client payload.url (codes "/enter") sdp))
