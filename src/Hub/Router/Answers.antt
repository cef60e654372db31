-- ===== src/Hub/Router/Answers.antt =====
-- When a request to enter is answered with a session description.
use verse_entrance_server.Base.{
  ℕ, ◌≡◌, refl, ap, ◌∙◌, ◌↔◌, Bool, true, false, Option, none, some, [], Bytes,
}
use verse_entrance_server.Cluster.Node
use verse_entrance_server.Hub.Client.{Client}
use verse_entrance_server.Hub.State.{State}
use verse_entrance_server.Hub.State.Runs.{enter_session}
use verse_entrance_server.Hub.Types.{RequestPayload}
use verse_entrance_server.Hub.Router.{
  Response, ok, redirected, status, Setup, answer, refused, timed_out, Entered, admit, settle,
  conclude, set_up, enter,
}
use verse_entrance_server.Hub.Router.SetUp.{
  Negotiation, setup_pc, with_timeout, Negotiated, setup_pc-Negotiated, Negotiated-setup_pc,
  with_timeout-answer,
}
use verse_entrance_server.Hub.Router.Checks.{
  status-ok, Admitted, admit-Admitted, Admitted-admit, admit-ok,
}

ok_inj : {a b : Bytes} → ok a ≡ ok b → a ≡ b
ok_inj {a} e = ap (body_of a) e
  where
    body_of : Bytes → Response → Bytes
    body_of d (ok body) = body
    body_of d (redirected url) = d
    body_of d (status code) = d

settle-ok :
    (p : State × Bool) (cd : Client) (sdp sdp' : Bytes)
    → (settle p cd sdp).response ≡ ok sdp'
    → (p.1 ≡ true) × (sdp ≡ sdp')
unfolding settle
settle-ok (t, true) cd sdp sdp' e = (refl, ok_inj e)
settle-ok (t, false) cd sdp sdp' e = absurd (status-ok e)

conclude-ok :
    (s : State) (cd : Client) (setup : Setup) (sdp : Bytes)
    → (conclude s cd setup).response ≡ ok sdp
    → (setup ≡ answer sdp) × ((enter_session s cd).1 ≡ true)
unfolding conclude
conclude-ok s cd timed_out sdp e = absurd (status-ok e)
conclude-ok s cd (refused code) sdp e = absurd (status-ok e)
conclude-ok s cd (answer a) sdp e =
    let (entered, same) = settle-ok (enter_session s cd) cd a sdp e in
    (ap (λ (b : Bytes). answer b) same, entered)

settle-true :
    (p : State × Bool) (cd : Client) (sdp : Bytes)
    → p.1 ≡ true
    → settle p cd sdp ≡ record { state = p.0; response = ok sdp; closed = [] }
unfolding settle
settle-true (t, true) cd sdp e = refl
settle-true (t, false) cd sdp e = absurd (clash e)
  where
    clash : false ≡ true → ⊥
    clash k = cc

module _ (to_hash : Bytes → ℕ) (cluster_client : Option Node.Client) (host : Bytes) where
  -- Everything that a request to enter needs: it is verified and admitted, a peer connection is made, the
  -- negotiation gives the description in time, and the client can be added.
  pub record Accepted (verified : Option (Bytes × RequestPayload)) (before : State)
      (created : Option (ℕ × ℕ)) (in_time : Bool) (n : Negotiation) (s : State) (sdp : Bytes)
      : Type 0 where
    pub session_id : Bytes
    pub payload : RequestPayload
    pub address : ℕ
    pub pc : ℕ
    pub is_verified : verified ≡ some (session_id, payload)
    pub is_admitted : Admitted to_hash cluster_client host before payload
    pub is_created : created ≡ some (address, pc)
    pub is_in_time : in_time ≡ true
    pub is_negotiated : Negotiated n sdp
    pub is_added :
        (enter_session s
          (record { address = address; session_id = session_id; pc = pc; url = payload.url })).1
        ≡ true

  set_up-Accepted :
      (sid : Bytes) (payload : RequestPayload) (before : State) (created : Option (ℕ × ℕ))
      (in_time : Bool) (n : Negotiation) (s : State) (sdp : Bytes) (r : Option Response)
      → admit to_hash cluster_client before host payload ≡ r
      → (set_up r sid payload created (with_timeout in_time (setup_pc n)) s).response ≡ ok sdp
      → Accepted (some (sid, payload)) before created in_time n s sdp
  unfolding set_up
  set_up-Accepted sid payload before created in_time n s sdp (some r) a e = absurd (
      admit-ok to_hash cluster_client host before payload sdp (a ∙ ap (λ (x : Response). some x) e))
  set_up-Accepted sid payload before none in_time n s sdp none a e = absurd (status-ok e)
  set_up-Accepted sid payload before (some (address, pc)) in_time n s sdp none a e =
      let cd : Client = record {
        address = address;
        session_id = sid;
        pc = pc;
        url = payload.url;
      } in
      let (f, added) = conclude-ok s cd (with_timeout in_time (setup_pc n)) sdp e in
      let (t, g) = with_timeout-answer in_time (setup_pc n) sdp f in
      record {
        session_id = sid;
        payload = payload;
        address = address;
        pc = pc;
        is_verified = refl;
        is_admitted = admit-Admitted to_hash cluster_client host before payload a;
        is_created = refl;
        is_in_time = t;
        is_negotiated = setup_pc-Negotiated n sdp g;
        is_added = added;
      }

  enter-Accepted :
      (verified : Option (Bytes × RequestPayload)) (before : State) (created : Option (ℕ × ℕ))
      (in_time : Bool) (n : Negotiation) (s : State) (sdp : Bytes)
      → (enter to_hash cluster_client host verified before created
          (with_timeout in_time (setup_pc n))
          s).response
        ≡ ok sdp
      → Accepted verified before created in_time n s sdp
  unfolding enter
  enter-Accepted none before created in_time n s sdp e = absurd (status-ok e)
  enter-Accepted (some (sid, payload)) before created in_time n s sdp e =
      set_up-Accepted sid payload before created in_time n s sdp
        (admit to_hash cluster_client before host payload) refl e

  conclude-answer :
      (s : State) (cd : Client) (setup : Setup) (sdp : Bytes)
      → setup ≡ answer sdp
      → (enter_session s cd).1 ≡ true
      → (conclude s cd setup).response ≡ ok sdp
  unfolding conclude
  conclude-answer s cd setup sdp e h =
      ap (λ (x : Setup). (conclude s cd x).response) e
      ∙ ap (λ (x : Entered). x.response) (settle-true (enter_session s cd) cd sdp h)

  Accepted-enter :
      (verified : Option (Bytes × RequestPayload)) (before : State) (created : Option (ℕ × ℕ))
      (in_time : Bool) (n : Negotiation) (s : State) (sdp : Bytes)
      → Accepted verified before created in_time n s sdp
      → (enter to_hash cluster_client host verified before created
          (with_timeout in_time (setup_pc n))
          s).response
        ≡ ok sdp
  unfolding enter set_up with_timeout
  Accepted-enter verified before created in_time n s sdp a =
      rw (a.is_verified, a.is_created, a.is_in_time)
        (ap
            (λ (r : Option Response).
              (set_up r a.session_id a.payload (some (a.address, a.pc)) (setup_pc n) s).response)
            (Admitted-admit to_hash cluster_client host before a.payload a.is_admitted)
          ∙ conclude-answer s
              (record {
                address = a.address;
                session_id = a.session_id;
                pc = a.pc;
                url = a.payload.url;
              })
              (setup_pc n) sdp (Negotiated-setup_pc n sdp a.is_negotiated) a.is_added)

  -- A request to enter is answered with a session description exactly if the request is verified, its
  -- URL and body are not empty, the server is in no cluster or its node is the one for the URL, a
  -- connection is available, the peer connection is made, the negotiation gives that description in
  -- time, and the client can be added.
  pub enter-ok_iff :
      (verified : Option (Bytes × RequestPayload)) (before : State) (created : Option (ℕ × ℕ))
      (in_time : Bool) (n : Negotiation) (s : State) (sdp : Bytes)
      → ((enter to_hash cluster_client host verified before created
            (with_timeout in_time (setup_pc n))
            s).response
          ≡ ok sdp)
        ↔ Accepted verified before created in_time n s sdp
  enter-ok_iff verified before created in_time n s sdp = (
    enter-Accepted verified before created in_time n s sdp,
    Accepted-enter verified before created in_time n s sdp,
  )
