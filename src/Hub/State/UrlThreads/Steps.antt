-- ===== src/Hub/State/UrlThreads/Steps.antt =====
-- Steps that leave the store alone, and steps that change one `UrlData`.
use verse_entrance_server.Base.{
  ℕ, ◌+◌, ◌≤◌, ◌<◌, max, ◌≡◌, refl, sym, ap, ◌∙◌, ◌≢◌, ◌⊎◌, inl, inr, Bool, true, false, none, some,
  arith, leb, ◌==◌, leb→le, leb-false, ==_iff, Bool-cases, Bytes, lookup, set, set_ind, none_some,
}
use verse_entrance_server.Hub.State.Sessions.{IsDistinct}
use verse_entrance_server.Hub.State.Threads.Sums.{flag, through}
use verse_entrance_server.Hub.State.UrlThreads.{
  Tally, Shared, Phase, Call, empty_tally, session, opens,
}
use verse_entrance_server.Hub.State.UrlThreads.Facts.{
  held, holding, leaving, at, seen, Stands, Rests, Good, Sound, Moved,
}

module _ (limit : ℕ) (m : Shared) (sound : Sound limit m) where
  -- A step that leaves the entry, the counters and the lists alone.
  pub quiet :
      (c : Call) (p p' : Phase) (b : Bool) (f : Bytes → Bool)
      → Good limit (record m { locked = b; connected = f }) p'
      → ((v : ℕ) → held v p ≡ held v p')
      → flag b + holding p ≡ flag m.locked + holding p'
      → ((sid : Bytes) → session p ≢ some sid → session p' ≢ some sid → f sid ≡ m.connected sid)
      → (leaving p ≡ leaving p')
      → ((sid : Bytes)
          → session p ≡ some sid
          → session p' ≢ some sid
          → Rests (record m { locked = b; connected = f }) sid)
      → ((sid : Bytes) → session p' ≡ some sid → (session p ≡ some sid) ⊎ (opens p c ≡ some sid))
      → Moved limit c m p (record m { locked = b; connected = f }) p'
  quiet c p p' b f good same lock same_connected same_leaving rests stays = record {
    sound = record {
      distinct = sound.distinct;
      fits = sound.fits;
      unused = sound.unused;
      young = sound.young;
    };
    good = good;
    account = λ v. omega (arith, same v);
    lock = lock;
    others = λ sid d d'. (same_connected sid d d', λ v. refl);
    entry_kept = λ u e. inl e;
    empties = λ u e z. elim (Bool-cases (leaving p)) [
      | inl l ↦ inl (sym same_leaving ∙ l)
      | inr l ↦ inr (e, z, l)
    ];
    rests = rests;
    stays = stays;
  }

  -- A step that changes one `UrlData`.
  pub touch :
      (c : Call) (p p' : Phase) (b : Bool) (f : Bytes → Bool) (u : ℕ) (d : Tally)
      → u < m.fresh
      → IsDistinct d.clients
      → d.client_count ≤ max 1 limit
      → Good limit (record m { heap = set m.heap u d; locked = b; connected = f }) p'
      → d.client_count + held u p + through (m.heap u).clients
        ≡ (m.heap u).client_count + held u p' + through d.clients
      → ((v : ℕ) → (u == v) ≡ false → held v p ≡ held v p')
      → flag b + holding p ≡ flag m.locked + holding p'
      → ((sid : Bytes)
          → session p ≢ some sid
          → session p' ≢ some sid
          → (f sid ≡ m.connected sid) × (lookup sid d.clients ≡ lookup sid (m.heap u).clients))
      → (leaving p' ≡ true)
        ⊎ ((leaving p ≡ false) × (d.client_count ≡ 0 → (m.heap u).client_count ≡ 0))
      → ((sid : Bytes)
          → session p ≡ some sid
          → session p' ≢ some sid
          → Rests (record m { heap = set m.heap u d; locked = b; connected = f }) sid)
      → ((sid : Bytes) → session p' ≡ some sid → (session p ≡ some sid) ⊎ (opens p c ≡ some sid))
      → Moved limit c m p (record m { heap = set m.heap u d; locked = b; connected = f }) p'
  touch c p p' b f u d below distinct fits good here elsewhere lock other leaves rests stays =
      record {
        sound = record {
          distinct =
              set_ind (λ v t. IsDistinct t.clients) m.heap u d distinct (λ v e. sound.distinct v);
          fits =
              set_ind (λ v t. t.client_count ≤ max 1 limit) m.heap u d fits (λ v e. sound.fits v);
          unused =
              set_ind (λ v t. m.fresh ≤ v → t ≡ empty_tally) m.heap u d (λ h. absurd (omega arith))
                (λ v e. sound.unused v);
          young = sound.young;
        };
        good = good;
        account =
            set_ind
              (λ v t.
                t.client_count + held v p + through (m.heap v).clients
                ≡ (m.heap v).client_count + held v p' + through t.clients)
              m.heap u d here (λ v e. omega (arith, elsewhere v e));
        lock = lock;
        others = λ sid n n'. (
          (other sid n n').0,
          set_ind (λ v t. lookup sid t.clients ≡ lookup sid (m.heap v).clients) m.heap u d
              (other sid n n').1 (λ v e. refl),
        );
        entry_kept = λ v e. inl e;
        empties =
            set_ind
              (λ v t.
                m.entry ≡ some v
                → t.client_count ≡ 0
                → (leaving p' ≡ true)
                  ⊎ ((m.entry ≡ some v) × ((m.heap v).client_count ≡ 0) × (leaving p ≡ false)))
              m.heap u d (λ e z. elim leaves [ inl l ↦ inl l | inr (l, h) ↦ inr (e, h z, l) ])
              (λ v n e z. elim leaves [ inl l ↦ inl l | inr (l, h) ↦ inr (e, z, l) ]);
        rests = rests;
        stays = stays;
      }

  -- Where a session stands when one list has changed.
  pub stands_at :
      (sid : Bytes) (u : ℕ) (d : Tally) (b : Bool)
      → lookup sid d.clients ≡ some b
      → ((v : ℕ) → (u == v) ≡ false → lookup sid (m.heap v).clients ≡ none)
      → (v : ℕ) → lookup sid (set m.heap u d v).clients ≡ seen (at u b) v
  stands_at sid u d b e far =
      set_ind (λ v t. lookup sid t.clients ≡ seen (at u b) v) m.heap u d
        (rw ((==_iff u u).1 refl) e) (λ v n. rw n (far v n))

  pub stands_nowhere :
      (sid : Bytes) (u : ℕ) (d : Tally)
      → lookup sid d.clients ≡ none
      → ((v : ℕ) → (u == v) ≡ false → lookup sid (m.heap v).clients ≡ none)
      → (v : ℕ) → lookup sid (set m.heap u d v).clients ≡ none
  stands_nowhere sid u d e far = set_ind (λ v t. lookup sid t.clients ≡ none) m.heap u d e far

  pub elsewhere_none :
      (sid : Bytes) (u : ℕ) (b : Bool)
      → Stands m sid (at u b)
      → (v : ℕ) → (u == v) ≡ false
      → lookup sid (m.heap v).clients ≡ none
  elsewhere_none sid u b h v e = rw e at (h v)

  pub here_some :
      (sid : Bytes) (u : ℕ) (b : Bool)
      → Stands m sid (at u b)
      → lookup sid (m.heap u).clients ≡ some b
  here_some sid u b h = rw ((==_iff u u).1 refl) at (h u)

  -- A list that has a session is in use.
  pub listed_young : (sid : Bytes) (u : ℕ) (b : Bool) → Stands m sid (at u b) → u < m.fresh
  unfolding lookup
  listed_young sid u b h = elim (Bool-cases (leb m.fresh u)) [
    | inr e ↦ leb-false _ _ e
    | inl e ↦ absurd (
        none_some (
          sym (ap (λ (t : Tally). lookup sid t.clients) (sound.unused u (leb→le _ _ e)))
          ∙ here_some sid u b h))
  ]
