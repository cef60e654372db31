-- ===== src/Hub/State/UrlThreads/Entering.antt =====
-- The steps of `add_connection` on the URL's entry and of the `add_connection` of its `UrlData`.
use verse_entrance_server.Base.{
  ℕ, ◌+◌, ◌≤◌, ◌<◌, max, ◌≡◌, refl, sym, ap, subst, ◌∙◌, ◌⊎◌, inl, inr, Bool, true, false, Option,
  none, some, [], ◌∷◌, arith, leb, ◌==◌, leb-false, ==_iff, Bytes, bytes_eq_refl, lookup, set,
  set_ind, if_ind, none_some, some_inj, bytes_eq_other,
}
use verse_entrance_server.Hub.State.Sessions.{IsDistinct, append-IsDistinct}
use verse_entrance_server.Hub.State.Threads.Sums.{flag, through}
use verse_entrance_server.Hub.State.UrlThreads.{
  Tally, Shared, Phase, idle, adding, occupied, loaded, counted, Call, mark, with_client,
  empty_tally, new_tally, open_entry, act,
}
use verse_entrance_server.Hub.State.UrlThreads.Lists.{through-append, lookup-append}
use verse_entrance_server.Hub.State.UrlThreads.Facts.{
  held, leaving, nowhere, Stands, Rests, Sound, Moved,
}
use verse_entrance_server.Hub.State.UrlThreads.Steps.{quiet, touch, stands_at}
use verse_entrance_server.Hub.State.UrlThreads.Begin.{mark_self, mark_other}

flag_le : (b : Bool) → flag b ≤ 1
flag_le true = omega arith
flag_le false = omega arith

held_self : (u : ℕ) (sid : Bytes) → held u (counted sid u) ≡ 1
held_self u sid = rw ((==_iff u u).1 refl) refl

held_other : (u v : ℕ) (sid : Bytes) → (u == v) ≡ false → 0 ≡ held v (counted sid u)
held_other u v sid e = rw e refl

module _ (limit : ℕ) (m : Shared) (sound : Sound limit m) (c : Call) (sid : Bytes)
    (gone : m.connected sid ≡ false) (clear : Stands m sid nowhere) where
  -- What is so of the own session is so of the session that the phase names.
  own :
      (P : Bytes → Type 0)
      → P sid
      → (other : Bytes) → ◌≡◌ {A = Option Bytes} (some sid) (some other)
      → P other
  own P h other e = subst P (some_inj e) h

  vacant :
      m.entry ≡ none
      → Moved limit c m (adding sid) (open_entry m sid none).0 (open_entry m sid none).1
  unfolding lookup
  vacant free = record {
    sound = record {
      distinct =
          set_ind (λ v t. IsDistinct t.clients) m.heap m.fresh (new_tally sid) (refl, tt)
            (λ v e. sound.distinct v);
      fits =
          set_ind (λ v t. t.client_count ≤ max 1 limit) m.heap m.fresh (new_tally sid) (omega arith)
            (λ v e. sound.fits v);
      unused =
          set_ind (λ v t. m.fresh + 1 ≤ v → t ≡ empty_tally) m.heap m.fresh (new_tally sid)
            (λ h. absurd (omega arith)) (λ v e h. sound.unused v (omega arith));
      young = λ u e. omega (arith, some_inj e);
    };
    good = tt;
    account =
        set_ind
          (λ v t.
            t.client_count + 0 + through (m.heap v).clients
            ≡ (m.heap v).client_count + 0 + through t.clients)
          m.heap m.fresh (new_tally sid) (omega (arith, no_count, no_clients)) (λ v e. refl);
    lock = refl;
    others = λ other n n'. (
      mark_other sid other true m.connected n,
      set_ind (λ v t. lookup other t.clients ≡ lookup other (m.heap v).clients) m.heap m.fresh
          (new_tally sid)
          (rw (bytes_eq_other sid other n)
            (sym (ap (λ (t : Tally). lookup other t.clients) (sound.unused m.fresh (omega arith)))))
          (λ v e. refl),
    );
    entry_kept = λ u e. absurd (none_some (sym free ∙ e));
    empties =
        set_ind
          (λ v t.
            ◌≡◌ {A = Option ℕ} (some m.fresh) (some v)
            → t.client_count ≡ 0
            → (false ≡ true)
              ⊎ ((m.entry ≡ some v)
                  × ((m.heap v).client_count ≡ 0)
                  × (leaving (adding sid) ≡ false)))
          m.heap m.fresh (new_tally sid) (λ e z. absurd (omega arith))
          (λ v n e z. absurd (apart v n (some_inj e)));
    rests = λ other e n. own (λ k. Rests (open_entry m sid none).0 k) listed other e;
    stays = λ other e. absurd (none_some e);
  }
    where
      no_count : (m.heap m.fresh).client_count ≡ 0
      no_count = ap (λ (t : Tally). t.client_count) (sound.unused m.fresh (omega arith))

      no_clients : through (m.heap m.fresh).clients ≡ 0
      no_clients = ap (λ (t : Tally). through t.clients) (sound.unused m.fresh (omega arith))

      apart : (v : ℕ) → (m.fresh == v) ≡ false → m.fresh ≡ v → ⊥
      apart v e f = absurd (ground arith)

      listed : Rests (open_entry m sid none).0 sid
      listed = inl (
        mark_self sid true m.connected,
        (
          m.fresh,
          refl,
          stands_at limit m sound sid m.fresh (new_tally sid) true (rw (bytes_eq_refl sid) refl)
              (λ v e. clear v),
        ),
      )

  opens_entry :
      (o : Option ℕ)
      → m.entry ≡ o
      → m.locked ≡ false
      → Moved limit c m (adding sid) (open_entry m sid o).0 (open_entry m sid o).1
  opens_entry none e free = vacant e
  opens_entry (some u) e free =
      quiet limit m sound c (adding sid) (occupied sid u) true m.connected (gone, clear, e)
        (λ v. refl) (omega (arith, ap (λ (b : Bool). flag b) free)) (λ other d d'. refl) refl
        (λ other f n. absurd (n f)) (λ other f. inl f)

  pub adds :
      Moved limit c m (adding sid) (act limit m (adding sid) c).0 (act limit m (adding sid) c).1
  unfolding act
  adds =
      if_ind (λ (r : Shared × Phase). Moved limit c m (adding sid) r.0 r.1) m.locked (m, adding sid)
        (open_entry m sid m.entry)
        (λ held.
          quiet limit m sound c (adding sid) (adding sid) m.locked m.connected (gone, clear)
            (λ v. refl) refl (λ other d d'. refl) refl (λ other f n. absurd (n f))
            (λ other f. inl f))
        (λ free. opens_entry m.entry refl free)

  module _ (u : ℕ) (entry : m.entry ≡ some u) (mine : 1 ≤ flag m.locked) where
    release : flag false + 1 ≡ flag m.locked + 0
    release = omega (arith, flag_le m.locked)

    pub asks :
        Moved limit c m
          (occupied sid u)
          (act limit m (occupied sid u) c).0
          (act limit m (occupied sid u) c).1
    unfolding act
    asks =
        if_ind (λ (r : Shared × Phase). Moved limit c m (occupied sid u) r.0 r.1)
          (leb limit (m.heap u).client_count) (record m { locked = false }, idle)
          (m, loaded sid u (m.heap u).client_count)
          (λ full.
            quiet limit m sound c (occupied sid u) idle false m.connected tt (λ v. refl) release
              (λ other d d'. refl) refl
              (λ other f n.
                own (λ k. Rests (record m { locked = false }) k) (inr (gone, clear)) other f)
              (λ other f. absurd (none_some f)))
          (λ room.
            quiet limit m sound c (occupied sid u) (loaded sid u (m.heap u).client_count) m.locked
              m.connected (gone, clear, entry, leb-false _ _ room) (λ v. refl) refl
              (λ other d d'. refl) refl (λ other f n. absurd (n f)) (λ other f. inl f))

    pub counts :
        (n : ℕ)
        → n < limit
        → Moved limit c m
            (loaded sid u n)
            (act limit m (loaded sid u n) c).0
            (act limit m (loaded sid u n) c).1
    unfolding act
    counts n room =
        if_ind (λ (r : Shared × Phase). Moved limit c m (loaded sid u n) r.0 r.1)
          ((m.heap u).client_count == n) (record m { heap = set m.heap u more }, counted sid u)
          (m, occupied sid u)
          (λ same.
            touch limit m sound c (loaded sid u n) (counted sid u) m.locked m.connected u more
              (sound.young u entry) (sound.distinct u) (omega arith)
              (
                gone,
                set_ind (λ v t. lookup sid t.clients ≡ none) m.heap u more (clear u)
                    (λ v e. clear v),
                entry,
              )
              (omega (arith, held_self u sid, (==_iff (m.heap u).client_count n).0 same))
              (λ v e. held_other u v sid e) refl (λ other d d'. (refl, refl))
              (inr (refl, λ z. absurd (omega arith))) (λ other f d. absurd (d f))
              (λ other f. inl f))
          (λ changed.
            quiet limit m sound c (loaded sid u n) (occupied sid u) m.locked m.connected
              (gone, clear, entry) (λ v. refl) refl (λ other d d'. refl) refl
              (λ other f d. absurd (d f)) (λ other f. inl f))
      where
        more : Tally
        more = record { client_count = n + 1; clients = (m.heap u).clients }

    pub registers :
        Moved limit c m
          (counted sid u)
          (act limit m (counted sid u) c).0
          (act limit m (counted sid u) c).1
    unfolding act
    registers =
        touch limit m sound c (counted sid u) idle false (mark sid true m.connected) u
          (with_client (m.heap u) sid) (sound.young u entry)
          (append-IsDistinct sid true (m.heap u).clients (clear u) (sound.distinct u))
          (sound.fits u) tt
          (omega (arith, held_self u sid, through-append (m.heap u).clients ((sid, true) ∷ [])))
          (λ v e. sym (held_other u v sid e)) release
          (λ other d d'. (
            mark_other sid other true m.connected d,
            rw
                (
                  lookup-append other sid true (m.heap u).clients (clear u),
                  bytes_eq_other sid other d,
                )
                refl,
          ))
          (inr (refl, λ z. z))
          (λ other f d. own (λ k. Rests (act limit m (counted sid u) c).0 k) listed other f)
          (λ other f. absurd (none_some f))
      where
        listed : Rests (act limit m (counted sid u) c).0 sid
        listed = inl (
          mark_self sid true m.connected,
          (
            u,
            entry,
            stands_at limit m sound sid u (with_client (m.heap u) sid) true
                (rw (lookup-append sid sid true (m.heap u).clients (clear u), bytes_eq_refl sid)
                  refl)
                (λ v e. clear v),
          ),
        )
