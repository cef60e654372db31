-- ===== src/Hub/State/Threads/Moves.antt =====
-- What one step of one thread does to the counter, to the map, and to its own session.
use verse_entrance_server.Base.{
  ℕ, ◌+◌, ◌≤◌, ◌≡◌, refl, sym, ap, subst, ◌∙◌, ◌≢◌, inl, inr, Bool, true, false, Option, none, some,
  arith, leb, ◌==◌, leb-false, ==_iff, Bool-cases, Option-cases, unwrap_or, usize_max, dec_u64,
  Bytes, lookup, insert, remove, none_some, some_inj, true_false,
}
use verse_entrance_server.Hub.State.Sessions.{IsDistinct, remove-IsDistinct}
use verse_entrance_server.Hub.State.Races.{insert-IsDistinct}
use verse_entrance_server.Hub.State.Threads.{
  Shared, Phase, idle, removing, taken, adding, loaded, counted, registered, refused, uncounted,
  Choice, enter, leave, go, after_removal, take_out, ask_url, begin, act, session, opens,
}
use verse_entrance_server.Hub.State.Threads.Facts.{
  held, Good, Moved, quiet, insert_elsewhere, remove_elsewhere, insert_here, remove_here,
  none-false, after_removal-Good, after_held, after_session,
}
use verse_entrance_server.Hub.State.Threads.Sums.{
  through-insert_missing, through-insert, through-remove,
}

module _ (limit : ℕ) (small : limit ≤ usize_max) (m : Shared)
    (distinct : IsDistinct m.connection_map) (fits : m.client_count ≤ limit) where
  begins :
      (c : Choice)
      → ((sid : Bytes) → session (begin c) ≡ some sid → lookup sid m.connection_map ≢ some false)
      → Moved limit c m idle m (begin c)
  begins (enter sid) h =
      quiet limit small m distinct fits (enter sid) idle (removing sid true) m.client_count
        (h sid refl) refl fits (λ other e. absurd (none_some e)) (λ other e. inr e)
  begins (leave sid) h =
      quiet limit small m distinct fits (leave sid) idle (removing sid false) m.client_count
        (h sid refl) refl fits (λ other e. absurd (none_some e)) (λ other e. inr e)
  begins (go answer) h =
      quiet limit small m distinct fits (go answer) idle idle m.client_count tt refl fits
        (λ other e f. e) (λ other e. inl e)

  takes :
      (c : Choice) (sid : Bytes) (again : Bool)
      → lookup sid m.connection_map ≢ some false
      → Moved limit c m (removing sid again) (take_out m sid again).0 (take_out m sid again).1
  takes c sid again good = elim (Option-cases (lookup sid m.connection_map)) [
    | inl e ↦ rw e (
        quiet limit small m distinct fits c (removing sid again) (after_removal sid again)
          m.client_count
          (after_removal-Good limit small m distinct fits sid again m.client_count m.connection_map
            e)
          (rw (after_held limit small m distinct fits sid again) refl) fits
          (λ other f g. absurd (good (rw (some_inj f) g)))
          (λ other f. inl (after_session limit small m distinct fits sid other again f)))
    | inr (false, e) ↦ absurd (good e)
    | inr (true, e) ↦ rw e (record {
      distinct = remove-IsDistinct sid m.connection_map distinct;
      good = remove_here limit small m distinct fits sid;
      account = omega (arith, through-remove sid m.connection_map true distinct e);
      fits = fits;
      others = λ other d. remove_elsewhere limit small m distinct fits sid other d;
      flagged = λ other f g. f;
      stays = λ other f. inl f;
    })
  ]

  asks :
      (c : Choice) (sid : Bytes)
      → lookup sid m.connection_map ≡ some false
      → Moved limit c m (registered sid) (ask_url m sid c).0 (ask_url m sid c).1
  asks (go true) sid good = record {
    distinct = insert-IsDistinct sid true m.connection_map distinct;
    good = tt;
    account = omega (arith, through-insert sid m.connection_map good);
    fits = fits;
    others = λ other d. insert_elsewhere limit small m distinct fits sid other true d;
    flagged = λ other e f. absurd (
        true-false (
          sym (insert_here limit small m distinct fits sid true)
          ∙ subst (λ (x : Bytes). lookup x (insert sid true m.connection_map) ≡ some false)
              (sym (some_inj e)) f));
    stays = λ other e. absurd (none_some e);
  }
    where
      true-false : ◌≡◌ {A = Option Bool} (some true) (some false) → ⊥
      true-false q = absurd (true_false (ap (λ (o : Option Bool). unwrap_or o true) q))
  asks (go false) sid good =
      quiet limit small m distinct fits (go false) (registered sid) (refused sid) m.client_count
        good refl fits (λ other e f. e) (λ other e. inl e)
  asks (enter k) sid good =
      quiet limit small m distinct fits (enter k) (registered sid) (refused sid) m.client_count good
        refl fits (λ other e f. e) (λ other e. inl e)
  asks (leave k) sid good =
      quiet limit small m distinct fits (leave k) (registered sid) (refused sid) m.client_count good
        refl fits (λ other e f. e) (λ other e. inl e)

  -- A subtraction that does not wrap.
  subtracts : (n : ℕ) → 1 ≤ n → n ≤ limit → (dec_u64 n + 1 ≡ n) × (dec_u64 n ≤ limit)
  subtracts n h l = (omega (arith, small), omega (arith, small))

  pub act-Moved :
      (p : Phase) (c : Choice)
      → Good limit m p
      → ((sid : Bytes) → opens p c ≡ some sid → lookup sid m.connection_map ≢ some false)
      → held p ≤ m.client_count
      → Moved limit c m p (act limit m p c).0 (act limit m p c).1
  unfolding act
  act-Moved idle c good new h = begins c new
  act-Moved (removing sid again) c good new h = takes c sid again good
  act-Moved (taken sid again) c good new h =
      let (back, low) = subtracts m.client_count h fits in
      quiet limit small m distinct fits c (taken sid again) (after_removal sid again)
        (dec_u64 m.client_count)
        (after_removal-Good limit small m distinct fits sid again (dec_u64 m.client_count)
          m.connection_map good)
        (rw (after_held limit small m distinct fits sid again) (omega (arith, back))) low
        (λ other e f.
          absurd (none-false limit small m distinct fits sid good (rw (← some_inj e) at f)))
        (λ other e. inl (after_session limit small m distinct fits sid other again e))
  act-Moved (adding sid) c good new h = elim (Bool-cases (leb limit m.client_count)) [
    | inl full ↦ rw full (
        quiet limit small m distinct fits c (adding sid) idle m.client_count tt refl fits
          (λ other e f.
            absurd (none-false limit small m distinct fits sid good (rw (← some_inj e) at f)))
          (λ other e. absurd (none_some e)))
    | inr room ↦ rw room (
        quiet limit small m distinct fits c (adding sid) (loaded sid m.client_count) m.client_count
          (good, leb-false _ _ room) refl fits (λ other e f. e) (λ other e. inl e))
  ]
  act-Moved (loaded sid n) c good new h = elim (Bool-cases (m.client_count == n)) [
    | inl same ↦
        let e : m.client_count ≡ n = (==_iff m.client_count n).0 same in
        rw same (
          quiet limit small m distinct fits c (loaded sid n) (counted sid) (n + 1) good.0
            (omega (arith, e)) (omega (arith, good.1)) (λ other f g. f) (λ other f. inl f))
    | inr changed ↦ rw changed (
        quiet limit small m distinct fits c (loaded sid n) (adding sid) m.client_count good.0 refl
          fits (λ other e f. e) (λ other e. inl e))
  ]
  act-Moved (counted sid) c good new h = record {
    distinct = insert-IsDistinct sid false m.connection_map distinct;
    good = insert_here limit small m distinct fits sid false;
    account = omega (arith, through-insert_missing sid m.connection_map good);
    fits = fits;
    others = λ other d. insert_elsewhere limit small m distinct fits sid other false d;
    flagged = λ other e f. e;
    stays = λ other e. inl e;
  }
  act-Moved (registered sid) c good new h = asks c sid good
  act-Moved (refused sid) c good new h =
      let (back, low) = subtracts m.client_count h fits in
      quiet limit small m distinct fits c (refused sid) (uncounted sid) (dec_u64 m.client_count)
        good (omega (arith, back)) low (λ other e f. e) (λ other e. inl e)
  act-Moved (uncounted sid) c good new h = record {
    distinct = remove-IsDistinct sid m.connection_map distinct;
    good = tt;
    account = omega (arith, through-remove sid m.connection_map false distinct good);
    fits = fits;
    others = λ other d. remove_elsewhere limit small m distinct fits sid other d;
    flagged = λ other e f. absurd (
        none-false' (
          sym (remove_here limit small m distinct fits sid)
          ∙ subst (λ (x : Bytes). lookup x (remove sid m.connection_map) ≡ some false)
              (sym (some_inj e)) f));
    stays = λ other e. absurd (none_some e);
  }
    where
      none-false' : ◌≡◌ {A = Option Bool} none (some false) → ⊥
      none-false' q = cc
