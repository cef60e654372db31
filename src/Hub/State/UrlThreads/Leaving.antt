-- ===== src/Hub/State/UrlThreads/Leaving.antt =====
-- The steps of `remove_connection` on the URL's entry and of the `remove_connection` of its `UrlData`.
use verse_entrance_server.Base.{
  ℕ, ◌≤◌, ◌≡◌, refl, sym, ap, subst, ◌∙◌, ◌≢◌, ◌⊎◌, inl, inr, Bool, true, false, Option, none, some,
  arith, ◌==◌, ==_iff, Bool-cases, usize_max, dec_u64, Bytes, bytes_eq_refl, lookup, remove,
  lookup-remove, if_ind, none_some, some_inj, bytes_eq_other, false_true,
}
use verse_entrance_server.Hub.State.Sessions.{remove-IsDistinct}
use verse_entrance_server.Hub.State.Threads.Sums.{through, through-remove}
use verse_entrance_server.Hub.State.UrlThreads.{
  Tally, Shared, Phase, removing, found, subtracted, retained, Call, after_removal, uncount, find,
  drop_empty, act,
}
use verse_entrance_server.Hub.State.UrlThreads.Lists.{
  lookup-uncount_other, lookup-uncount, uncount-IsDistinct, through-uncount, through_positive,
}
use verse_entrance_server.Hub.State.UrlThreads.Facts.{
  nowhere, at, Stands, Listed, Rests, Sound, Moved,
}
use verse_entrance_server.Hub.State.UrlThreads.Steps.{
  quiet, touch, stands_at, stands_nowhere, elsewhere_none, here_some, listed_young,
}
use verse_entrance_server.Hub.State.UrlThreads.Begin.{
  after_Good, after_session, after_held, after_holding,
}

module _ (limit : ℕ) (m : Shared) (sound : Sound limit m) (c : Call) (sid : Bytes) (again : Bool)
    (gone : m.connected sid ≡ false) where
  -- A session that stands in the list of the entry's `UrlData` is found there.
  finds_entry :
      (o : Option ℕ)
      → m.entry ≡ o
      → Listed m sid
      → Moved limit c m (removing sid again) m (find sid again o)
  finds_entry none e (u, f, h) = absurd (none_some (sym e ∙ f))
  finds_entry (some u) e (v, f, h) =
      quiet limit m sound c (removing sid again) (found sid again u) m.locked m.connected
        (gone, e, subst (λ (k : ℕ). Stands m sid (at k true)) (some_inj (sym f ∙ e)) h) (λ v. refl)
        refl (λ other d d'. refl) refl (λ other g n. absurd (n g)) (λ other g. inl g)

  pub finds :
      Listed m sid
      → Moved limit c m
          (removing sid again)
          (act limit m (removing sid again) c).0
          (act limit m (removing sid again) c).1
  unfolding act
  finds listed =
      if_ind (λ (r : Shared × Phase). Moved limit c m (removing sid again) r.0 r.1) m.locked
        (m, removing sid again) (m, find sid again m.entry)
        (λ busy.
          quiet limit m sound c (removing sid again) (removing sid again) m.locked m.connected
            (gone, listed) (λ v. refl) refl (λ other d d'. refl) refl (λ other f n. absurd (n f))
            (λ other f. inl f))
        (λ free. finds_entry m.entry refl listed)

  pub subtracts :
      (u : ℕ)
      → limit ≤ usize_max
      → through (m.heap u).clients ≤ (m.heap u).client_count
      → Stands m sid (at u true)
      → Moved limit c m
          (found sid again u)
          (act limit m (found sid again u) c).0
          (act limit m (found sid again u) c).1
  unfolding act
  subtracts u small covers h =
      touch limit m sound c (found sid again u) (subtracted sid again u) m.locked m.connected u less
        (listed_young limit m sound sid u true h)
        (uncount-IsDistinct sid (m.heap u).clients (sound.distinct u))
        (omega (arith, small, sound.fits u, positive))
        (
          gone,
          stands_at limit m sound sid u less false (lookup-uncount sid true (m.heap u).clients here)
              (elsewhere_none limit m sound sid u true h),
        )
        (omega (
          arith,
          small,
          sound.fits u,
          positive,
          covers,
          through-uncount sid (m.heap u).clients (sound.distinct u) here,
        ))
        (λ v e. refl) refl
        (λ other d d'.
          (refl, lookup-uncount_other other sid (m.heap u).clients (bytes_eq_other sid other d)))
        (inl refl) (λ other f n. absurd (n f)) (λ other f. inl f)
    where
      less : Tally
      less = record {
        client_count = dec_u64 (m.heap u).client_count;
        clients = uncount sid (m.heap u).clients;
      }

      here : lookup sid (m.heap u).clients ≡ some true
      here = here_some limit m sound sid u true h

      positive : 1 ≤ through (m.heap u).clients
      positive = through_positive sid (m.heap u).clients here

  pub retains :
      (u : ℕ)
      → Stands m sid (at u false)
      → Moved limit c m
          (subtracted sid again u)
          (act limit m (subtracted sid again u) c).0
          (act limit m (subtracted sid again u) c).1
  unfolding act
  retains u h =
      touch limit m sound c (subtracted sid again u) (retained sid again) m.locked m.connected u
        less (listed_young limit m sound sid u false h)
        (remove-IsDistinct sid (m.heap u).clients (sound.distinct u)) (sound.fits u)
        (
          gone,
          stands_nowhere limit m sound sid u less
              (rw (lookup-remove sid sid (m.heap u).clients, bytes_eq_refl sid) refl)
              (elsewhere_none limit m sound sid u false h),
        )
        (omega (
          arith,
          through-remove sid (m.heap u).clients false (sound.distinct u)
              (here_some limit m sound sid u false h),
        ))
        (λ v e. refl) refl
        (λ other d d'.
          (refl, rw (lookup-remove sid other (m.heap u).clients, bytes_eq_other sid other d) refl))
        (inl refl) (λ other f n. absurd (n f)) (λ other f. inl f)
    where
      less : Tally
      less = record {
        client_count = (m.heap u).client_count;
        clients = remove sid (m.heap u).clients;
      }

  drop_empty-some :
      (heap : ℕ → Tally) (o : Option ℕ) (u : ℕ)
      → drop_empty heap o ≡ some u
      → (o ≡ some u) × ((heap u).client_count ≢ 0)
  drop_empty-some heap none u e = absurd (none_some e)
  drop_empty-some heap (some v) u e = elim (Bool-cases ((heap v).client_count == 0)) [
    | inl zero_count ↦ absurd (none_some (rw zero_count at e))
    | inr left ↦
        let f : ◌≡◌ {A = Option ℕ} (some v) (some u) = rw left at e in
        (f, λ z. kept v (some_inj f) left z)
  ]
    where
      kept : (w : ℕ) → w ≡ u → ((heap w).client_count == 0) ≡ false → (heap u).client_count ≡ 0 → ⊥
      kept w g left z = absurd (
          false_true (
            sym left
            ∙ (==_iff (heap w).client_count 0).1 (ap (λ (k : ℕ). (heap k).client_count) g ∙ z)))

  drop_empty-kept :
      (heap : ℕ → Tally) (o : Option ℕ) (u : ℕ)
      → o ≡ some u
      → (drop_empty heap o ≡ some u) ⊎ ((heap u).client_count ≡ 0)
  drop_empty-kept heap none u e = absurd (none_some e)
  drop_empty-kept heap (some v) u e = elim (Bool-cases ((heap v).client_count == 0)) [
    | inl zero_count ↦ inr (
        ap (λ (k : ℕ). (heap k).client_count) (sym (some_inj e))
        ∙ (==_iff (heap v).client_count 0).0 zero_count)
    | inr left ↦ inl (rw left e)
  ]

  drops :
      Stands m sid nowhere
      → m.locked ≡ false
      → Moved limit c m
          (retained sid again)
          (record m { entry = drop_empty m.heap m.entry })
          (after_removal sid again)
  drops clear free = record {
    sound = record {
      distinct = sound.distinct;
      fits = sound.fits;
      unused = sound.unused;
      young = λ u e. sound.young u (drop_empty-some m.heap m.entry u e).0;
    };
    good =
        after_Good limit m sound sid again (record m { entry = drop_empty m.heap m.entry }) gone
          clear;
    account = λ v. omega (arith, after_held limit m sound v sid again);
    lock = omega (arith, after_holding limit m sound sid again);
    others = λ other d d'. (refl, λ v. refl);
    entry_kept = λ u e. elim (drop_empty-kept m.heap m.entry u e) [
      | inl same ↦ inl same
      | inr none_left ↦ inr (none_left, free)
    ];
    empties = λ u e z. absurd ((drop_empty-some m.heap m.entry u e).1 z);
    rests = λ other f n.
        subst (λ (k : Bytes). Rests (record m { entry = drop_empty m.heap m.entry }) k) (some_inj f)
          (inr (gone, clear));
    stays = λ other f. inl (after_session limit m sound sid other again f);
  }

  pub looks :
      Stands m sid nowhere
      → Moved limit c m
          (retained sid again)
          (act limit m (retained sid again) c).0
          (act limit m (retained sid again) c).1
  unfolding act
  looks clear =
      if_ind (λ (r : Shared × Phase). Moved limit c m (retained sid again) r.0 r.1) m.locked
        (m, retained sid again)
        (record m { entry = drop_empty m.heap m.entry }, after_removal sid again)
        (λ busy.
          quiet limit m sound c (retained sid again) (retained sid again) m.locked m.connected
            (gone, clear) (λ v. refl) refl (λ other d d'. refl) refl (λ other f n. absurd (n f))
            (λ other f. inl f))
        (λ free. drops clear free)
