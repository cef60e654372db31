-- ===== src/Hub/State/UrlThreads/Kept.antt =====
-- What a thread may still rely on after another's step.
use verse_entrance_server.Base.{
  ℕ, ◌≤◌, ◌≡◌, refl, ap, ◌∙◌, ◌≢◌, ◌⊎◌, inl, inr, Bool, true, false, some, arith, Bytes, lookup,
}
use verse_entrance_server.Hub.State.Threads.Sums.{flag, through}
use verse_entrance_server.Hub.State.UrlThreads.{
  Shared, Phase, idle, adding, occupied, loaded, counted, removing, found, subtracted, retained,
  session,
}
use verse_entrance_server.Hub.State.UrlThreads.Lists.{through_positive}
use verse_entrance_server.Hub.State.UrlThreads.Facts.{
  holding, Spot, nowhere, at, Stands, Listed, Rests, Good, Sound,
}
use verse_entrance_server.Hub.State.UrlThreads.Steps.{here_some}

-- A list whose counter is 0 has no session that is counted.
module _ (limit : ℕ) (m : Shared) (sound : Sound limit m)
    (covers : (v : ℕ) → through (m.heap v).clients ≤ (m.heap v).client_count) where
  listed_positive : (sid : Bytes) (u : ℕ) → Stands m sid (at u true) → (m.heap u).client_count ≢ 0
  listed_positive sid u h z = absurd (
      omega (
        arith,
        covers u,
        through_positive sid (m.heap u).clients (here_some limit m sound sid u true h),
      ))

module _ (limit : ℕ) (m m' : Shared)
    (covers : (v : ℕ) → through (m.heap v).clients ≤ (m.heap v).client_count)
    (sound : Sound limit m)
    (kept : (u : ℕ)
      → m.entry ≡ some u
      → (m'.entry ≡ some u) ⊎ (((m.heap u).client_count ≡ 0) × (m.locked ≡ false))) where
  module _ (sid : Bytes) (same : m'.connected sid ≡ m.connected sid)
      (still : (v : ℕ) → lookup sid (m'.heap v).clients ≡ lookup sid (m.heap v).clients) where
    Stands-kept : (o : Spot) → Stands m sid o → Stands m' sid o
    Stands-kept o h v = still v ∙ h v

    entry-kept : (u : ℕ) → m.entry ≡ some u → Stands m sid (at u true) → m'.entry ≡ some u
    entry-kept u e h = elim (kept u e) [
      | inl f ↦ f
      | inr (z, free) ↦ absurd (listed_positive limit m sound covers sid u h z)
    ]

    Listed-kept : Listed m sid → Listed m' sid
    Listed-kept (u, e, h) = (u, entry-kept u e h, Stands-kept (at u true) h)

    pub Rests-kept : Rests m sid → Rests m' sid
    Rests-kept (inl (there, listed)) = inl (same ∙ there, Listed-kept listed)
    Rests-kept (inr (gone, clear)) = inr (same ∙ gone, Stands-kept nowhere clear)

  locked_kept : (u : ℕ) → m.entry ≡ some u → 1 ≤ flag m.locked → m'.entry ≡ some u
  locked_kept u e h = elim (kept u e) [
    | inl f ↦ f
    | inr (z, free) ↦ absurd (omega (arith, h, ap (λ (b : Bool). flag b) free))
  ]

  pub Good-kept :
      (p : Phase)
      → holding p ≤ flag m.locked
      → ((sid : Bytes)
          → session p ≡ some sid
          → (m'.connected sid ≡ m.connected sid)
            × ((v : ℕ) → lookup sid (m'.heap v).clients ≡ lookup sid (m.heap v).clients))
      → Good limit m p
      → Good limit m' p
  Good-kept idle h k g = tt
  Good-kept (adding sid) h k (gone, clear) =
      let (same, still) = k sid refl in (same ∙ gone, λ v. still v ∙ clear v)
  Good-kept (occupied sid u) h k (gone, clear, e) =
      let (same, still) = k sid refl in (same ∙ gone, λ v. still v ∙ clear v, locked_kept u e h)
  Good-kept (loaded sid u n) h k (gone, clear, e, room) =
      let (same, still) = k sid refl in
      (same ∙ gone, λ v. still v ∙ clear v, locked_kept u e h, room)
  Good-kept (counted sid u) h k (gone, clear, e) =
      let (same, still) = k sid refl in (same ∙ gone, λ v. still v ∙ clear v, locked_kept u e h)
  Good-kept (removing sid again) h k (gone, listed) =
      let (same, still) = k sid refl in (same ∙ gone, Listed-kept sid same still listed)
  Good-kept (found sid again u) h k (gone, e, here) =
      let (same, still) = k sid refl in
      (same ∙ gone, entry-kept sid same still u e here, λ v. still v ∙ here v)
  Good-kept (subtracted sid again u) h k (gone, here) =
      let (same, still) = k sid refl in (same ∙ gone, λ v. still v ∙ here v)
  Good-kept (retained sid again) h k (gone, clear) =
      let (same, still) = k sid refl in (same ∙ gone, λ v. still v ∙ clear v)
