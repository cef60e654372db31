-- ===== src/Hub/State/UrlThreads/Begin.antt =====
-- How a thread begins a call.
use verse_entrance_server.Base.{
  ℕ, ◌≡◌, refl, sym, ◌∙◌, ◌≢◌, inl, inr, Bool, true, false, Option, some, arith, Bytes,
  bytes_eq_refl, none_some, bytes_eq_other,
}
use verse_entrance_server.Hub.State.UrlThreads.{
  Shared, idle, removing, Call, enter, leave, wait, after_removal, mark, disconnect, begin, session,
  named,
}
use verse_entrance_server.Hub.State.UrlThreads.Facts.{
  held, holding, leaving, nowhere, Stands, Rests, Good, Sound, Moved,
}
use verse_entrance_server.Hub.State.UrlThreads.Steps.{quiet}

pub mark_self : (sid : Bytes) (b : Bool) (f : Bytes → Bool) → mark sid b f sid ≡ b
mark_self sid b f = rw (bytes_eq_refl sid) refl

pub mark_other :
    (sid other : Bytes) (b : Bool) (f : Bytes → Bool)
    → ◌≢◌ {A = Option Bytes} (some sid) (some other)
    → mark sid b f other ≡ f other
mark_other sid other b f n = rw (bytes_eq_other sid other n) refl

module _ (limit : ℕ) (m : Shared) (sound : Sound limit m) where
  pub after_Good :
      (sid : Bytes) (again : Bool) (m' : Shared)
      → m'.connected sid ≡ false
      → Stands m' sid nowhere
      → Good limit m' (after_removal sid again)
  after_Good sid true m' e h = (e, h)
  after_Good sid false m' e h = tt

  pub after_session :
      (sid other : Bytes) (again : Bool)
      → session (after_removal sid again) ≡ some other
      → ◌≡◌ {A = Option Bytes} (some sid) (some other)
  after_session sid other true e = e
  after_session sid other false e = absurd (none_some e)

  pub after_held : (v : ℕ) (sid : Bytes) (again : Bool) → 0 ≡ held v (after_removal sid again)
  after_held v sid true = refl
  after_held v sid false = refl

  pub after_holding : (sid : Bytes) (again : Bool) → holding (after_removal sid again) ≡ 0
  after_holding sid true = refl
  after_holding sid false = refl

  pub after_leaving : (sid : Bytes) (again : Bool) → leaving (after_removal sid again) ≡ false
  after_leaving sid true = refl
  after_leaving sid false = refl

  disconnects :
      (c : Call) (sid : Bytes) (again : Bool)
      → named c ≡ some sid
      → Rests m sid
      → Moved limit c m idle (disconnect m sid again).0 (disconnect m sid again).1
  disconnects c sid again name rests = elim rests [
    | inl (there, listed) ↦ rw there (
        quiet limit m sound c idle (removing sid again) m.locked (mark sid false m.connected)
          (mark_self sid false m.connected, listed) (λ v. refl) refl
          (λ other d d'. mark_other sid other false m.connected d') refl
          (λ other e. absurd (none_some e)) (λ other e. inr (name ∙ e)))
    | inr (gone, h) ↦ rw gone (
        quiet limit m sound c idle (after_removal sid again) m.locked m.connected
          (after_Good sid again m gone h) (λ v. after_held v sid again)
          (omega (arith, after_holding sid again)) (λ other d d'. refl)
          (sym (after_leaving sid again)) (λ other e. absurd (none_some e))
          (λ other e. inr (name ∙ after_session sid other again e)))
  ]

  pub begins :
      (c : Call)
      → ((sid : Bytes) → named c ≡ some sid → Rests m sid)
      → Moved limit c m idle (begin m c).0 (begin m c).1
  begins (enter sid) h = disconnects (enter sid) sid true refl (h sid refl)
  begins (leave sid) h = disconnects (leave sid) sid false refl (h sid refl)
  begins wait h =
      quiet limit m sound wait idle idle m.locked m.connected tt (λ v. refl) refl
        (λ other d d'. refl) refl (λ other e. absurd (none_some e)) (λ other e. inl e)
