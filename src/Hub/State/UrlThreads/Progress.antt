-- ===== src/Hub/State/UrlThreads/Progress.antt =====
-- No thread waits for good: the one that has locked the entry can always go on.
use verse_entrance_server.Base.{
  ℕ, ◌+◌, ◌≤◌, ◌≡◌, refl, sym, ap, ◌∙◌, ◌≢◌, ◌⊎◌, inl, inr, Bool, true, false, Option, none, some,
  arith, leb, ◌==◌, if◌then◌else◌, Bool-cases, usize_max, Bytes, set, total_positive, if_ind,
  false_true,
}
use verse_entrance_server.Hub.State.Threads.Sums.{flag}
use verse_entrance_server.Hub.State.UrlThreads.{
  Shared, Phase, idle, adding, occupied, loaded, counted, removing, found, subtracted, retained,
  wait, after_removal, open_entry, find, drop_empty, act, System, Reach,
}
use verse_entrance_server.Hub.State.UrlThreads.Facts.{holding}
use verse_entrance_server.Hub.State.UrlThreads.Safety.{Reach-Inv}

-- Phases by number.
abbrev place : Phase → ℕ
place idle = 0
place (adding sid) = 1
place (occupied sid u) = 2
place (loaded sid u n) = 3
place (counted sid u) = 4
place (removing sid again) = 5
place (found sid again u) = 6
place (subtracted sid again u) = 7
place (retained sid again) = 8

after_removal-place : (sid : Bytes) (again : Bool) → place (after_removal sid again) ≢ 8
after_removal-place sid true e = absurd (omega arith)
after_removal-place sid false e = absurd (omega arith)

open_entry-place : (m : Shared) (sid : Bytes) (o : Option ℕ) → place (open_entry m sid o).1 ≢ 1
open_entry-place m sid none e = absurd (omega arith)
open_entry-place m sid (some u) e = absurd (omega arith)

find-place : (sid : Bytes) (again : Bool) (o : Option ℕ) → place (find sid again o) ≢ 5
find-place sid again none e = absurd (omega arith)
find-place sid again (some u) e = absurd (omega arith)

module _ (limit : ℕ) (m : Shared) where
  -- Where the entry is free, a step that waits for it does not.
  unlocked :
      (k : ℕ) (waiting going : Shared × Phase)
      → m.locked ≡ false
      → place going.1 ≢ k
      → place (if m.locked then waiting else going).1 ≢ k
  unlocked k waiting going free h =
      if_ind (λ (r : Shared × Phase). place r.1 ≢ k) m.locked waiting going
        (λ e. absurd (false_true (sym free ∙ e))) (λ e. h)

  either :
      (k : ℕ) (b : Bool) (x y : Shared × Phase)
      → place x.1 ≢ k
      → place y.1 ≢ k
      → place (if b then x else y).1 ≢ k
  either k b x y h g = if_ind (λ (r : Shared × Phase). place r.1 ≢ k) b x y (λ e. h) (λ e. g)

  goes_on :
      (p : Phase)
      → p ≢ idle
      → (m.locked ≡ false) ⊎ (1 ≤ holding p)
      → place (act limit m p wait).1 ≢ place p
  unfolding act
  goes_on idle busy h = absurd (busy refl)
  goes_on (adding sid) busy (inl free) =
      unlocked 1 (m, adding sid) (open_entry m sid m.entry) free (open_entry-place m sid m.entry)
  goes_on (adding sid) busy (inr h) = absurd (omega arith)
  goes_on (occupied sid u) busy h =
      either 2 (leb limit (m.heap u).client_count) (record m { locked = false }, idle)
        (m, loaded sid u (m.heap u).client_count) (λ e. omega arith) (λ e. omega arith)
  goes_on (loaded sid u n) busy h =
      either 3 ((m.heap u).client_count == n)
        (
          record m {
            heap = set m.heap u (record { client_count = n + 1; clients = (m.heap u).clients });
          },
          counted sid u,
        )
        (m, occupied sid u) (λ e. omega arith) (λ e. omega arith)
  goes_on (counted sid u) busy h = λ e. absurd (omega arith)
  goes_on (removing sid again) busy (inl free) =
      unlocked 5 (m, removing sid again) (m, find sid again m.entry) free
        (find-place sid again m.entry)
  goes_on (removing sid again) busy (inr h) = absurd (omega arith)
  goes_on (found sid again u) busy h = λ e. absurd (omega arith)
  goes_on (subtracted sid again u) busy h = λ e. absurd (omega arith)
  goes_on (retained sid again) busy (inl free) =
      unlocked 8 (m, retained sid again)
        (record m { entry = drop_empty m.heap m.entry }, after_removal sid again) free
        (after_removal-place sid again)
  goes_on (retained sid again) busy (inr h) = absurd (omega arith)

holding-busy : (p : Phase) → 1 ≤ holding p → p ≢ idle
holding-busy p h e = absurd (omega (arith, h, ap (λ (q : Phase). holding q) e))

-- Any number of threads may enter and remove sessions of one URL at once, as long as no call is begun
-- for a session that another thread is at work on. Then in every state that they reach with a thread in
-- the middle of a call there is no deadlock: the next step of some such thread takes it to another place.
pub Reach-progresses :
    (limit n : ℕ) (s : System) (j : ℕ)
    → limit ≤ usize_max
    → Reach limit n s
    → s.pc j ≢ idle
    → (i : ℕ) × (s.pc i ≢ idle) × ((act limit s.shared (s.pc i) wait).1 ≢ s.pc i)
Reach-progresses limit n s j small r busy = elim (Bool-cases s.shared.locked) [
  | inr free ↦ (
    j,
    busy,
    (λ e. goes_on limit s.shared (s.pc j) busy (inl free) (ap (λ (p : Phase). place p) e)),
  )
  | inl held ↦
      let v = Reach-Inv limit n s small r in
      let (i, below, h) =
        total_positive holding n s.pc (omega (arith, v.lock, ap (λ (b : Bool). flag b) held)) in
      let at_work = holding-busy (s.pc i) h in
      (
        i,
        at_work,
        (λ e. goes_on limit s.shared (s.pc i) at_work (inr h) (ap (λ (p : Phase). place p) e)),
      )
]
