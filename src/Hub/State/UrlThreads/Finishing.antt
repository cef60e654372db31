-- ===== src/Hub/State/UrlThreads/Finishing.antt =====
-- A call that the other threads leave alone comes to its end.
use verse_entrance_server.Base.{
  ℕ, zero, suc, ◌-◌, ◌≤◌, ◌<◌, ◌≡◌, refl, sym, ap, ◌∙◌, ◌≢◌, ◌⊎◌, inl, inr, Bool, true, false,
  Option, none, some, arith, leb, ◌==◌, if◌then◌else◌, ==_iff, Bool-cases, usize_max, Bytes,
  total_positive, if_ind, none_some, false_true,
}
use verse_entrance_server.Hub.State.Threads.Sums.{flag}
use verse_entrance_server.Hub.State.UrlThreads.{
  Shared, Phase, idle, adding, occupied, loaded, counted, removing, found, subtracted, retained,
  wait, after_removal, open_entry, find, drop_empty, act, opens, System, move, Reach, next,
}
use verse_entrance_server.Hub.State.UrlThreads.Facts.{holding}
use verse_entrance_server.Hub.State.UrlThreads.Safety.{Reach-Inv}
use verse_entrance_server.Hub.State.UrlThreads.Rest.{IsSettled, Reach_settles}

-- How many more steps a call takes at most, with no other thread at work.
abbrev left : Shared → Phase → ℕ
left m idle = 0
left m (adding sid) = 4
left m (occupied sid u) = 3
left m (loaded sid u n) = if (m.heap u).client_count == n then 2 else 4
left m (counted sid u) = 1
left m (removing sid again) = 8
left m (found sid again u) = 7
left m (subtracted sid again u) = 6
left m (retained sid again) = 5

left_few : (m : Shared) (p : Phase) → left m p ≤ 8
left_few m idle = omega arith
left_few m (adding sid) = omega arith
left_few m (occupied sid u) = omega arith
left_few m (loaded sid u n) = ground arith
left_few m (counted sid u) = omega arith
left_few m (removing sid again) = omega arith
left_few m (found sid again u) = omega arith
left_few m (subtracted sid again u) = omega arith
left_few m (retained sid again) = omega arith

left_none : (m : Shared) (p : Phase) → left m p ≤ 0 → p ≡ idle
left_none m idle h = refl
left_none m (adding sid) h = absurd (omega arith)
left_none m (occupied sid u) h = absurd (omega arith)
left_none m (loaded sid u n) h = absurd (ground arith)
left_none m (counted sid u) h = absurd (omega arith)
left_none m (removing sid again) h = absurd (omega arith)
left_none m (found sid again u) h = absurd (omega arith)
left_none m (subtracted sid again u) h = absurd (omega arith)
left_none m (retained sid again) h = absurd (omega arith)

-- A step that is no call goes on with the one that was begun.
pub going_on : (p : Phase) → opens p wait ≡ none
going_on idle = refl
going_on (adding sid) = refl
going_on (occupied sid u) = refl
going_on (loaded sid u n) = refl
going_on (counted sid u) = refl
going_on (removing sid again) = refl
going_on (found sid again u) = refl
going_on (subtracted sid again u) = refl
going_on (retained sid again) = refl

abbrev Within : ℕ → Shared × Phase → Type 0
Within k (m, p) = left m p ≤ k

open_entry-Within : (m : Shared) (sid : Bytes) (o : Option ℕ) → Within 3 (open_entry m sid o)
open_entry-Within m sid none = omega arith
open_entry-Within m sid (some u) = omega arith

find-Within :
    (m : Shared) (sid : Bytes) (again : Bool) (o : Option ℕ) → Within 7 (m, find sid again o)
find-Within m sid again none = omega arith
find-Within m sid again (some u) = omega arith

after_removal-Within :
    (m : Shared) (sid : Bytes) (again : Bool) → Within 4 (m, after_removal sid again)
after_removal-Within m sid true = omega arith
after_removal-Within m sid false = omega arith

module _ (limit : ℕ) (m : Shared) where
  unlocked :
      (k : ℕ) (waiting going : Shared × Phase)
      → m.locked ≡ false
      → Within k going
      → Within k (if m.locked then waiting else going)
  unlocked k waiting going free h =
      if_ind (λ (r : Shared × Phase). Within k r) m.locked waiting going
        (λ e. absurd (false_true (sym free ∙ e))) (λ e. h)

  act-Within :
      (p : Phase)
      → (m.locked ≡ false) ⊎ (1 ≤ holding p)
      → Within (left m p - 1) (act limit m p wait)
  unfolding act
  act-Within idle h = omega arith
  act-Within (adding sid) (inl free) =
      unlocked 3 (m, adding sid) (open_entry m sid m.entry) free (open_entry-Within m sid m.entry)
  act-Within (adding sid) (inr h) = absurd (omega arith)
  act-Within (occupied sid u) h =
      if_ind (λ (r : Shared × Phase). Within 2 r) (leb limit (m.heap u).client_count)
        (record m { locked = false }, idle) (m, loaded sid u (m.heap u).client_count)
        (λ e. omega arith) (λ e. ground arith)
  act-Within (loaded sid u n) h = elim (Bool-cases ((m.heap u).client_count == n)) [
    | inl same ↦ rw same (omega arith)
    | inr other ↦ rw other (omega arith)
  ]
  act-Within (counted sid u) h = omega arith
  act-Within (removing sid again) (inl free) =
      unlocked 7 (m, removing sid again) (m, find sid again m.entry) free
        (find-Within m sid again m.entry)
  act-Within (removing sid again) (inr h) = absurd (omega arith)
  act-Within (found sid again u) h = omega arith
  act-Within (subtracted sid again u) h = omega arith
  act-Within (retained sid again) (inl free) =
      unlocked 4 (m, retained sid again)
        (record m { entry = drop_empty m.heap m.entry }, after_removal sid again) free
        (after_removal-Within (record m { entry = drop_empty m.heap m.entry }) sid again)
  act-Within (retained sid again) (inr h) = absurd (omega arith)

-- So many steps of one thread.
abbrev pub alone : ℕ → ℕ → ℕ → System → System
alone limit i zero s = s
alone limit i (suc k) s = alone limit i k (move limit s i wait)

module _ (limit n i : ℕ) (small : limit ≤ usize_max) (below : i < n) where
  step-Reach : (s : System) → Reach limit n s → Reach limit n (move limit s i wait)
  step-Reach s r = next i wait r below (λ sid j e f. none_some (sym (going_on (s.pc i)) ∙ e))

  -- The entry is locked by the thread or not at all.
  free_or_mine :
      (s : System)
      → Reach limit n s
      → ((j : ℕ) → i ≢ j → s.pc j ≡ idle)
      → (s.shared.locked ≡ false) ⊎ (1 ≤ holding (s.pc i))
  free_or_mine s r others = elim (Bool-cases s.shared.locked) [
    | inr free ↦ inl free
    | inl held ↦
        let v = Reach-Inv limit n s small r in
        let (j, near, h) =
          total_positive holding n s.pc (omega (arith, v.lock, ap (λ (b : Bool). flag b) held)) in
        elim (Bool-cases (i == j)) [
          | inl here ↦ inr (rw ((==_iff i j).0 here) h)
          | inr far ↦
              absurd
                (omega (arith, h, ap (λ (p : Phase). holding p) (others j (λ e. ground arith))))
        ]
  ]

  move-others :
      (s : System)
      → ((j : ℕ) → i ≢ j → s.pc j ≡ idle)
      → (j : ℕ) → i ≢ j
      → (move limit s i wait).pc j ≡ idle
  unfolding move
  move-others s others j e = elim (Bool-cases (i == j)) [
    | inl here ↦ absurd (e ((==_iff i j).0 here))
    | inr far ↦ rw far (others j e)
  ]

  left-move :
      (s : System) (k : ℕ)
      → Reach limit n s
      → ((j : ℕ) → i ≢ j → s.pc j ≡ idle)
      → left s.shared (s.pc i) ≤ suc k
      → left (move limit s i wait).shared ((move limit s i wait).pc i) ≤ k
  unfolding move
  left-move s k r others h =
      rw ((==_iff i i).1 refl)
        (omega (arith, act-Within limit s.shared (s.pc i) (free_or_mine s r others)))

  alone_idle :
      (k : ℕ) (s : System)
      → Reach limit n s
      → ((j : ℕ) → i ≢ j → s.pc j ≡ idle)
      → left s.shared (s.pc i) ≤ k
      → Reach limit n (alone limit i k s) × ((j : ℕ) → (alone limit i k s).pc j ≡ idle)
  alone_idle zero s r others h = (
    r,
    (λ j. elim (Bool-cases (i == j)) [
      | inl here ↦
          ap (λ (x : ℕ). s.pc x) (sym ((==_iff i j).0 here)) ∙ left_none s.shared (s.pc i) h
      | inr far ↦ others j (λ e. ground arith)
    ]),
  )
  alone_idle (suc k) s r others h =
      alone_idle k (move limit s i wait) (step-Reach s r) (move-others s others)
        (left-move s k r others h)

-- Any number of threads may enter and remove sessions of one URL at once, as long as no call is begun
-- for a session that another thread is at work on. Take any state that they reach in which all threads
-- but one are at rest. Then after 8 more steps of that thread, with no new call, it is at rest too, and
-- the URL has an entry exactly where a session is connected, whose counter and list are those of just
-- the connected sessions.
pub Reach-finishes :
    (limit n : ℕ) (s : System) (i : ℕ)
    → limit ≤ usize_max
    → i < n
    → Reach limit n s
    → ((j : ℕ) → i ≢ j → s.pc j ≡ idle)
    → let t = alone limit i 8 s in
      ((j : ℕ) → t.pc j ≡ idle) × IsSettled limit t.shared t.shared.entry
Reach-finishes limit n s i small below r others =
    let t = alone limit i 8 s in
    let (reached, rest) =
      alone_idle limit n i small below 8 s r others (left_few s.shared (s.pc i)) in
    (rest, Reach_settles limit n t small reached rest)
