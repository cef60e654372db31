-- ===== src/Hub/State/Threads/Safety.antt =====
-- What holds in every state that the threads reach.
use verse_entrance_server.Base.{
  set_apart, ℕ, ◌+◌, ◌≤◌, ◌<◌, ◌≡◌, refl, sym, ap, ◌∙◌, ◌≢◌, inl, inr, false, some, arith, ◌==◌,
  ==_iff, Bool-cases, usize_max, length, set, total, total-set, le-total, total-zero, Bytes, lookup,
  none_some, some-cases,
}
use verse_entrance_server.Hub.State.Sessions.{IsDistinct}
use verse_entrance_server.Hub.State.Threads.{
  Shared, Phase, idle, removing, taken, adding, loaded, counted, registered, refused, uncounted,
  Choice, act, session, opens, System, initial, move, Reach, start, next,
}
use verse_entrance_server.Hub.State.Threads.Sums.{through, all_through}
use verse_entrance_server.Hub.State.Threads.Facts.{held, Good, Moved}
use verse_entrance_server.Hub.State.Threads.Moves.{act-Moved}

pub record Inv (limit n : ℕ) (s : System) : Type 0 where
  pub distinct : IsDistinct s.shared.connection_map
  pub fits : s.shared.client_count ≤ limit
  pub account : s.shared.client_count ≡ through s.shared.connection_map + total held n s.pc
  pub good : (i : ℕ) → Good limit s.shared (s.pc i)
  pub apart :
      (i j : ℕ) (sid : Bytes) → session (s.pc i) ≡ some sid → session (s.pc j) ≡ some sid → i ≡ j
  pub known :
      (sid : Bytes)
      → lookup sid s.shared.connection_map ≡ some false
      → (i : ℕ) × (session (s.pc i) ≡ some sid)

initial-Inv : (limit n : ℕ) → Inv limit n initial
unfolding lookup
initial-Inv limit n = record {
  distinct = tt;
  fits = omega arith;
  account = omega (arith, total-zero held n (λ i. idle) (λ i. refl));
  good = λ i. tt;
  apart = λ i j sid e f. absurd (none_some e);
  known = λ sid e. absurd (none_some e);
}

-- A thread whose session's entry is the same may rely on the same.
Good-kept :
    (limit : ℕ) (m m' : Shared) (p : Phase)
    → ((sid : Bytes)
        → session p ≡ some sid
        → lookup sid m'.connection_map ≡ lookup sid m.connection_map)
    → Good limit m p
    → Good limit m' p
Good-kept limit m m' idle h g = tt
Good-kept limit m m' (removing sid again) h g = λ e. g (sym (h sid refl) ∙ e)
Good-kept limit m m' (taken sid again) h g = h sid refl ∙ g
Good-kept limit m m' (adding sid) h g = h sid refl ∙ g
Good-kept limit m m' (loaded sid k) h g = (h sid refl ∙ g.0, g.1)
Good-kept limit m m' (counted sid) h g = h sid refl ∙ g
Good-kept limit m m' (registered sid) h g = h sid refl ∙ g
Good-kept limit m m' (refused sid) h g = h sid refl ∙ g
Good-kept limit m m' (uncounted sid) h g = h sid refl ∙ g

module _ (limit n : ℕ) (small : limit ≤ usize_max) (s : System) (i : ℕ) (c : Choice) (below : i < n)
    (allowed : (sid : Bytes) (j : ℕ) → opens (s.pc i) c ≡ some sid → session (s.pc j) ≢ some sid)
    (v : Inv limit n s) where
  abbrev m' : Shared
  m' = (act limit s.shared (s.pc i) c).0

  abbrev p' : Phase
  p' = (act limit s.shared (s.pc i) c).1

  moved : Moved limit c s.shared (s.pc i) m' p'
  moved =
      act-Moved limit small s.shared v.distinct v.fits (s.pc i) c (v.good i)
        (λ sid e f. let (j, g) = v.known sid f in allowed sid j e g)
        (omega (arith, v.account, le-total held n s.pc i below))

  set_here : set s.pc i p' i ≡ p'
  set_here = ground arith

  set_elsewhere : (j : ℕ) → (i == j) ≡ false → set s.pc i p' j ≡ s.pc j
  set_elsewhere j e = rw e

  not_at : (j : ℕ) → (i == j) ≡ false → i ≡ j → ⊥
  not_at j e f = absurd (ground arith)

  elsewhere-Good : (j : ℕ) → (i == j) ≡ false → Good limit m' (s.pc j)
  elsewhere-Good j e =
      Good-kept limit s.shared m' (s.pc j)
        (λ sid f. moved.others sid (λ g. not_at j e (v.apart i j sid g f))) (v.good j)

  -- The moved thread's session is nobody else's.
  alone :
      (j : ℕ) (sid : Bytes)
      → (i == j) ≡ false
      → session p' ≡ some sid
      → session (s.pc j) ≡ some sid
      → ⊥
  alone j sid e f g = elim (moved.stays sid f) [
    | inl h ↦ not_at j e (v.apart i j sid h g)
    | inr h ↦ allowed sid j h g
  ]

  distant :
      (j : ℕ) (sid : Bytes)
      → session (s.pc i) ≢ some sid
      → session (s.pc j) ≡ some sid
      → (i == j) ≡ false
  distant j sid other f = elim (Bool-cases (i == j)) [
    | inr e ↦ e
    | inl e ↦ absurd (other (ap (λ (k : ℕ). session (s.pc k)) ((==_iff i j).0 e) ∙ f))
  ]

  move-Inv : Inv limit n (move limit s i c)
  unfolding move
  move-Inv = record {
    distinct = moved.distinct;
    fits = moved.fits;
    account = omega (arith, v.account, moved.account, total-set held n s.pc i p' below);
    good = λ j. elim (Bool-cases (i == j)) [
      | inl e ↦ rw e moved.good
      | inr e ↦ rw e (elsewhere-Good j e)
    ];
    apart = set_apart session s.pc i p' v.apart alone;
    known = λ sid e. elim (some-cases (session (s.pc i)) sid) [
      | inl here ↦ (i, ap (λ (p : Phase). session p) set_here ∙ moved.flagged sid here e)
      | inr other ↦
          let (j, f) = v.known sid (sym (moved.others sid other) ∙ e) in
          (j, ap (λ (p : Phase). session p) (set_elsewhere j (distant j sid other f)) ∙ f)
    ];
  }

Reach-Inv : (limit n : ℕ) (s : System) → limit ≤ usize_max → Reach limit n s → Inv limit n s
Reach-Inv limit n s small start = initial-Inv limit n
Reach-Inv limit n s' small (next {s} i c r below allowed) =
    move-Inv limit n small s i c below allowed (Reach-Inv limit n s small r)

-- Any number of threads may enter and remove sessions at once, as long as no call is begun for a
-- session that another thread is at work on. Then in every state that they reach the counter is within
-- the limit and counts every connection that is through.
pub Reach-bounded :
    (limit n : ℕ) (s : System)
    → limit ≤ usize_max
    → Reach limit n s
    → (s.shared.client_count ≤ limit) × (through s.shared.connection_map ≤ s.shared.client_count)
Reach-bounded limit n s small r =
    let v = Reach-Inv limit n s small r in (v.fits, omega (arith, v.account))

-- Any number of threads may enter and remove sessions at once, as long as no call is begun for a
-- session that another thread is at work on. Then in every state that they reach with all threads at
-- rest the counter is the number of connections.
pub Reach_at_rest :
    (limit n : ℕ) (s : System)
    → limit ≤ usize_max
    → Reach limit n s
    → ((i : ℕ) → s.pc i ≡ idle)
    → s.shared.client_count ≡ length s.shared.connection_map
Reach_at_rest limit n s small r rest =
    let v = Reach-Inv limit n s small r in
    let all = all_through s.shared.connection_map v.distinct (λ sid e.
      let (i, f) = v.known sid e in none_some (ap (λ (p : Phase). session p) (sym (rest i)) ∙ f)) in
    omega (arith, v.account, all, total-zero held n s.pc (λ i. ap (λ (p : Phase). held p) (rest i)))
