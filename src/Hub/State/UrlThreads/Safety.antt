-- ===== src/Hub/State/UrlThreads/Safety.antt =====
-- What holds of the URL's entry, counters and lists in every state that the threads reach.
use verse_entrance_server.Base.{
  set_apart, ℕ, ◌+◌, ◌≤◌, ◌<◌, max, ◌≡◌, refl, sym, ap, ◌∙◌, ◌≢◌, inl, inr, true, false, some,
  arith, leb, ◌==◌, leb→le, leb-false, ==_iff, Bool-cases, usize_max, Bytes, lookup, set, set_ind,
  total, total-set, le-total, total-zero, none_some, false_true, some-cases,
}
use verse_entrance_server.Hub.State.Threads.Sums.{flag, through}
use verse_entrance_server.Hub.State.UrlThreads.{
  Shared, Phase, idle, Call, act, session, opens, System, initial, move, Reach, start, next,
}
use verse_entrance_server.Hub.State.UrlThreads.Facts.{
  held, holding, leaving, Rests, Good, Sound, Moved,
}
use verse_entrance_server.Hub.State.UrlThreads.Moves.{act-Moved}
use verse_entrance_server.Hub.State.UrlThreads.Kept.{Rests-kept, Good-kept}

pub record Inv (limit n : ℕ) (s : System) : Type 0 where
  pub sound : Sound limit s.shared
  pub account :
      (v : ℕ)
      → (s.shared.heap v).client_count ≡ through (s.shared.heap v).clients + total (held v) n s.pc
  pub lock : flag s.shared.locked ≡ total holding n s.pc
  pub beyond : (i : ℕ) → n ≤ i → s.pc i ≡ idle
  pub good : (i : ℕ) → Good limit s.shared (s.pc i)
  pub apart :
      (i j : ℕ) (sid : Bytes) → session (s.pc i) ≡ some sid → session (s.pc j) ≡ some sid → i ≡ j
  pub rests : (sid : Bytes) → ((i : ℕ) → session (s.pc i) ≢ some sid) → Rests s.shared sid
  pub emptied :
      (u : ℕ)
      → s.shared.entry ≡ some u
      → (s.shared.heap u).client_count ≡ 0
      → (i : ℕ) × (leaving (s.pc i) ≡ true)

initial-Inv : (limit n : ℕ) → Inv limit n initial
unfolding lookup
initial-Inv limit n = record {
  sound = record {
    distinct = λ u. tt;
    fits = λ u. omega arith;
    unused = λ u h. refl;
    young = λ u e. absurd (none_some e);
  };
  account = λ v. omega (arith, total-zero (held v) n (λ i. idle) (λ i. refl));
  lock = omega (arith, total-zero holding n (λ i. idle) (λ i. refl));
  beyond = λ i h. refl;
  good = λ i. tt;
  apart = λ i j sid e f. absurd (none_some e);
  rests = λ sid h. inr (refl, λ v. refl);
  emptied = λ u e z. absurd (none_some e);
}

module _ (limit n : ℕ) (small : limit ≤ usize_max) (s : System) (i : ℕ) (c : Call) (below : i < n)
    (allowed : (sid : Bytes) (j : ℕ) → opens (s.pc i) c ≡ some sid → session (s.pc j) ≢ some sid)
    (v : Inv limit n s) where
  abbrev m' : Shared
  m' = (act limit s.shared (s.pc i) c).0

  abbrev p' : Phase
  p' = (act limit s.shared (s.pc i) c).1

  covers : (u : ℕ) → through (s.shared.heap u).clients ≤ (s.shared.heap u).client_count
  covers u = omega (arith, v.account u)

  holds_lock : (j : ℕ) → holding (s.pc j) ≤ flag s.shared.locked
  holds_lock j = elim (Bool-cases (leb n j)) [
    | inl far ↦ omega (arith, ap (λ (p : Phase). holding p) (v.beyond j (leb→le _ _ far)))
    | inr near ↦ omega (arith, v.lock, le-total holding n s.pc j (leb-false _ _ near))
  ]

  moved : Moved limit c s.shared (s.pc i) m' p'
  moved =
      act-Moved limit small s.shared v.sound covers (s.pc i) c (v.good i)
        (λ sid e. v.rests sid (λ j. allowed sid j e)) (holds_lock i)

  set_here : set s.pc i p' i ≡ p'
  set_here = ground arith

  set_elsewhere : (j : ℕ) → (i == j) ≡ false → set s.pc i p' j ≡ s.pc j
  set_elsewhere j e = rw e

  not_at : (j : ℕ) → (i == j) ≡ false → i ≡ j → ⊥
  not_at j e f = absurd (ground arith)

  -- The moved thread's session is nobody else's.
  alone :
      (j : ℕ) (sid : Bytes)
      → (i == j) ≡ false
      → session p' ≡ some sid
      → session (s.pc j) ≡ some sid
      → ⊥
  alone j sid e f g = elim (moved.stays sid f) [
    | inl h ↦ not_at j e (v.apart i j sid h g)
    | inr h ↦ allowed sid j h g
  ]

  elsewhere-Good : (j : ℕ) → (i == j) ≡ false → Good limit m' (s.pc j)
  elsewhere-Good j e =
      Good-kept limit s.shared m' covers v.sound (λ u f. moved.entry_kept u f) (s.pc j)
        (holds_lock j)
        (λ sid f. moved.others sid (λ g. not_at j e (v.apart i j sid g f)) (λ g. alone j sid e g f))
        (v.good j)

  move-Rests : (sid : Bytes) → ((j : ℕ) → session (set s.pc i p' j) ≢ some sid) → Rests m' sid
  move-Rests sid nobody = elim (some-cases (session (s.pc i)) sid) [
    | inl mine ↦ moved.rests sid mine not_now
    | inr other ↦
        let (same, still) = moved.others sid other not_now in
        Rests-kept limit s.shared m' covers v.sound (λ u f. moved.entry_kept u f) sid same still
          (v.rests sid (λ j e. elim (Bool-cases (i == j)) [
            | inl here ↦ other (ap (λ (k : ℕ). session (s.pc k)) ((==_iff i j).0 here) ∙ e)
            | inr far ↦ nobody j (ap (λ (p : Phase). session p) (set_elsewhere j far) ∙ e)
          ]))
  ]
    where
      not_now : session p' ≢ some sid
      not_now e = nobody i (ap (λ (p : Phase). session p) set_here ∙ e)

  emptied_after :
      (u : ℕ)
      → m'.entry ≡ some u
      → (m'.heap u).client_count ≡ 0
      → (j : ℕ) × (leaving (set s.pc i p' j) ≡ true)
  emptied_after u e z = elim (moved.empties u e z) [
    | inl now ↦ (i, ap (λ (p : Phase). leaving p) set_here ∙ now)
    | inr (e', z', not_leaving) ↦
        let (j, l) = v.emptied u e' z' in
        (
          j,
          ap (λ (p : Phase). leaving p)
                (set_elsewhere j (elim (Bool-cases (i == j)) [
                  | inr far ↦ far
                  | inl here ↦ absurd (
                      false_true (
                        sym not_leaving
                        ∙ ap (λ (k : ℕ). leaving (s.pc k)) ((==_iff i j).0 here)
                        ∙ l))
                ]))
              ∙ l,
        )
  ]

  move-Inv : Inv limit n (move limit s i c)
  unfolding move
  move-Inv = record {
    sound = moved.sound;
    account =
        λ u. omega (arith, v.account u, moved.account u, total-set (held u) n s.pc i p' below);
    lock = omega (arith, v.lock, moved.lock, total-set holding n s.pc i p' below);
    beyond = λ j h. set_elsewhere j (ground arith) ∙ v.beyond j h;
    good = set_ind (λ j p. Good limit m' p) s.pc i p' moved.good (λ j e. elsewhere-Good j e);
    apart = set_apart session s.pc i p' v.apart alone;
    rests = λ sid h. move-Rests sid h;
    emptied = λ u e z. emptied_after u e z;
  }

pub Reach-Inv : (limit n : ℕ) (s : System) → limit ≤ usize_max → Reach limit n s → Inv limit n s
Reach-Inv limit n s small start = initial-Inv limit n
Reach-Inv limit n s' small (next {s} i c r below allowed) =
    move-Inv limit n small s i c below allowed (Reach-Inv limit n s small r)

-- Any number of threads may enter and remove sessions of one URL at once, as long as no call is begun
-- for a session that another thread is at work on. Then in every state that they reach the counter of
-- every `UrlData` is at most the limit, or 1 where the limit is 0, and counts every client of its list
-- that has not been subtracted from it.
pub Reach_within_limit :
    (limit n : ℕ) (s : System)
    → limit ≤ usize_max
    → Reach limit n s
    → (u : ℕ)
    → ((s.shared.heap u).client_count ≤ max 1 limit)
      × (through (s.shared.heap u).clients ≤ (s.shared.heap u).client_count)
Reach_within_limit limit n s small r u =
    let v = Reach-Inv limit n s small r in (v.sound.fits u, omega (arith, v.account u))
