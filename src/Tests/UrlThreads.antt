-- ===== src/Tests/UrlThreads.antt =====
-- A session that leaves its URL while another enters, where one connection is allowed.
use verse_entrance_server.Base.{
  ℕ, ◌≤◌, ◌<◌, max, ◌≡◌, refl, sym, ap, ◌∙◌, ◌≢◌, inl, inr, true, some, List, [], ◌∷◌, arith, ◌==◌,
  Bool-cases, All, Bytes, codes, bytes_eq, remove, none_some, some_inj,
}
use verse_entrance_server.Hub.State.Threads.Sums.{through}
use verse_entrance_server.Hub.State.UrlThreads.{
  Phase, idle, enter, leave, wait, act, session, System, initial, move, Reach, start, next,
}
use verse_entrance_server.Hub.State.UrlThreads.Progress.{Reach-progresses}
use verse_entrance_server.Hub.State.UrlThreads.Finishing.{going_on, alone, Reach-finishes}
use verse_entrance_server.Hub.State.UrlThreads.Safety.{Reach_within_limit}
use verse_entrance_server.Hub.State.UrlThreads.Rest.{IsSettled, Reach_settles}

ann_is_not_bob : codes "ann" ≢ codes "bob"
ann_is_not_bob e = ground arith

-- The threads of the list go on, one step each time.
abbrev run : System → List ℕ → System
run s [] = s
run s (i ∷ is) = run (move 1 s i wait) is

run-Reach : (is : List ℕ) (s : System) → All (λ i. i < 2) is → Reach 1 2 s → Reach 1 2 (run s is)
run-Reach [] s h r = r
run-Reach (i ∷ is) s h r =
    run-Reach is (move 1 s i wait) h.1
      (next i wait r h.0 (λ sid j e f. none_some (sym (going_on (s.pc i)) ∙ e)))

abbrev ann_here : System
ann_here = run (move 1 initial 0 (enter (codes "ann"))) (0 ∷ [])

-- The counter is 0 and the entry still there.
abbrev ann_subtracted : System
ann_subtracted = run (move 1 ann_here 0 (leave (codes "ann"))) (0 ∷ 0 ∷ [])

abbrev done : System
done = run (move 1 ann_subtracted 1 (enter (codes "bob"))) (1 ∷ 1 ∷ 0 ∷ 1 ∷ 0 ∷ 1 ∷ 0 ∷ [])

ann_here-Reach : Reach 1 2 ann_here
ann_here-Reach =
    run-Reach (0 ∷ []) (move 1 initial 0 (enter (codes "ann"))) (omega arith, tt)
      (next 0 (enter (codes "ann")) start (omega arith) (λ sid j e f. absurd (none_some f)))

ann_here_idle : (i : ℕ) → ann_here.pc i ≡ idle
unfolding move act
ann_here_idle i = elim (Bool-cases (0 == i)) [ inl e ↦ rw e | inr e ↦ rw e ]

ann_subtracted-Reach : Reach 1 2 ann_subtracted
unfolding move act bytes_eq
ann_subtracted-Reach =
    run-Reach (0 ∷ 0 ∷ []) (move 1 ann_here 0 (leave (codes "ann")))
      (omega arith, (omega arith, tt))
      (next 0 (leave (codes "ann")) ann_here-Reach (omega arith)
        (λ sid j e f. none_some (ap (λ (p : Phase). session p) (sym (ann_here_idle j)) ∙ f)))

only_ann : (j : ℕ) (sid : Bytes) → session (ann_subtracted.pc j) ≡ some sid → codes "ann" ≡ sid
unfolding move act bytes_eq
only_ann j sid e = elim (Bool-cases (0 == j)) [
  | inl here ↦ some_inj (rw here at e)
  | inr other ↦ absurd (none_some (rw other at e))
]

done-Reach : Reach 1 2 done
unfolding move act bytes_eq
done-Reach =
    run-Reach (1 ∷ 1 ∷ 0 ∷ 1 ∷ 0 ∷ 1 ∷ 0 ∷ []) (move 1 ann_subtracted 1 (enter (codes "bob")))
      (
        omega arith,
        (
          omega arith,
          (omega arith, (omega arith, (omega arith, (omega arith, (omega arith, tt))))),
        ),
      )
      (next 1 (enter (codes "bob")) ann_subtracted-Reach (omega arith)
        (λ sid j e f. ann_is_not_bob (only_ann j sid f ∙ sym (some_inj e))))

done_idle : (i : ℕ) → done.pc i ≡ idle
unfolding move act remove bytes_eq
done_idle i = elim (Bool-cases (0 == i)) [
  | inl e ↦ rw e
  | inr e ↦ rw e (elim (Bool-cases (1 == i)) [ inl f ↦ rw f | inr f ↦ rw f ])
]

-- The entry is the one that the first session made, with the second in its place.
done_entry :
    (done.shared.entry ≡ some 0)
    × ((done.shared.heap 0).client_count ≡ 1)
    × ((done.shared.heap 0).clients ≡ (codes "bob", true) ∷ [])
unfolding move act remove bytes_eq
done_entry = (refl, refl, refl)

Reach_within_limit_example :
    ((done.shared.heap 0).client_count ≤ max 1 1)
    × (through (done.shared.heap 0).clients ≤ (done.shared.heap 0).client_count)
Reach_within_limit_example = Reach_within_limit 1 2 done (omega arith) done-Reach 0

Reach_settles_example : IsSettled 1 done.shared done.shared.entry
Reach_settles_example = Reach_settles 1 2 done (omega arith) done-Reach done_idle

ann_busy : ann_subtracted.pc 0 ≢ idle
unfolding move act bytes_eq
ann_busy e = cc

Reach-progresses_example :
    (i : ℕ) × (ann_subtracted.pc i ≢ idle)
    × ((act 1 ann_subtracted.shared (ann_subtracted.pc i) wait).1 ≢ ann_subtracted.pc i)
Reach-progresses_example =
    Reach-progresses 1 2 ann_subtracted 0 (omega arith) ann_subtracted-Reach ann_busy

ann_subtracted_others : (j : ℕ) → 0 ≢ j → ann_subtracted.pc j ≡ idle
unfolding move act bytes_eq
ann_subtracted_others j e = elim (Bool-cases (0 == j)) [
  | inl here ↦ absurd (ground arith)
  | inr other ↦ rw other
]

Reach-finishes_example :
    let t = alone 1 0 8 ann_subtracted in
    ((j : ℕ) → t.pc j ≡ idle) × IsSettled 1 t.shared t.shared.entry
Reach-finishes_example =
    Reach-finishes 1 2 ann_subtracted 0 (omega arith) (omega arith) ann_subtracted-Reach
      ann_subtracted_others
