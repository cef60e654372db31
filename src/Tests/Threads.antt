-- ===== src/Tests/Threads.antt =====
-- Two threads that enter at once where one connection is allowed.
use verse_entrance_server.Base.{
  ℕ, ◌≤◌, ◌≡◌, sym, ◌∙◌, ◌≢◌, inl, inr, true, some, arith, ◌==◌, Bool-cases, length, Bytes, codes,
  lookup, insert, none_some, some_inj,
}
use verse_entrance_server.Hub.State.Threads.{
  idle, enter, go, act, session, System, initial, move, Reach, start, next,
}
use verse_entrance_server.Hub.State.Threads.Sums.{through}
use verse_entrance_server.Hub.State.Threads.Safety.{Reach-bounded, Reach_at_rest}

abbrev one_began : System
one_began = move 1 initial 0 (enter (codes "ann"))

abbrev both_began : System
both_began = move 1 one_began 1 (enter (codes "bob"))

one_began-Reach : Reach 1 2 one_began
one_began-Reach =
    next 0 (enter (codes "ann")) start (omega arith) (λ sid j e f. absurd (none_some f))

only_ann : (j : ℕ) (sid : Bytes) → session (one_began.pc j) ≡ some sid → codes "ann" ≡ sid
unfolding move act
only_ann j sid e = elim (Bool-cases (0 == j)) [
  | inl here ↦ some_inj (rw here at e)
  | inr other ↦ absurd (none_some (rw other at e))
]

ann_is_not_bob : codes "ann" ≢ codes "bob"
ann_is_not_bob e = ground arith

both_began-Reach : Reach 1 2 both_began
unfolding move act
both_began-Reach =
    next 1 (enter (codes "bob")) one_began-Reach (omega arith)
      (λ sid j e f. ann_is_not_bob (only_ann j sid f ∙ sym (some_inj e)))

-- Both read 0; the first counts itself; the second fails to, reads again, and finds the server full.
abbrev read : System
read = move 1 (move 1 (move 1 (move 1 both_began 0 (go true)) 1 (go true)) 0 (go true)) 1 (go true)

abbrev done : System
done =
    move 1 (move 1 (move 1 (move 1 (move 1 read 0 (go true)) 1 (go true)) 1 (go true)) 0 (go true))
      0 (go true)

read-Reach : Reach 1 2 read
unfolding move act lookup
read-Reach =
    next 1 (go true)
      (next 0 (go true)
        (next 1 (go true)
          (next 0 (go true) both_began-Reach (omega arith) (λ sid j e f. none_some e)) (omega arith)
          (λ sid j e f. none_some e))
        (omega arith) (λ sid j e f. none_some e))
      (omega arith) (λ sid j e f. none_some e)

done-Reach : Reach 1 2 done
unfolding move act lookup insert
done-Reach =
    next 0 (go true)
      (next 0 (go true)
        (next 1 (go true)
          (next 1 (go true) (next 0 (go true) read-Reach (omega arith) (λ sid j e f. none_some e))
            (omega arith) (λ sid j e f. none_some e))
          (omega arith) (λ sid j e f. none_some e))
        (omega arith) (λ sid j e f. none_some e))
      (omega arith) (λ sid j e f. none_some e)

done_idle : (i : ℕ) → done.pc i ≡ idle
unfolding move act lookup insert
done_idle i = elim (Bool-cases (0 == i)) [
  | inl e ↦ rw e
  | inr e ↦ rw e (elim (Bool-cases (1 == i)) [ inl f ↦ rw f | inr f ↦ rw f ])
]

Reach-bounded_example :
    (done.shared.client_count ≤ 1) × (through done.shared.connection_map ≤ done.shared.client_count)
Reach-bounded_example = Reach-bounded 1 2 done (omega arith) done-Reach

Reach_at_rest_example : done.shared.client_count ≡ length done.shared.connection_map
Reach_at_rest_example = Reach_at_rest 1 2 done (omega arith) done-Reach done_idle
