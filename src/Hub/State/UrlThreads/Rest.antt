-- ===== src/Hub/State/UrlThreads/Rest.antt =====
-- The URL's entry, counters and lists with all threads at rest.
use verse_entrance_server.Base.{
  ℕ, ◌≤◌, max, ◌≡◌, refl, sym, ap, subst, ◌∙◌, ◌≢◌, ◌↔◌, inl, inr, true, false, Option, none, some,
  arith, ◌==◌, Bool-cases, usize_max, length, Bytes, lookup, total-zero, none_some, some_inj,
  true_false, false_true, Bool, List, [], ◌∷◌, bytes_eq_refl,
}
use verse_entrance_server.Hub.State.Sessions.{IsDistinct}
use verse_entrance_server.Hub.State.Threads.{is_some}
use verse_entrance_server.Hub.State.Threads.Sums.{all_through}
use verse_entrance_server.Hub.State.UrlThreads.{Shared, Phase, idle, session, System, Reach}
use verse_entrance_server.Hub.State.UrlThreads.Facts.{held, leaving, at, Stands, Rests}
use verse_entrance_server.Hub.State.UrlThreads.Steps.{here_some}
use verse_entrance_server.Hub.State.UrlThreads.Safety.{Inv, Reach-Inv}

-- The map of URLs has a `UrlData` for the URL exactly where a session is connected. Its counter is
-- within the limit, or 1 where the limit is 0; it is the number of the clients of its list, and the list
-- has each connected session once and nobody else.
abbrev pub IsSettled : ℕ → Shared → Option ℕ → Type 0
IsSettled limit m none = (sid : Bytes) → m.connected sid ≡ false
IsSettled limit m (some u) =
    ((sid : Bytes) × (m.connected sid ≡ true))
    × (1 ≤ (m.heap u).client_count)
    × ((m.heap u).client_count ≤ max 1 limit)
    × ((m.heap u).client_count ≡ length (m.heap u).clients)
    × IsDistinct (m.heap u).clients
    × ((sid : Bytes) → (m.connected sid ≡ true) ↔ (is_some (lookup sid (m.heap u).clients) ≡ true))

-- A list that is not empty has the session of its first client.
someone : (l : List (Bytes × Bool)) → 1 ≤ length l → (sid : Bytes) × (is_some (lookup sid l) ≡ true)
unfolding lookup
someone [] h = absurd (omega arith)
someone ((k, b) ∷ l) h = (k, rw (bytes_eq_refl k))

module _ (limit n : ℕ) (s : System) (v : Inv limit n s) (rest : (i : ℕ) → s.pc i ≡ idle) where
  at_rest : (sid : Bytes) → Rests s.shared sid
  at_rest sid = v.rests sid (λ i e. none_some (ap (λ (p : Phase). session p) (sym (rest i)) ∙ e))

  no_url-disconnected : s.shared.entry ≡ none → (sid : Bytes) → s.shared.connected sid ≡ false
  no_url-disconnected e sid = elim (at_rest sid) [
    | inl (there, (u, f, h)) ↦ absurd (none_some (sym e ∙ f))
    | inr (gone, clear) ↦ gone
  ]

  no_half : (u : ℕ) (sid : Bytes) → lookup sid (s.shared.heap u).clients ≢ some false
  no_half u sid e = elim (at_rest sid) [
    | inl (there, (w, f, h)) ↦ elim (Bool-cases (w == u)) [
      | inl same ↦ true_false (some_inj (sym (rw same at (h u)) ∙ e))
      | inr other ↦ none_some (sym (rw other at (h u)) ∙ e)
    ]
    | inr (gone, clear) ↦ none_some (sym (clear u) ∙ e)
  ]

  none_left : (u : ℕ) → s.shared.entry ≡ some u → (s.shared.heap u).client_count ≢ 0
  none_left u e z =
      let (i, l) = v.emptied u e z in false_true (ap (λ (p : Phase). leaving p) (sym (rest i)) ∙ l)

  count-length : (u : ℕ) → (s.shared.heap u).client_count ≡ length (s.shared.heap u).clients
  count-length u = omega (
    arith,
    v.account u,
    total-zero (held u) n s.pc (λ i. ap (λ (p : Phase). held u p) (rest i)),
    all_through (s.shared.heap u).clients (v.sound.distinct u) (no_half u),
  )

  listed-connected :
      (u : ℕ) (sid : Bytes)
      → is_some (lookup sid (s.shared.heap u).clients) ≡ true
      → s.shared.connected sid ≡ true
  listed-connected u sid e = elim (at_rest sid) [
    | inl (there, listed) ↦ there
    | inr (gone, clear) ↦ false_true (rw (clear u) at e)
  ]

  connected-listed :
      (u : ℕ) (sid : Bytes)
      → s.shared.entry ≡ some u
      → s.shared.connected sid ≡ true
      → is_some (lookup sid (s.shared.heap u).clients) ≡ true
  connected-listed u sid e there = elim (at_rest sid) [
    | inl (_, (w, f, h)) ↦
        ap (λ (o : Option Bool). is_some o)
          (here_some limit s.shared v.sound sid u true
            (subst (λ (x : ℕ). Stands s.shared sid (at x true)) (some_inj (sym f ∙ e)) h))
    | inr (gone, clear) ↦ absurd (false_true (sym gone ∙ there))
  ]

  someone-connected :
      (u : ℕ) → s.shared.entry ≡ some u → (sid : Bytes) × (s.shared.connected sid ≡ true)
  someone-connected u e =
      let (k, h) =
        someone (s.shared.heap u).clients (omega (arith, none_left u e, count-length u)) in
      (k, listed-connected u k h)

  settled : (o : Option ℕ) → s.shared.entry ≡ o → IsSettled limit s.shared o
  settled none e = no_url-disconnected e
  settled (some u) e = (
    someone-connected u e,
    omega (arith, none_left u e),
    v.sound.fits u,
    count-length u,
    v.sound.distinct u,
    (λ sid. (connected-listed u sid e, listed-connected u sid)),
  )

-- Any number of threads may enter and remove sessions of one URL at once, as long as no call is begun
-- for a session that another thread is at work on. Then in every state that they reach with all
-- threads at rest the URL has an entry exactly where a session is connected. The `UrlData` of the
-- entry has a counter within the limit, or 1 where the limit is 0, which is the number of its clients,
-- and its list has each connected session once and nobody else.
pub Reach_settles :
    (limit n : ℕ) (s : System)
    → limit ≤ usize_max
    → Reach limit n s
    → ((i : ℕ) → s.pc i ≡ idle)
    → IsSettled limit s.shared s.shared.entry
Reach_settles limit n s small r rest =
    settled limit n s (Reach-Inv limit n s small r) rest s.shared.entry refl
