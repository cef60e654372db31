-- ===== src/Hub/State/Threads/Facts.antt =====
-- What a step of one thread may do to the counter, to the map and to its own session.
use verse_entrance_server.Base.{
  ℕ, ◌+◌, ◌≤◌, ◌<◌, ◌≡◌, refl, sym, ◌∙◌, ◌≢◌, ◌⊎◌, Bool, true, false, Option, none, some, List,
  arith, usize_max, Bytes, bytes_eq_refl, lookup, insert, remove, lookup-insert, lookup-remove,
  none_some, bytes_eq_other,
}
use verse_entrance_server.Hub.State.Sessions.{IsDistinct}
use verse_entrance_server.Hub.State.Threads.{
  Shared, Phase, idle, removing, taken, adding, loaded, counted, registered, refused, uncounted,
  Choice, after_removal, session, opens,
}
use verse_entrance_server.Hub.State.Threads.Sums.{through}

-- What the counter has for a thread, besides the connections that are through.
abbrev pub held : Phase → ℕ
held idle = 0
held (removing sid again) = 0
held (taken sid again) = 1
held (adding sid) = 0
held (loaded sid n) = 0
held (counted sid) = 1
held (registered sid) = 1
held (refused sid) = 1
held (uncounted sid) = 0

-- What a thread may rely on of its own session.
abbrev pub Good : ℕ → Shared → Phase → Type 0
Good limit m idle = Unit
Good limit m (removing sid again) = lookup sid m.connection_map ≢ some false
Good limit m (taken sid again) = lookup sid m.connection_map ≡ none
Good limit m (adding sid) = lookup sid m.connection_map ≡ none
Good limit m (loaded sid n) = (lookup sid m.connection_map ≡ none) × (n < limit)
Good limit m (counted sid) = lookup sid m.connection_map ≡ none
Good limit m (registered sid) = lookup sid m.connection_map ≡ some false
Good limit m (refused sid) = lookup sid m.connection_map ≡ some false
Good limit m (uncounted sid) = lookup sid m.connection_map ≡ some false

pub record Moved (limit : ℕ) (c : Choice) (m : Shared) (p : Phase) (m' : Shared) (p' : Phase)
    : Type 0 where
  pub distinct : IsDistinct m'.connection_map
  pub good : Good limit m' p'
  pub account :
      m'.client_count + held p + through m.connection_map
      ≡ m.client_count + held p' + through m'.connection_map
  pub fits : m'.client_count ≤ limit
  pub others :
      (sid : Bytes)
      → session p ≢ some sid
      → lookup sid m'.connection_map ≡ lookup sid m.connection_map
  pub flagged :
      (sid : Bytes)
      → session p ≡ some sid
      → lookup sid m'.connection_map ≡ some false
      → session p' ≡ some sid
  pub stays :
      (sid : Bytes) → session p' ≡ some sid → (session p ≡ some sid) ⊎ (opens p c ≡ some sid)

module _ (limit : ℕ) (small : limit ≤ usize_max) (m : Shared)
    (distinct : IsDistinct m.connection_map) (fits : m.client_count ≤ limit) where
  -- Another session's entry under an insertion or a removal.
  pub insert_elsewhere :
      (k j : Bytes) (b : Bool)
      → ◌≢◌ {A = Option Bytes} (some k) (some j)
      → lookup j (insert k b m.connection_map) ≡ lookup j m.connection_map
  insert_elsewhere k j b n = rw (lookup-insert k j b m.connection_map, bytes_eq_other k j n)

  pub remove_elsewhere :
      (k j : Bytes)
      → ◌≢◌ {A = Option Bytes} (some k) (some j)
      → lookup j (remove k m.connection_map) ≡ lookup j m.connection_map
  remove_elsewhere k j n = rw (lookup-remove k j m.connection_map, bytes_eq_other k j n)

  pub insert_here : (k : Bytes) (b : Bool) → lookup k (insert k b m.connection_map) ≡ some b
  insert_here k b = rw (lookup-insert k k b m.connection_map, bytes_eq_refl k)

  pub remove_here : (k : Bytes) → lookup k (remove k m.connection_map) ≡ none
  remove_here k = rw (lookup-remove k k m.connection_map, bytes_eq_refl k)

  pub none-false :
      (k : Bytes) → lookup k m.connection_map ≡ none → ¬ (lookup k m.connection_map ≡ some false)
  none-false k e f = absurd (none_some (sym e ∙ f))

  -- A step that leaves the map alone.
  pub quiet :
      (c : Choice) (p p' : Phase) (n : ℕ)
      → Good limit (record m { client_count = n }) p'
      → n + held p ≡ m.client_count + held p'
      → n ≤ limit
      → ((sid : Bytes)
          → session p ≡ some sid
          → lookup sid m.connection_map ≡ some false
          → session p' ≡ some sid)
      → ((sid : Bytes) → session p' ≡ some sid → (session p ≡ some sid) ⊎ (opens p c ≡ some sid))
      → Moved limit c m p (record m { client_count = n }) p'
  quiet c p p' n g a f l s = record {
    distinct = distinct;
    good = g;
    account = omega (arith, a);
    fits = f;
    others = λ sid d. refl;
    flagged = l;
    stays = s;
  }

  -- After a removal `enter` goes on to add, and the session has no entry.
  pub after_removal-Good :
      (sid : Bytes) (again : Bool) (n : ℕ) (l : List (Bytes × Bool))
      → lookup sid l ≡ none
      → Good limit (record { client_count = n; connection_map = l }) (after_removal sid again)
  after_removal-Good sid true n l e = e
  after_removal-Good sid false n l e = tt

  pub after_held : (sid : Bytes) (again : Bool) → held (after_removal sid again) ≡ 0
  after_held sid true = refl
  after_held sid false = refl

  pub after_session :
      (sid other : Bytes) (again : Bool)
      → session (after_removal sid again) ≡ some other
      → ◌≡◌ {A = Option Bytes} (some sid) (some other)
  after_session sid other true e = e
  after_session sid other false e = cc
