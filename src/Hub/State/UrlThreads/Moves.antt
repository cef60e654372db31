-- ===== src/Hub/State/UrlThreads/Moves.antt =====
-- What one step of one thread does to the URL's entry, to the counters and lists, and to its own
-- session.
use verse_entrance_server.Base.{ℕ, ◌≤◌, ◌≡◌, some, usize_max, Bytes}
use verse_entrance_server.Hub.State.Threads.Sums.{flag, through}
use verse_entrance_server.Hub.State.UrlThreads.{
  Shared, Phase, idle, adding, occupied, loaded, counted, removing, found, subtracted, retained,
  Call, act, opens,
}
use verse_entrance_server.Hub.State.UrlThreads.Facts.{holding, Rests, Good, Sound, Moved}
use verse_entrance_server.Hub.State.UrlThreads.Begin.{begins}
use verse_entrance_server.Hub.State.UrlThreads.Entering.{adds, asks, counts, registers}
use verse_entrance_server.Hub.State.UrlThreads.Leaving.{finds, subtracts, retains, looks}

module _ (limit : ℕ) (small : limit ≤ usize_max) (m : Shared) (sound : Sound limit m)
    (covers : (v : ℕ) → through (m.heap v).clients ≤ (m.heap v).client_count) where
  pub act-Moved :
      (p : Phase) (c : Call)
      → Good limit m p
      → ((sid : Bytes) → opens p c ≡ some sid → Rests m sid)
      → holding p ≤ flag m.locked
      → Moved limit c m p (act limit m p c).0 (act limit m p c).1
  unfolding act
  act-Moved idle c good new h = begins limit m sound c new
  act-Moved (adding sid) c (gone, clear) new h = adds limit m sound c sid gone clear
  act-Moved (occupied sid u) c (gone, clear, e) new h = asks limit m sound c sid gone clear u e h
  act-Moved (loaded sid u n) c (gone, clear, e, room) new h =
      counts limit m sound c sid gone clear u e h n room
  act-Moved (counted sid u) c (gone, clear, e) new h =
      registers limit m sound c sid gone clear u e h
  act-Moved (removing sid again) c (gone, listed) new h =
      finds limit m sound c sid again gone listed
  act-Moved (found sid again u) c (gone, e, here) new h =
      subtracts limit m sound c sid again gone u small (covers u) here
  act-Moved (subtracted sid again u) c (gone, here) new h =
      retains limit m sound c sid again gone u here
  act-Moved (retained sid again) c (gone, clear) new h = looks limit m sound c sid again gone clear
