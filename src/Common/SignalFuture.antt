-- ===== src/Common/SignalFuture.antt =====
-- common/src/signal_future.rs, not on wasm: a result cell with the waker of the task that waits. Each
-- of `set_result`, `take_result` and `set_task` holds the cell's lock; `poll` and `finish` make
-- several such calls, and other threads may come between.
use verse_entrance_server.Base.{
  ◌≡◌, refl, ap, ◌∙◌, ◌⊎◌, inl, inr, Option, none, some, List, [], ◌∷◌,
}

module _ (T W : Type 0) where
  pub record Inner : Type 0 where
    pub result : Option T
    pub task : Option W

module _ {T W : Type 0} where
  -- `SignalFuture::new`
  unfoldable pub new_future : Inner T W
  new_future = record { result = none; task = none }

  unfoldable pub set_result : Inner T W → T → Inner T W × Option W
  set_result inner v = (record { result = some v; task = none }, inner.task)

  unfoldable pub set_task : Inner T W → W → Inner T W
  set_task inner w = record { result = inner.result; task = some w }

  unfoldable pub take_result : Inner T W → Inner T W × Option T
  take_result inner = (record { result = none; task = inner.task }, inner.result)

  -- `finish`: the waker that it wakes, if one waits.
  unfoldable pub finish : Inner T W → T → Inner T W × Option W
  unfolding set_result
  finish inner v = set_result inner v

  -- `poll`, with no other thread between its calls; `none` is `Pending`.
  unfoldable pub poll : Inner T W → W → Inner T W × Option T
  unfolding take_result set_task
  poll inner w =
      let (inner', taken) = take_result inner in
      elim taken [ some v ↦ (inner', some v) | none ↦ (set_task inner' w, none) ]

  -- A task that polled in vain is woken by `finish`, and its next poll has the value; the value is
  -- handed out once.
  pub poll-finish :
      (inner : Inner T W) (w w' w'' : W) (v : T)
      → inner.result ≡ none
      → let waiting = poll inner w in
        let done = finish waiting.0 v in
        let got = poll done.0 w' in
        (waiting.1 ≡ none) × (done.1 ≡ some w) × (got.1 ≡ some v) × ((poll got.0 w'').1 ≡ none)
  unfolding poll finish
  poll-finish inner w w' w'' v h = rw (h, poll) (refl, refl, refl, refl)

  -- `poll` of one thread with a `finish` of another between its two calls.
  unfoldable pub interrupted_poll : Inner T W → W → T → Inner T W × Option T × Option W
  unfolding take_result set_task finish
  interrupted_poll inner w v =
      let (inner', taken) = take_result inner in
      elim taken [
        | some old ↦ let (inner'', woken) = finish inner' v in (inner'', some old, woken)
        | none ↦ let (inner'', woken) = finish inner' v in (set_task inner'' w, none, woken)
      ]

  -- On a cell where nobody waits and nothing has come, such a poll is `Pending` with the value already
  -- in the cell, and nobody has been woken: the wake-up is lost.
  pub interrupted_poll_lost :
      (w : W) (v : T)
      → interrupted_poll new_future w v ≡ (record { result = some v; task = some w }, none, none)
  unfolding interrupted_poll new_future
  interrupted_poll_lost w v = refl

-- What tasks do with the future. `set_timeout` starts a task that makes a `reject` when its time is
-- over, whatever else has been done by then.
pub data Op (T E W : Type 0) : Type 0 where
  resolve : T → Op T E W
  reject : E → Op T E W
  timeout : E → Op T E W
  poll_with : W → Op T E W

-- The task that a `finish` wakes, or what a `poll` returns.
pub data Answer (T E W : Type 0) : Type 0 where
  woken : Option W → Answer T E W
  polled : Option (T ⊎ E) → Answer T E W

module _ {T E W : Type 0} where
  unfoldable pub step : Inner (T ⊎ E) W → Op T E W → Inner (T ⊎ E) W × Answer T E W
  unfolding finish poll
  step inner (resolve v) = let (inner', w) = finish inner (inl v) in (inner', woken w)
  step inner (reject e) = let (inner', w) = finish inner (inr e) in (inner', woken w)
  step inner (timeout e) = let (inner', w) = finish inner (inr e) in (inner', woken w)
  step inner (poll_with w) = let (inner', r) = poll inner w in (inner', polled r)

  unfoldable pub run : Inner (T ⊎ E) W → List (Op T E W) → List (Answer T E W)
  unfolding step
  run inner [] = []
  run inner (op ∷ ops) = let (inner', a) = step inner op in a ∷ run inner' ops

-- What a future promises: it is empty, or a task waits at it, or it has a result that no poll has
-- returned. A `finish` replaces the result and wakes the task that waits; a poll empties it, or waits.
pub data Slot (T E W : Type 0) : Type 0 where
  empty : Slot T E W
  waiting : W → Slot T E W
  full : T ⊎ E → Slot T E W

module _ {T E W : Type 0} where
  abbrev pub sleeper : Slot T E W → Option W
  sleeper empty = none
  sleeper (waiting w) = some w
  sleeper (full r) = none

  abbrev pub fetch : Slot T E W → W → Slot T E W × Answer T E W
  fetch empty w = (waiting w, polled none)
  fetch (waiting other) w = (waiting w, polled none)
  fetch (full r) w = (empty, polled (some r))

  abbrev pub slot_step : Slot T E W → Op T E W → Slot T E W × Answer T E W
  slot_step s (resolve v) = (full (inl v), woken (sleeper s))
  slot_step s (reject e) = (full (inr e), woken (sleeper s))
  slot_step s (timeout e) = (full (inr e), woken (sleeper s))
  slot_step s (poll_with w) = fetch s w

  abbrev pub slot_run : Slot T E W → List (Op T E W) → List (Answer T E W)
  slot_run s [] = []
  slot_run s (op ∷ ops) = let (s', a) = slot_step s op in a ∷ slot_run s' ops

  -- The cell of a slot.
  cell : Slot T E W → Inner (T ⊎ E) W
  cell empty = record { result = none; task = none }
  cell (waiting w) = record { result = none; task = some w }
  cell (full r) = record { result = some r; task = none }

  step-cell :
      (s : Slot T E W) (op : Op T E W)
      → step (cell s) op ≡ (let (s', a) = slot_step s op in (cell s', a))
  unfolding step cell
  step-cell empty (resolve v) = refl
  step-cell empty (reject e) = refl
  step-cell empty (timeout e) = refl
  step-cell empty (poll_with w) = refl
  step-cell (waiting other) (resolve v) = refl
  step-cell (waiting other) (reject e) = refl
  step-cell (waiting other) (timeout e) = refl
  step-cell (waiting other) (poll_with w) = refl
  step-cell (full r) (resolve v) = refl
  step-cell (full r) (reject e) = refl
  step-cell (full r) (timeout e) = refl
  step-cell (full r) (poll_with w) = refl

  run-cell : (s : Slot T E W) (ops : List (Op T E W)) → run (cell s) ops ≡ slot_run s ops
  unfolding run
  run-cell s [] = refl
  run-cell s (op ∷ ops) =
      let (s', a) = slot_step s op in
      ap (λ (r : Inner (T ⊎ E) W × Answer T E W). r.1 ∷ run r.0 ops) (step-cell s op)
      ∙ ap (λ (l : List (Answer T E W)). a ∷ l) (run-cell s' ops)

  -- Where no other thread comes between the two halves of a poll, no sequence of `resolve`, `reject`,
  -- time-outs and polls tells a new future from a slot that holds at most one result: each result
  -- replaces the one before, goes to one poll, and wakes the task that waits.
  pub future_refines : (ops : List (Op T E W)) → run new_future ops ≡ slot_run empty ops
  unfolding new_future cell
  future_refines ops = run-cell empty ops
