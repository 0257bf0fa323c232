-- ===== src/WriteBehind.antt =====
-- db_write_behind.py: the queue that writes records to the database behind the requests, and the
-- file of those that it could not take or write. The database's write and the JSON library are
-- parameters: a write ends well or not, and a line of the file is the row of a record or a text that
-- is no object. What a task does between two awaits is one step; the steps of the callers, of the
-- workers and of the replay interleave.
pub mod Conservation
pub mod Runs
pub mod Stop
use llm_plug.Common.{
  ℕ, zero, suc, ◌+◌, Bool, true, false, Option, none, some, List, [], ◌∷◌, ◌++◌, ltb, if◌then◌else◌,
  length,
}

-- A record and its `_write_id`.
pub record Row (P : Type 0) : Type 0 where
  pub payload : P
  pub write_id : Option ℕ

-- A line of the overflow file.
pub data Line (P : Type 0) : Type 0 where
  row : Row P → Line P
  malformed : ℕ → Line P

-- The task of `_replay_overflow`: before it runs, between two lines, and at its end.
pub data ReplayTask (P : Type 0) : Type 0 where
  scheduled : ReplayTask P
  replaying : (lines failed_lines : List (Line P)) → ReplayTask P
  finished : ReplayTask P

-- `overflow` is the file at `overflow_path`, and `in_flight` what the workers have got from the queue
-- and are writing. `written` has an entry for each call of the write that reached the database; what
-- the database does with a second one of the same `_write_id` is up to the write.
pub record WriteBehind (P : Type 0) : Type 0 where
  pub queue : List (Row P)
  pub maxsize : ℕ
  pub in_flight : List (Row P)
  pub workers : ℕ
  pub replay_task : Option (ReplayTask P)
  pub overflow : List (Line P)
  pub written : List (Row P)

-- How a write ends: `_write_one` returns true, or false for a time-out or an exception. The thread of
-- a write that has timed out goes on, so that the database may still take the record: then the write
-- is late, and counts as one from the time-out on. After a failure a spill can write the file or not,
-- and has a new identifier at hand.
pub record Attempt : Type 0 where
  pub is_written : Bool
  pub is_late : Bool
  pub is_saved : Bool
  pub fresh : ℕ

-- What can happen to the queue between its start and its stop.
pub data Event (P : Type 0) : Type 0 where
  enqueued : Attempt → Row P → Event P
  got : Event P
  write_ended : Attempt → ℕ → Event P
  replayed : Attempt → Event P
  started : ℕ → Event P

module _ {P : Type 0} where
  -- payload.setdefault("_write_id", uuid.uuid4().hex)
  unfoldable pub identified : ℕ → Row P → Row P
  identified fresh r = elim r.write_id [ none ↦ record r { write_id = some fresh } | some i ↦ r ]

  -- A write that has timed out reaches the database, or not.
  unfoldable pub write_late : Attempt → Row P → WriteBehind P → WriteBehind P
  write_late a r self = if a.is_late then record self { written = self.written ++ r ∷ [] } else self

  -- A worker that is idle gets the oldest record.
  unfoldable pub hand_out : List (Row P) → WriteBehind P → WriteBehind P
  hand_out [] self = self
  hand_out (r ∷ rest) self =
      if ltb (length self.in_flight) self.workers
      then record self { queue = rest; in_flight = self.in_flight ++ r ∷ [] }
      else self

  unfoldable pub get_record : WriteBehind P → WriteBehind P
  unfolding hand_out
  get_record self = hand_out self.queue self

  -- The `n`th of some records, and the others.
  unfoldable pub after_first : Row P → Option (Row P × List (Row P)) → Option (Row P × List (Row P))
  after_first r none = none
  after_first r (some found) = some (found.0, r ∷ found.1)

  unfoldable pub pick : ℕ → List (Row P) → Option (Row P × List (Row P))
  unfolding after_first
  pick n [] = none
  pick zero (r ∷ rs) = some (r, rs)
  pick (suc n) (r ∷ rs) = after_first r (pick n rs)

  -- `start`, given how many workers there are
  unfoldable pub create_workers : ℕ → ℕ → WriteBehind P → WriteBehind P
  create_workers zero count self = record self {
    workers = count;
    replay_task = some ReplayTask.scheduled;
  }
  create_workers (suc n) count self = self

  unfoldable pub start : ℕ → WriteBehind P → WriteBehind P
  unfolding create_workers
  start count self = create_workers self.workers count self

  -- The end of the write of a line: the line that the replay retains, if it does.
  unfoldable pub replay_line : Attempt → Line P → WriteBehind P → WriteBehind P × List (Line P)
  unfolding identified write_late
  replay_line a (malformed t) self = (self, malformed t ∷ [])
  replay_line a (row r) self =
      let known = identified a.fresh r in
      if a.is_written
      then (record self { written = self.written ++ known ∷ [] }, [])
      else (write_late a known self, row known ∷ [])

  -- A step of `_replay_overflow`: it reads and empties the file, writes a line, or writes back the
  -- lines that failed.
  unfoldable pub replay_from : Option (ReplayTask P) → Attempt → WriteBehind P → WriteBehind P
  unfolding replay_line
  replay_from none a self = self
  replay_from (some ReplayTask.finished) a self = self
  replay_from (some ReplayTask.scheduled) a self = record self {
    replay_task = some (ReplayTask.replaying self.overflow []);
    overflow = [];
  }
  replay_from (some (ReplayTask.replaying [] failed)) a self = record self {
    replay_task = some ReplayTask.finished;
    overflow = if a.is_saved then self.overflow ++ failed else self.overflow;
  }
  replay_from (some (ReplayTask.replaying (line ∷ lines) failed)) a self =
      let (next, retained) = replay_line a line self in
      record next { replay_task = some (ReplayTask.replaying lines (failed ++ retained)) }

  unfoldable pub replay_step : Attempt → WriteBehind P → WriteBehind P
  unfolding replay_from
  replay_step a self = replay_from self.replay_task a self

  module _ (overflow_serialize : P → P) where
    unfoldable pub spill : Attempt → Row P → WriteBehind P → WriteBehind P
    unfolding identified
    spill a r self =
        let line = row (identified a.fresh (record r { payload = overflow_serialize r.payload })) in
        if a.is_saved then record self { overflow = self.overflow ++ line ∷ [] } else self

    -- put_nowait, and the spill of a record that a full queue refuses
    unfoldable pub enqueue : Attempt → Row P → WriteBehind P → WriteBehind P
    unfolding spill
    enqueue a r self =
        if ltb (length self.queue) self.maxsize
        then record self { queue = self.queue ++ r ∷ [] }
        else spill a r self

    -- if not await self._write_one(record): self._spill(record)
    unfoldable pub write_or_spill : Attempt → Row P → WriteBehind P → WriteBehind P
    unfolding spill write_late
    write_or_spill a r self =
        if a.is_written
        then record self { written = self.written ++ r ∷ [] }
        else spill a r (write_late a r self)

    -- The write of the `n`th record in flight ends.
    unfoldable pub end_picked :
        Attempt → Option (Row P × List (Row P)) → WriteBehind P → WriteBehind P
    unfolding write_or_spill
    end_picked a none self = self
    end_picked a (some found) self = write_or_spill a found.0 (record self { in_flight = found.1 })

    -- The write of the `n`th record in flight ends.
    unfoldable pub end_write : Attempt → ℕ → WriteBehind P → WriteBehind P
    unfolding pick end_picked
    end_write a n self = end_picked a (pick n self.in_flight) self

    unfoldable pub step : Event P → WriteBehind P → WriteBehind P
    unfolding enqueue get_record end_write replay_step start
    step (enqueued a r) self = enqueue a r self
    step got self = get_record self
    step (write_ended a n) self = end_write a n self
    step (replayed a) self = replay_step a self
    step (started count) self = start count self

    unfoldable pub run : List (Event P) → WriteBehind P → WriteBehind P
    unfolding step
    run [] self = self
    run (e ∷ es) self = run es (step e self)
