-- ===== src/WriteBehind/Runs.antt =====
-- db_write_behind.py: the records of a run of the queue, whatever its steps.
use llm_plug.Common.{
  ℕ, zero, suc, ◌+◌, ◌≤◌, sym, ◌∙◌, inl, inr, Bool-cases, true, Option, none, some, List, [], ◌∷◌,
  ltb, ◌≡◌, refl, arith, length, All,
}
use llm_plug.WriteBehind.{
  Row, Line, ReplayTask, WriteBehind, Attempt, Event, get_record, hand_out, pick, start, write_late,
  create_workers, replay_line, replay_from, replay_step, spill, enqueue, write_or_spill, end_picked,
  end_write, step, run,
}
use llm_plug.WriteBehind.Conservation.{
  of_late_found, of_late_task, total, of_event, of_events, hand_out-total, pick-Splits, start-total,
  replay_from-total, enqueue-total, end_picked-total,
}

module _ {P : Type 0} where
  -- The overflow file can be written whenever the event needs it, and a start has workers.
  abbrev pub IsSaved : Event P → Type 0
  IsSaved (Event.enqueued a r) = a.is_saved ≡ true
  IsSaved Event.got = Unit
  IsSaved (Event.write_ended a n) = a.is_saved ≡ true
  IsSaved (Event.replayed a) = a.is_saved ≡ true
  IsSaved (Event.started count) = 1 ≤ count

  -- A replay runs only beside workers.
  abbrev pub IsIdle : WriteBehind P → Type 0
  IsIdle self = self.workers ≡ 0 → self.replay_task ≡ none

  -- Only a start makes workers, or a replay where there is none.
  record Keeps (self next : WriteBehind P) : Type 0 where
    workers : next.workers ≡ self.workers
    replay : self.replay_task ≡ none → next.replay_task ≡ none

  hand_out-Keeps : (q : List (Row P)) (self : WriteBehind P) → Keeps self (hand_out q self)
  unfolding hand_out
  hand_out-Keeps [] self = record { workers = refl; replay = λ e. e }
  hand_out-Keeps (r ∷ rest) self = elim (Bool-cases (ltb (length self.in_flight) self.workers)) [
    | inl b ↦ rw b (record { workers = refl; replay = λ e. e })
    | inr b ↦ rw b (record { workers = refl; replay = λ e. e })
  ]

  replay_line-workers :
      (a : Attempt) (l : Line P) (self : WriteBehind P)
      → (replay_line a l self).0.workers ≡ self.workers
  unfolding replay_line write_late
  replay_line-workers a (Line.malformed t) self = refl
  replay_line-workers a (Line.row r) self = ground arith

  replay_from-Keeps :
      (task : Option (ReplayTask P)) (a : Attempt) (self : WriteBehind P)
      → self.replay_task ≡ task
      → Keeps self (replay_from task a self)
  unfolding replay_from
  replay_from-Keeps none a self e = record { workers = refl; replay = λ n. n }
  replay_from-Keeps (some ReplayTask.finished) a self e = record { workers = refl; replay = λ n. n }
  replay_from-Keeps (some ReplayTask.scheduled) a self e = record {
    workers = refl;
    replay = λ n. cc;
  }
  replay_from-Keeps (some (ReplayTask.replaying [] failed)) a self e = record {
    workers = refl;
    replay = λ n. cc;
  }
  replay_from-Keeps (some (ReplayTask.replaying (line ∷ lines) failed)) a self e = record {
    workers = replay_line-workers a line self;
    replay = λ n. cc;
  }

  module _ (overflow_serialize : P → P) where
    spill-Keeps :
        (a : Attempt) (r : Row P) (self : WriteBehind P)
        → Keeps self (spill overflow_serialize a r self)
    unfolding spill
    spill-Keeps a r self = elim (Bool-cases a.is_saved) [
      | inl b ↦ rw b (record { workers = refl; replay = λ e. e })
      | inr b ↦ rw b (record { workers = refl; replay = λ e. e })
    ]

    write_late-Keeps :
        (a : Attempt) (r : Row P) (self : WriteBehind P) → Keeps self (write_late a r self)
    unfolding write_late
    write_late-Keeps a r self = elim (Bool-cases a.is_late) [
      | inl b ↦ rw b (record { workers = refl; replay = λ e. e })
      | inr b ↦ rw b (record { workers = refl; replay = λ e. e })
    ]

    write_or_spill-Keeps :
        (a : Attempt) (r : Row P) (self : WriteBehind P)
        → Keeps self (write_or_spill overflow_serialize a r self)
    unfolding write_or_spill
    write_or_spill-Keeps a r self = elim (Bool-cases a.is_written) [
      | inl b ↦ rw b (record { workers = refl; replay = λ e. e })
      | inr b ↦
          let late = write_late-Keeps a r self in
          let spilled = spill-Keeps a r (write_late a r self) in
          rw b (record {
            workers = spilled.workers ∙ late.workers;
            replay = λ e. spilled.replay (late.replay e);
          })
    ]

    enqueue-Keeps :
        (a : Attempt) (r : Row P) (self : WriteBehind P)
        → Keeps self (enqueue overflow_serialize a r self)
    unfolding enqueue
    enqueue-Keeps a r self = elim (Bool-cases (ltb (length self.queue) self.maxsize)) [
      | inl b ↦ rw b (record { workers = refl; replay = λ e. e })
      | inr b ↦ rw b (spill-Keeps a r self)
    ]

    end_picked-Keeps :
        (a : Attempt) (o : Option (Row P × List (Row P))) (self : WriteBehind P)
        → Keeps self (end_picked overflow_serialize a o self)
    unfolding end_picked
    end_picked-Keeps a none self = record { workers = refl; replay = λ e. e }
    end_picked-Keeps a (some found) self =
        let k = write_or_spill-Keeps a found.0 (record self { in_flight = found.1 }) in
        record { workers = k.workers; replay = k.replay }

    Keeps-IsIdle : {self next : WriteBehind P} → Keeps self next → IsIdle self → IsIdle next
    Keeps-IsIdle k h w = k.replay (h (sym k.workers ∙ w))

    create_workers-IsIdle :
        (n count : ℕ) (self : WriteBehind P)
        → n ≡ self.workers
        → 1 ≤ count
        → IsIdle self
        → IsIdle (create_workers n count self)
    unfolding create_workers
    create_workers-IsIdle zero count self e c h w = absurd (omega arith)
    create_workers-IsIdle (suc n) count self e c h w = absurd (omega arith)

    step-IsIdle :
        (e : Event P) (self : WriteBehind P)
        → IsSaved e
        → IsIdle self
        → IsIdle (step overflow_serialize e self)
    unfolding step enqueue get_record end_write replay_step start
    step-IsIdle (Event.enqueued a r) self s h = Keeps-IsIdle (enqueue-Keeps a r self) h
    step-IsIdle Event.got self s h = Keeps-IsIdle (hand_out-Keeps self.queue self) h
    step-IsIdle (Event.write_ended a n) self s h =
        Keeps-IsIdle (end_picked-Keeps a (pick n self.in_flight) self) h
    step-IsIdle (Event.replayed a) self s h =
        Keeps-IsIdle (replay_from-Keeps self.replay_task a self refl) h
    step-IsIdle (Event.started count) self s h =
        create_workers-IsIdle self.workers count self refl s h

  module _ (f : P → ℕ) (g : ℕ → ℕ) (overflow_serialize : P → P) where
    -- The records that a step writes late.
    abbrev pub of_late_step : Event P → WriteBehind P → ℕ
    of_late_step (Event.enqueued a r) self = 0
    of_late_step Event.got self = 0
    of_late_step (Event.write_ended a n) self = of_late_found f g a (pick n self.in_flight)
    of_late_step (Event.replayed a) self = of_late_task f g a self.replay_task
    of_late_step (Event.started count) self = 0

    abbrev pub of_late_run : List (Event P) → WriteBehind P → ℕ
    of_late_run [] self = 0
    of_late_run (e ∷ es) self =
        of_late_step e self + of_late_run es (step overflow_serialize e self)

    module _ (same : (p : P) → f (overflow_serialize p) ≡ f p) where
      step-total :
          (e : Event P) (self : WriteBehind P)
          → IsSaved e
          → IsIdle self
          → total f g (step overflow_serialize e self)
            ≡ total f g self + of_event f g e + of_late_step e self
      unfolding step enqueue get_record end_write replay_step start
      step-total (Event.enqueued a r) self s h =
          omega (arith, enqueue-total f g overflow_serialize same a r self s)
      step-total Event.got self s h = omega (arith, hand_out-total f g self.queue self refl)
      step-total (Event.write_ended a n) self s h = omega (
        arith,
        end_picked-total f g overflow_serialize same a (pick n self.in_flight) self s
            (pick-Splits f g n self.in_flight),
      )
      step-total (Event.replayed a) self s h =
          omega (arith, replay_from-total f g self.replay_task a self s refl)
      step-total (Event.started count) self s h =
          omega (arith, start-total f g self.workers count self h)

      -- Where the overflow file can always be written, every record that was handed in, and every
      -- line that was in the file, stays in one place: the queue, a worker, the replay, the file or
      -- the database; and a record is in one more place for each of its writes that times out and
      -- still reaches the database. For any number given to each record's payload, which its
      -- serialization keeps, the sum over these places is the one before the run plus that of the
      -- records handed in and that of the writes that were late.
      pub run-total :
          (es : List (Event P)) (self : WriteBehind P)
          → All IsSaved es
          → IsIdle self
          → total f g (run overflow_serialize es self)
            ≡ total f g self + of_events f g es + of_late_run es self
      unfolding run
      run-total [] self s h = omega arith
      run-total (e ∷ es) self s h =
          let next = step overflow_serialize e self in
          let later = run-total es next s.1 (step-IsIdle overflow_serialize e self s.0 h) in
          omega (arith, later, step-total e self s.0 h)
