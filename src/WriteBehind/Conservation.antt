-- ===== src/WriteBehind/Conservation.antt =====
-- db_write_behind.py: what each step of the queue does with the records.
use llm_plug.Common.{
  Bool, false, if◌then◌else◌, ℕ, zero, suc, ◌+◌, ◌∙◌, true, Option, none, some, List, [], ◌∷◌, ◌++◌,
  ltb, ◌≡◌, refl, arith, length, Bool-cases, Option-cases, inl, inr,
}
use llm_plug.WriteBehind.{
  Row, Line, ReplayTask, WriteBehind, Attempt, Event, identified, hand_out, after_first, pick,
  write_late, create_workers, replay_line, spill, enqueue, write_or_spill, replay_from, end_picked,
}

-- A number for each record, and for each malformed line, summed over all places that hold them.
module _ {P : Type 0} (f : P → ℕ) (g : ℕ → ℕ) where
  abbrev pub of_rows : List (Row P) → ℕ
  of_rows [] = 0
  of_rows (r ∷ rs) = f r.payload + of_rows rs

  abbrev pub of_line : Line P → ℕ
  of_line (Line.row r) = f r.payload
  of_line (Line.malformed t) = g t

  abbrev pub of_lines : List (Line P) → ℕ
  of_lines [] = 0
  of_lines (l ∷ ls) = of_line l + of_lines ls

  abbrev pub of_task : Option (ReplayTask P) → ℕ
  of_task (some (ReplayTask.replaying lines failed)) = of_lines lines + of_lines failed
  of_task (some ReplayTask.scheduled) = 0
  of_task (some ReplayTask.finished) = 0
  of_task none = 0

  abbrev pub of_event : Event P → ℕ
  of_event (Event.enqueued a r) = f r.payload
  of_event Event.got = 0
  of_event (Event.write_ended a n) = 0
  of_event (Event.replayed a) = 0
  of_event (Event.started count) = 0

  abbrev pub of_events : List (Event P) → ℕ
  of_events [] = 0
  of_events (e ∷ es) = of_event e + of_events es

  abbrev pub total : WriteBehind P → ℕ
  total self =
      of_rows self.queue
      + of_rows self.in_flight
      + of_task self.replay_task
      + of_lines self.overflow
      + of_rows self.written

  -- A record that the database takes after its write has timed out counts once more.
  abbrev pub of_late : Attempt → Row P → ℕ
  of_late a r = if a.is_written then 0 else if a.is_late then f r.payload else 0

  abbrev pub of_late_line : Attempt → Line P → ℕ
  of_late_line a (Line.row r) = of_late a r
  of_late_line a (Line.malformed t) = 0

  -- The line that the replay writes next, if that write is late.
  abbrev pub of_late_task : Attempt → Option (ReplayTask P) → ℕ
  of_late_task a (some (ReplayTask.replaying (l ∷ ls) failed)) = of_late_line a l
  of_late_task a (some (ReplayTask.replaying [] failed)) = 0
  of_late_task a (some ReplayTask.scheduled) = 0
  of_late_task a (some ReplayTask.finished) = 0
  of_late_task a none = 0

  abbrev pub of_late_found : Attempt → Option (Row P × List (Row P)) → ℕ
  of_late_found a none = 0
  of_late_found a (some found) = of_late a found.0

  pub of_rows-append : (rs ss : List (Row P)) → of_rows (rs ++ ss) ≡ of_rows rs + of_rows ss
  of_rows-append [] ss = omega arith
  of_rows-append (r ∷ rs) ss = omega (arith, of_rows-append rs ss)

  pub of_lines-append : (ls ms : List (Line P)) → of_lines (ls ++ ms) ≡ of_lines ls + of_lines ms
  of_lines-append [] ms = omega arith
  of_lines-append (l ∷ ls) ms = omega (arith, of_lines-append ls ms)

  pub payload-identified : (fresh : ℕ) (r : Row P) → f (identified fresh r).payload ≡ f r.payload
  unfolding identified
  payload-identified fresh r = elim (Option-cases r.write_id) [
    | inl e ↦ rw e refl
    | inr (i, e) ↦ rw e refl
  ]

  pub hand_out-total :
      (q : List (Row P)) (self : WriteBehind P)
      → self.queue ≡ q
      → total (hand_out q self) ≡ total self
  unfolding hand_out
  hand_out-total [] self e = refl
  hand_out-total (r ∷ rest) self e = elim (Bool-cases (ltb (length self.in_flight) self.workers)) [
    | inl b ↦ rw (b, e) (omega (arith, of_rows-append self.in_flight (r ∷ [])))
    | inr b ↦ rw b refl
  ]

  -- The record that is picked and the others weigh as much as all.
  pub Splits : List (Row P) → Option (Row P × List (Row P)) → Type 0
  Splits rs none = Unit
  Splits rs (some found) = of_rows rs ≡ f (found.0).payload + of_rows found.1

  after_first-Splits :
      (r : Row P) (rs : List (Row P)) (o : Option (Row P × List (Row P)))
      → Splits rs o
      → Splits (r ∷ rs) (after_first r o)
  unfolding after_first Splits
  after_first-Splits r rs none h = tt
  after_first-Splits r rs (some found) h = omega arith

  pub pick-Splits : (n : ℕ) (rs : List (Row P)) → Splits rs (pick n rs)
  unfolding pick Splits
  pick-Splits n [] = tt
  pick-Splits zero (r ∷ rs) = omega arith
  pick-Splits (suc n) (r ∷ rs) = after_first-Splits r rs (pick n rs) (pick-Splits n rs)

  pub start-total :
      (n count : ℕ) (self : WriteBehind P)
      → (n ≡ 0 → self.replay_task ≡ none)
      → total (create_workers n count self) ≡ total self
  unfolding create_workers
  start-total zero count self h = let e = h refl in rw e refl
  start-total (suc n) count self h = refl

  write_late-total :
      (a : Attempt) (r : Row P) (self : WriteBehind P)
      → total (write_late a r self) ≡ total self + (if a.is_late then f r.payload else 0)
  unfolding write_late
  write_late-total a r self = elim (Bool-cases a.is_late) [
    | inl b ↦ rw b (omega (arith, of_rows-append self.written (r ∷ [])))
    | inr b ↦ rw b (omega arith)
  ]

  late_same :
      (late : Bool) (p q : P) → f p ≡ f q → (if late then f p else 0) ≡ (if late then f q else 0)
  late_same true p q e = e
  late_same false p q e = refl

  -- What a replay retains of a line weighs as much as the line, if the line is not written.
  pub replay_line-total :
      (a : Attempt) (l : Line P) (self : WriteBehind P)
      → total (replay_line a l self).0 + of_lines (replay_line a l self).1
        ≡ total self + of_line l + of_late_line a l
  unfolding replay_line
  replay_line-total a (Line.malformed t) self = omega arith
  replay_line-total a (Line.row r) self =
      let known = identified a.fresh r in
      elim (Bool-cases a.is_written) [
        | inl b ↦
            rw b (
              omega (arith, payload-identified a.fresh r, of_rows-append self.written (known ∷ [])))
        | inr b ↦ rw b (
            omega (
              arith,
              payload-identified a.fresh r,
              write_late-total a known self,
              late_same a.is_late known.payload r.payload (payload-identified a.fresh r),
            ))
      ]

  pub replay_line-task :
      (a : Attempt) (l : Line P) (self : WriteBehind P)
      → (replay_line a l self).0.replay_task ≡ self.replay_task
  unfolding replay_line write_late
  replay_line-task a (Line.malformed t) self = refl
  replay_line-task a (Line.row r) self = ground arith

  pub replay_from-total :
      (task : Option (ReplayTask P)) (a : Attempt) (self : WriteBehind P)
      → a.is_saved ≡ true
      → self.replay_task ≡ task
      → total (replay_from task a self) ≡ total self + of_late_task a task
  unfolding replay_from
  replay_from-total none a self b e = omega arith
  replay_from-total (some ReplayTask.finished) a self b e = omega arith
  replay_from-total (some ReplayTask.scheduled) a self b e = rw e (omega arith)
  replay_from-total (some (ReplayTask.replaying [] failed)) a self b e =
      rw (b, e) (omega (arith, of_lines-append self.overflow failed))
  replay_from-total (some (ReplayTask.replaying (line ∷ lines) failed)) a self b e =
      let (next, retained) = replay_line a line self in
      let same = replay_line-total a line self in
      let task = replay_line-task a line self ∙ e in
      omega (arith, of_lines-append failed retained, rw task at same)

  -- A line that is spilled weighs as much as its record.
  module _ (overflow_serialize : P → P) (same : (p : P) → f (overflow_serialize p) ≡ f p) where
    pub spill-total :
        (a : Attempt) (r : Row P) (self : WriteBehind P)
        → a.is_saved ≡ true
        → total (spill overflow_serialize a r self) ≡ total self + f r.payload
    unfolding spill
    spill-total a r self b =
        let line = record r { payload = overflow_serialize r.payload } in
        rw b (
          omega (
            arith,
            same r.payload,
            payload-identified a.fresh line,
            of_lines-append self.overflow (Line.row (identified a.fresh line) ∷ []),
          ))

    pub enqueue-total :
        (a : Attempt) (r : Row P) (self : WriteBehind P)
        → a.is_saved ≡ true
        → total (enqueue overflow_serialize a r self) ≡ total self + f r.payload
    unfolding enqueue
    enqueue-total a r self b = elim (Bool-cases (ltb (length self.queue) self.maxsize)) [
      | inl c ↦ rw c (omega (arith, of_rows-append self.queue (r ∷ [])))
      | inr c ↦ rw c (spill-total a r self b)
    ]

    pub write_or_spill-total :
        (a : Attempt) (r : Row P) (self : WriteBehind P)
        → a.is_saved ≡ true
        → total (write_or_spill overflow_serialize a r self)
          ≡ total self + f r.payload + of_late a r
    unfolding write_or_spill
    write_or_spill-total a r self b = elim (Bool-cases a.is_written) [
      | inl c ↦ rw c (omega (arith, of_rows-append self.written (r ∷ [])))
      | inr c ↦
          rw c (omega (arith, spill-total a r (write_late a r self) b, write_late-total a r self))
    ]

    pub end_picked-total :
        (a : Attempt) (o : Option (Row P × List (Row P))) (self : WriteBehind P)
        → a.is_saved ≡ true
        → Splits self.in_flight o
        → total (end_picked overflow_serialize a o self) ≡ total self + of_late_found a o
    unfolding end_picked Splits
    end_picked-total a none self b h = omega arith
    end_picked-total a (some found) self b h =
        omega (arith, write_or_spill-total a found.0 (record self { in_flight = found.1 }) b)
