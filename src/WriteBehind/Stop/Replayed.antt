-- ===== src/WriteBehind/Stop/Replayed.antt =====
-- db_write_behind.py: the end of the replay, for which a stop waits.
use llm_plug.Common.{
  ℕ, suc, ◌+◌, sym, ◌∙◌, true, Option, none, some, List, [], ◌∷◌, ◌++◌, ◌≡◌, refl, arith, subst,
}
use llm_plug.WriteBehind.{
  write_late, Line, ReplayTask, WriteBehind, Attempt, replay_line, replay_from, replay_step,
}
use llm_plug.WriteBehind.Conservation.{of_late_line, total, replay_from-total}
use llm_plug.WriteBehind.Stop.{await_lines, await_replay}

-- Every spill of a phase can write the file.
abbrev pub AllSaved : (ℕ → Attempt) → Type 0
AllSaved outcome = (n : ℕ) → (outcome n).is_saved ≡ true

module _ {P : Type 0} where
  replay_line-queue :
      (a : Attempt) (l : Line P) (self : WriteBehind P)
      → (replay_line a l self).0.queue ≡ self.queue
  unfolding replay_line write_late
  replay_line-queue a (Line.malformed t) self = refl
  replay_line-queue a (Line.row r) self = ground arith

  replay_line-in_flight :
      (a : Attempt) (l : Line P) (self : WriteBehind P)
      → (replay_line a l self).0.in_flight ≡ self.in_flight
  unfolding replay_line write_late
  replay_line-in_flight a (Line.malformed t) self = refl
  replay_line-in_flight a (Line.row r) self = ground arith

  module _ (f : P → ℕ) (g : ℕ → ℕ) where
    -- What the replay writes late until it ends.
    abbrev pub of_late_lines : (ℕ → Attempt) → ℕ → List (Line P) → ℕ
    of_late_lines outcome n [] = 0
    of_late_lines outcome n (l ∷ ls) =
        of_late_line f g (outcome n) l + of_late_lines outcome (suc n) ls

    abbrev pub of_late_replay : (ℕ → Attempt) → Option (ReplayTask P) → List (Line P) → ℕ
    of_late_replay outcome none overflow = 0
    of_late_replay outcome (some ReplayTask.finished) overflow = 0
    of_late_replay outcome (some ReplayTask.scheduled) overflow = of_late_lines outcome 1 overflow
    of_late_replay outcome (some (ReplayTask.replaying ls failed)) overflow =
        of_late_lines outcome 0 ls

    pub record Awaited (late : ℕ) (self next : WriteBehind P) : Type 0 where
      pub same : total f g next ≡ total f g self + late
      pub queue : next.queue ≡ self.queue
      pub in_flight : next.in_flight ≡ self.in_flight
      pub task : next.replay_task ≡ none

    await_lines-Awaited :
        (outcome : ℕ → Attempt) (n : ℕ) (ls failed : List (Line P)) (self : WriteBehind P)
        → AllSaved outcome
        → self.replay_task ≡ some (ReplayTask.replaying ls failed)
        → Awaited (of_late_lines outcome n ls) self (await_lines outcome n ls self)
    unfolding await_lines replay_step replay_from
    await_lines-Awaited outcome n [] failed self s e =
        let task = some (ReplayTask.replaying [] failed) in
        let same = replay_from-total f g task (outcome n) self (s n) e in
        subst (λ t. Awaited 0 self (record (replay_from t (outcome n) self) { replay_task = none }))
          (sym e)
          (record { same = omega (arith, same); queue = refl; in_flight = refl; task = refl })
    await_lines-Awaited outcome n (l ∷ ls) failed self s e =
        let task = some (ReplayTask.replaying (l ∷ ls) failed) in
        let later =
          await_lines-Awaited outcome (suc n) ls (failed ++ (replay_line (outcome n) l self).1)
            (replay_from task (outcome n) self) s refl in
        subst
          (λ t.
            Awaited (of_late_lines outcome n (l ∷ ls)) self
              (await_lines outcome (suc n) ls (replay_from t (outcome n) self)))
          (sym e)
          (record {
            same = omega (arith, later.same, replay_from-total f g task (outcome n) self (s n) e);
            queue = later.queue ∙ replay_line-queue (outcome n) l self;
            in_flight = later.in_flight ∙ replay_line-in_flight (outcome n) l self;
            task = later.task;
          })

    pub await_replay-Awaited :
        (outcome : ℕ → Attempt) (task : Option (ReplayTask P)) (self : WriteBehind P)
        → AllSaved outcome
        → self.replay_task ≡ task
        → Awaited (of_late_replay outcome task self.overflow) self (await_replay outcome task self)
    unfolding await_replay replay_step replay_from
    await_replay-Awaited outcome none self s e = record {
      same = omega arith;
      queue = refl;
      in_flight = refl;
      task = e;
    }
    await_replay-Awaited outcome (some ReplayTask.finished) self s e = record {
      same = rw e (omega arith);
      queue = refl;
      in_flight = refl;
      task = refl;
    }
    await_replay-Awaited outcome (some ReplayTask.scheduled) self s e =
        let task = some ReplayTask.scheduled in
        let later =
          await_lines-Awaited outcome 1 self.overflow [] (replay_from task (outcome 0) self) s
            refl in
        subst
          (λ t.
            Awaited (of_late_lines outcome 1 self.overflow) self
              (await_lines outcome 1 self.overflow (replay_from t (outcome 0) self)))
          (sym e)
          (record {
            same = omega (arith, later.same, replay_from-total f g task (outcome 0) self (s 0) e);
            queue = later.queue;
            in_flight = later.in_flight;
            task = later.task;
          })
    await_replay-Awaited outcome (some (ReplayTask.replaying ls failed)) self s e =
        await_lines-Awaited outcome 0 ls failed self s e
