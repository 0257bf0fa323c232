-- ===== src/WriteBehind/Stop.antt =====
-- db_write_behind.py: the stop of the queue. The writes to come end as `outcome` says, each with
-- its number.
pub mod Replayed
pub mod Settled
use llm_plug.Common.{
  ℕ, zero, suc, ◌+◌, ◌≤◌, sym, ◌∙◌, inl, inr, Bool-cases, Bool, true, false, Option, none, some,
  List, [], ◌∷◌, ◌++◌, if◌then◌else◌, ◌≡◌, refl, arith, length,
}
use llm_plug.WriteBehind.{
  Row, Line, ReplayTask, WriteBehind, Attempt, replay_line, replay_from, replay_step,
  write_or_spill,
}

module _ {P : Type 0} where
  -- A worker that is cancelled gives its record up; the write may still reach the database.
  unfoldable pub cancel_writes : (ℕ → Attempt) → ℕ → List (Row P) → WriteBehind P → WriteBehind P
  cancel_writes outcome n [] self = record self { workers = 0; in_flight = [] }
  cancel_writes outcome n (r ∷ rs) self = cancel_writes outcome (suc n) rs (record self {
    written = if (outcome n).is_written then self.written ++ r ∷ [] else self.written;
  })

  -- await replay_task, with the lines that it still has to write
  unfoldable pub await_lines : (ℕ → Attempt) → ℕ → List (Line P) → WriteBehind P → WriteBehind P
  unfolding replay_step
  await_lines outcome n [] self = record (replay_step (outcome n) self) { replay_task = none }
  await_lines outcome n (l ∷ ls) self =
      await_lines outcome (suc n) ls (replay_step (outcome n) self)

  unfoldable pub await_replay :
      (ℕ → Attempt) → Option (ReplayTask P) → WriteBehind P → WriteBehind P
  unfolding await_lines replay_step
  await_replay outcome none self = self
  await_replay outcome (some ReplayTask.finished) self = record self { replay_task = none }
  await_replay outcome (some ReplayTask.scheduled) self =
      await_lines outcome 1 self.overflow (replay_step (outcome 0) self)
  await_replay outcome (some (ReplayTask.replaying lines failed)) self =
      await_lines outcome 0 lines self

  module _ (overflow_serialize : P → P) where
    -- while not queue.empty()
    unfoldable pub drain_queue : (ℕ → Attempt) → ℕ → List (Row P) → WriteBehind P → WriteBehind P
    unfolding write_or_spill
    drain_queue outcome n [] self = record self { queue = [] }
    drain_queue outcome n (r ∷ rest) self =
        drain_queue outcome (suc n) rest
          (write_or_spill overflow_serialize (outcome n) r (record self { queue = rest }))

    -- drain, without workers
    unfoldable pub drain : (replay writes : ℕ → Attempt) → WriteBehind P → WriteBehind P
    unfolding await_replay drain_queue
    drain replay writes self =
        let replayed = await_replay replay self.replay_task self in
        drain_queue writes 0 replayed.queue replayed

    unfoldable pub stop : (cancelled replay writes : ℕ → Attempt) → WriteBehind P → WriteBehind P
    unfolding cancel_writes drain
    stop cancelled replay writes self =
        drain replay writes (cancel_writes cancelled 0 self.in_flight self)
