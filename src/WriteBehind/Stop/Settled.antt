-- ===== src/WriteBehind/Stop/Settled.antt =====
-- db_write_behind.py: what a stop leaves behind.
use llm_plug.Common.{
  ℕ, suc, ◌+◌, ◌∙◌, inl, inr, Bool-cases, List, [], ◌∷◌, ◌++◌, if◌then◌else◌, ◌≡◌, refl, arith, ap,
}
use llm_plug.WriteBehind.{write_late, Row, WriteBehind, Attempt, spill, write_or_spill}
use llm_plug.WriteBehind.Conservation.{
  of_late, total, of_rows, of_lines, of_task, of_rows-append, write_or_spill-total,
}
use llm_plug.WriteBehind.Stop.Replayed.{AllSaved, of_late_replay, await_replay-Awaited}
use llm_plug.WriteBehind.Stop.{cancel_writes, await_replay, drain_queue, drain, stop}

module _ {P : Type 0} where
  -- What is in flight when the workers are cancelled and does not reach the database.
  abbrev pub given_up : (ℕ → Attempt) → ℕ → List (Row P) → List (Row P)
  given_up outcome n [] = []
  given_up outcome n (r ∷ rs) =
      let rest = given_up outcome (suc n) rs in if (outcome n).is_written then rest else r ∷ rest

  write_or_spill-in_flight :
      (overflow_serialize : P → P) (a : Attempt) (r : Row P) (self : WriteBehind P)
      → (write_or_spill overflow_serialize a r self).in_flight ≡ self.in_flight
  unfolding write_or_spill spill write_late
  write_or_spill-in_flight overflow_serialize a r self = ground arith

  write_or_spill-task :
      (overflow_serialize : P → P) (a : Attempt) (r : Row P) (self : WriteBehind P)
      → (write_or_spill overflow_serialize a r self).replay_task ≡ self.replay_task
  unfolding write_or_spill spill write_late
  write_or_spill-task overflow_serialize a r self = ground arith

  write_or_spill-queue :
      (overflow_serialize : P → P) (a : Attempt) (r : Row P) (self : WriteBehind P)
      → (write_or_spill overflow_serialize a r self).queue ≡ self.queue
  unfolding write_or_spill spill write_late
  write_or_spill-queue overflow_serialize a r self = ground arith

  module _ (f : P → ℕ) (g : ℕ → ℕ) where
    -- What the drain of the queue writes late.
    abbrev pub of_late_rows : (ℕ → Attempt) → ℕ → List (Row P) → ℕ
    of_late_rows outcome n [] = 0
    of_late_rows outcome n (r ∷ rs) = of_late f g (outcome n) r + of_late_rows outcome (suc n) rs

    module _ (overflow_serialize : P → P) (same : (p : P) → f (overflow_serialize p) ≡ f p) where
      record Drained (late : ℕ) (self next : WriteBehind P) : Type 0 where
        whole : total f g next ≡ total f g self + late
        in_flight : next.in_flight ≡ self.in_flight
        task : next.replay_task ≡ self.replay_task
        queue : next.queue ≡ []

      drain_queue-Drained :
          (outcome : ℕ → Attempt) (n : ℕ) (q : List (Row P)) (self : WriteBehind P)
          → AllSaved outcome
          → self.queue ≡ q
          → Drained
              (of_late_rows outcome n q)
              self
              (drain_queue overflow_serialize outcome n q self)
      unfolding drain_queue
      drain_queue-Drained outcome n [] self s e = record {
        whole = rw e (omega arith);
        in_flight = refl;
        task = refl;
        queue = refl;
      }
      drain_queue-Drained outcome n (r ∷ rest) self s e =
          let left = record self { queue = rest } in
          let next = write_or_spill overflow_serialize (outcome n) r left in
          let later =
            drain_queue-Drained outcome (suc n) rest next s
              (write_or_spill-queue overflow_serialize (outcome n) r left) in
          let one = write_or_spill-total f g overflow_serialize same (outcome n) r left (s n) in
          record {
            whole = omega (arith, later.whole, one, ap (of_rows f g) e);
            in_flight =
                later.in_flight ∙ write_or_spill-in_flight overflow_serialize (outcome n) r left;
            task = later.task ∙ write_or_spill-task overflow_serialize (outcome n) r left;
            queue = later.queue;
          }

      cancel_writes-total :
          (outcome : ℕ → Attempt) (n : ℕ) (rs : List (Row P)) (self : WriteBehind P)
          → total f g (cancel_writes outcome n rs self)
              + of_rows f g (given_up outcome n rs)
              + of_rows f g self.in_flight
            ≡ total f g self + of_rows f g rs
      unfolding cancel_writes
      cancel_writes-total outcome n [] self = omega arith
      cancel_writes-total outcome n (r ∷ rs) self = elim (Bool-cases (outcome n).is_written) [
        | inl b ↦
            let next = record self { written = self.written ++ r ∷ [] } in
            rw (b, cancel_writes)
              (omega (
                arith,
                cancel_writes-total outcome (suc n) rs next,
                of_rows-append f g self.written (r ∷ []),
              ))
        | inr b ↦ rw (b, cancel_writes) (omega (arith, cancel_writes-total outcome (suc n) rs self))
      ]

      -- A cancellation leaves the queue, the file and the replay as they are.
      record Cancelled (self next : WriteBehind P) : Type 0 where
        in_flight : next.in_flight ≡ []
        queue : next.queue ≡ self.queue
        overflow : next.overflow ≡ self.overflow
        task : next.replay_task ≡ self.replay_task

      cancel_writes-Cancelled :
          (outcome : ℕ → Attempt) (n : ℕ) (rs : List (Row P)) (self : WriteBehind P)
          → Cancelled self (cancel_writes outcome n rs self)
      unfolding cancel_writes
      cancel_writes-Cancelled outcome n [] self = record {
        in_flight = refl;
        queue = refl;
        overflow = refl;
        task = refl;
      }
      cancel_writes-Cancelled outcome n (r ∷ rs) self =
          let later = cancel_writes-Cancelled outcome (suc n) rs _ in
          record {
            in_flight = later.in_flight;
            queue = later.queue;
            overflow = later.overflow;
            task = later.task;
          }

      -- Where the overflow file can always be written, a stop leaves every record in the file or in
      -- the database, save those that a cancelled worker gives up, and in both if a write of the
      -- stop times out and still reaches the database: for any number given to each record's
      -- payload, which its serialization keeps, the sums over these three are the sum over all
      -- places before the stop and that of the writes that were late.
      pub stop-settles :
          (cancelled replay writes : ℕ → Attempt) (self : WriteBehind P)
          → AllSaved replay
          → AllSaved writes
          → of_lines f g (stop overflow_serialize cancelled replay writes self).overflow
              + of_rows f g (stop overflow_serialize cancelled replay writes self).written
              + of_rows f g (given_up cancelled 0 self.in_flight)
            ≡ total f g self
              + of_late_replay f g replay self.replay_task self.overflow
              + of_late_rows writes 0 self.queue
      unfolding stop drain
      stop-settles cancelled replay writes self s t =
          let idle = cancel_writes cancelled 0 self.in_flight self in
          let c = cancel_writes-Cancelled cancelled 0 self.in_flight self in
          let replayed = await_replay replay idle.replay_task idle in
          let a = await_replay-Awaited f g replay idle.replay_task idle s refl in
          let d = drain_queue-Drained writes 0 replayed.queue replayed t refl in
          let none_in_flight = d.in_flight ∙ a.in_flight ∙ c.in_flight in
          omega (
            arith,
            d.whole,
            a.same,
            cancel_writes-total cancelled 0 self.in_flight self,
            ap (of_rows f g) d.queue,
            ap (of_rows f g) none_in_flight,
            ap (of_task f g) (d.task ∙ a.task),
            ap (of_late_rows writes 0) (a.queue ∙ c.queue),
            ap (λ task. of_late_replay f g replay task idle.overflow) c.task,
            ap (of_late_replay f g replay self.replay_task) c.overflow,
          )
