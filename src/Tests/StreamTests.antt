-- ===== src/Tests/StreamTests.antt =====
-- think_filter.py and db_write_behind.py: the theorems at concrete inputs.
use llm_plug.Common.{
  ◌++◌, some, List, zero, suc, ℕ, ◌+◌, true, false, none, [], ◌∷◌, ◌≡◌, refl, arith,
}
use llm_plug.Text.{Text, codes}
use llm_plug.ThinkFilter.{new_filter, feed, filter_stream}
use llm_plug.ThinkFilter.Bounds
use llm_plug.ThinkFilter.Bounds.{IsBounded}
use llm_plug.ThinkFilter.Chunks
use llm_plug.ThinkFilter.Cuts.{is_trapped, is_trapped-IsTrapped}
use llm_plug.ThinkFilter.Visible.{visible}
use llm_plug.WriteBehind.{Row, Line, WriteBehind, Attempt, Event, run}
use llm_plug.WriteBehind.Conservation.{total, of_events, of_rows, of_lines}
use llm_plug.WriteBehind.Runs
use llm_plug.WriteBehind.Runs.{of_late_run}
use llm_plug.WriteBehind.Stop.Replayed.{of_late_replay}
use llm_plug.WriteBehind.Stop.{stop}
use llm_plug.WriteBehind.Stop.Settled
use llm_plug.WriteBehind.Stop.Settled.{given_up, of_late_rows}

feed-IsBounded_example : IsBounded (feed new_filter (codes "a<think>b")).0
feed-IsBounded_example = Bounds.feed-IsBounded new_filter (codes "a<think>b") (λ i. omega arith)

-- A block that is cut into chunks is removed.
abbrev cut_block : List Text
cut_block = codes "a<thi" ∷ codes "nk>b</th" ∷ codes "ink>c" ∷ []

filter_stream-visible_example :
    filter_stream new_filter cut_block ≡ visible (codes "a<think>b</think>c")
unfolding is_trapped
filter_stream-visible_example = Chunks.filter_stream-visible cut_block (omega arith) (
  is_trapped-IsTrapped (codes "a<thi") refl,
  (
    is_trapped-IsTrapped (codes "a<think>b</th") refl,
    (is_trapped-IsTrapped (codes "a<think>b</think>c") refl, tt),
  ),
)

filter_cut_block : filter_stream new_filter cut_block ≡ codes "ac"
unfolding filter_stream
filter_cut_block = refl

trapped_block : is_trapped 6 (codes "a<think>b</think><") ≡ true
unfolding is_trapped
trapped_block = refl

-- What precedes a block is emitted twice if a chunk ends in the start of a tag right after the
-- block, and the block itself is emitted if the stream ends there.
feed_twice : filter_stream new_filter (codes "a<think>b</think><" ∷ codes "c" ∷ []) ≡ codes "aa<c"
unfolding filter_stream
feed_twice = refl

flush_block :
    filter_stream new_filter (codes "a<think>b</think><" ∷ []) ≡ codes "aa<think>b</think><"
unfolding filter_stream
flush_block = refl

abbrev row_of : ℕ → Row ℕ
row_of n = record { payload = n; write_id = none }

-- A queue of one place, and a file with a row and a malformed line.
abbrev queue : WriteBehind ℕ
queue = record {
  queue = [];
  maxsize = 1;
  in_flight = [];
  workers = 0;
  replay_task = none;
  overflow = Line.row (row_of 5) ∷ Line.malformed 9 ∷ [];
  written = [];
}

abbrev ends : ℕ → Attempt
ends n = record { is_written = true; is_late = false; is_saved = true; fresh = n }

abbrev fails : Attempt
fails = record { is_written = false; is_late = true; is_saved = true; fresh = 7 }

abbrev late : ℕ → Attempt
late n = fails

abbrev events : List (Event ℕ)
events =
    Event.enqueued (ends 0) (row_of 1)
    ∷ Event.enqueued (ends 1) (row_of 2)
    ∷ Event.started 1
    ∷ Event.got
    ∷ Event.replayed (ends 2)
    ∷ Event.write_ended fails 0
    ∷ Event.replayed fails
    ∷ []

run-total_example :
    total (λ n. n) (λ n. n) (run (λ n. n) events queue)
    ≡ total (λ n. n) (λ n. n) queue
      + of_events (λ n. n) (λ n. n) events
      + of_late_run (λ n. n) (λ n. n) (λ n. n) events queue
run-total_example =
    Runs.run-total (λ n. n) (λ n. n) (λ n. n) (λ n. refl) events queue
      (refl, (refl, (omega arith, (tt, (refl, (refl, (refl, tt))))))) (λ w. refl)

abbrev busy : WriteBehind ℕ
busy = record queue { queue = row_of 1 ∷ []; in_flight = row_of 2 ∷ row_of 3 ∷ []; workers = 2 }

abbrev cancelled : ℕ → Attempt
cancelled zero = ends 0
cancelled (suc n) = fails

stop-settles_example :
    of_lines (λ n. n) (λ n. n) (stop (λ n. n) cancelled ends late busy).overflow
      + of_rows (λ n. n) (λ n. n) (stop (λ n. n) cancelled ends late busy).written
      + of_rows (λ n. n) (λ n. n) (given_up cancelled 0 busy.in_flight)
    ≡ total (λ n. n) (λ n. n) busy
      + of_late_replay (λ n. n) (λ n. n) ends busy.replay_task busy.overflow
      + of_late_rows (λ n. n) (λ n. n) late 0 busy.queue
stop-settles_example =
    Settled.stop-settles (λ n. n) (λ n. n) (λ n. n) (λ n. refl) cancelled ends late busy (λ n. refl)
      (λ n. refl)

-- A record whose write times out and still reaches the database is there and in the file.
written_late : run (λ n. n) (Event.write_ended fails 0 ∷ []) busy ≡ record busy {
  in_flight = row_of 3 ∷ [];
  overflow = busy.overflow ++ Line.row (record { payload = 2; write_id = some 7 }) ∷ [];
  written = row_of 2 ∷ [];
}
unfolding run
written_late = refl
