-- ===== src/RateLimiter.antt =====
-- rate_limiter.py: the sliding window of permits that a channel's requests wait for. A queue holds
-- the times of the permits, oldest first.
pub mod Window
pub mod Permits
pub mod Waiting
use llm_plug.Common.{
  ℕ, zero, suc, ◌+◌, ◌-◌, String, Bool, true, false, Option, none, some, List, [], ◌∷◌, ◌++◌,
  if◌then◌else◌, ◌==◌, string_eq, nat_eq, ltb, leb, length,
}
use llm_plug.Dict.{Dict, get, get_or, put, remove}

abbrev pub Windows : Type 0
Windows = Dict String (List ℕ)

-- `while q and now - q[0] >= window_seconds: q.popleft()`
unfoldable pub drop_expired : ℕ → ℕ → List ℕ → List ℕ
drop_expired window now [] = []
drop_expired window now (t ∷ q) =
    let rest = drop_expired window now q in if leb (t + window) now then rest else t ∷ q

-- A turn of the loop gives a permit, or the time until the oldest permit slides out.
pub data Poll : Type 0 where
  granted : Poll
  waits : ℕ → Poll

unfoldable pub wait_needed : ℕ → ℕ → List ℕ → ℕ
wait_needed window now [] = 0
wait_needed window now (t ∷ q) = (t + window) - now

unfoldable pub take_permit : ℕ → ℕ → ℕ → List ℕ → Poll × List ℕ
unfolding wait_needed
take_permit max_requests window now q =
    if ltb (length q) max_requests
    then (granted, q ++ now ∷ [])
    else (waits (wait_needed window now q), q)

-- The part of a turn that runs under the lock.
unfoldable pub poll : String → ℕ → ℕ → ℕ → Windows → Poll × Windows
unfolding drop_expired take_permit
poll key max_requests window now windows =
    let (result, q) =
      take_permit max_requests window now (drop_expired window now (get_or [] key windows)) in
    (result, put key q windows)

-- A deadline of `none` waits without end.
unfoldable pub is_over : Option ℕ → ℕ → Bool
is_over none t = false
is_over (some deadline) t = leb deadline t

-- The loop over the clock readings of its turns: one under the lock, and one after it for the
-- comparison with the deadline. `none` is a call that still waits after these turns.
unfoldable pub acquire_loop :
    String → ℕ → ℕ → Option ℕ → List (ℕ × ℕ) → Windows → Option Bool × Windows
unfolding is_over
acquire_loop key max_requests window deadline [] windows = (none, windows)
acquire_loop key max_requests window deadline ((now, later) ∷ readings) windows =
    let (result, windows') = poll key max_requests window now windows in
    elim result [
      | granted ↦ (some true, windows')
      | waits needed ↦ elim (is_over deadline (later + needed)) [
        | true ↦ (some false, windows')
        | false ↦ acquire_loop key max_requests window deadline readings windows'
      ]
    ]

unfoldable pub deadline_of : Option ℕ → ℕ → Option ℕ
deadline_of none start = none
deadline_of (some timeout) start = some (start + timeout)

unfoldable pub acquire :
    String → ℕ → ℕ → Option ℕ → ℕ → List (ℕ × ℕ) → Windows → Option Bool × Windows
unfolding acquire_loop deadline_of
acquire key zero window wait_timeout start readings windows = (some true, windows)
acquire key (suc n) window wait_timeout start readings windows =
    acquire_loop key (suc n) window (deadline_of wait_timeout start) readings windows

unfoldable pub remove_key : String → Windows → Windows
remove_key key windows = remove key windows
