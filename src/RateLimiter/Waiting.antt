-- ===== src/RateLimiter/Waiting.antt =====
-- rate_limiter.py: a call with a timeout comes to an end.
use llm_plug.Common.{
  ℕ, zero, suc, ◌+◌, ◌≤◌, ◌<◌, String, Bool, true, false, some, List, [], ◌∷◌, ◌≡◌, refl, arith,
  leb, length, Bool-cases, inl, inr, ◌⊎◌,
}
use llm_plug.RateLimiter.{
  Windows, Poll, granted, waits, poll, is_over, acquire_loop, acquire, deadline_of,
}

-- Clock readings of a call's turns, none before `start`: between two turns the call sleeps, which
-- takes a tick at least.
abbrev pub IsTicking : ℕ → List (ℕ × ℕ) → Type 0
IsTicking start [] = Unit
IsTicking start ((now, later) ∷ readings) =
    (start ≤ now) × (now ≤ later) × IsTicking (later + 1) readings

Poll-cases : (result : Poll) → (result ≡ granted) ⊎ ((needed : ℕ) × (result ≡ waits needed))
Poll-cases granted = inl refl
Poll-cases (waits needed) = inr (needed, refl)

loop-returns :
    (key : String) (limit window deadline start : ℕ) (readings : List (ℕ × ℕ)) (windows : Windows)
    → IsTicking start readings
    → start ≤ deadline
    → deadline < start + length readings
    → (answer : Bool) × ((acquire_loop key limit window (some deadline) readings windows).0
        ≡ some answer)
unfolding acquire_loop is_over
loop-returns key limit window deadline start [] windows ticks early enough = absurd (omega arith)
loop-returns key limit window deadline start ((now, later) ∷ readings) windows ticks early enough =
    let turn = poll key limit window now windows in
    elim (Poll-cases turn.0) [
      | inl e ↦ (true, rw (e, acquire_loop) refl)
      | inr (needed, e) ↦ elim (Bool-cases (leb deadline (later + needed))) [
        | inl b ↦ (false, rw (e, acquire_loop) (rw b refl))
        | inr b ↦
            let (answer, rest) =
              loop-returns key limit window deadline (later + 1) readings turn.1 ticks.2
                (ground arith) (omega arith) in
            (answer, rw (e, acquire_loop) (rw b rest))
      ]
    ]

-- Given clock readings that tick, a call with a timeout has its answer after as many turns as the
-- timeout has ticks and one more.
pub acquire-returns :
    (key : String) (limit window timeout start : ℕ) (readings : List (ℕ × ℕ)) (windows : Windows)
    → IsTicking start readings
    → timeout < length readings
    → (answer : Bool) × ((acquire key limit window (some timeout) start readings windows).0
        ≡ some answer)
unfolding acquire deadline_of
acquire-returns key zero window timeout start readings windows ticks enough = (true, refl)
acquire-returns key (suc n) window timeout start readings windows ticks enough =
    loop-returns key (suc n) window (start + timeout) start readings windows ticks (omega arith)
      (omega arith)
