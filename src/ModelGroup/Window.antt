-- ===== src/ModelGroup/Window.antt =====
-- proxy/model_group_dispatch.py: what a schedule blocks, on the clock's circle.
use llm_plug.Common.{
  ℕ, ◌+◌, ◌-◌, ◌%◌, ◌≤◌, ◌<◌, true, ◌&&◌, List, [], ◌∷◌, leb, ◌≡◌, refl, ◌↔◌, arith, Has,
  Bool-cases, inl, inr, ◌⊎◌, subst,
}
use llm_plug.ModelGroup.{TimeOfDay, minutes, TimeWindow, is_between, is_model_blocked_by_schedule}

-- How long ago the time `start` was, within a day.
unfoldable pub since : ℕ → ℕ → ℕ
since start current = (current + 1440 - start) % 1440

since-le :
    (start current : ℕ) → start ≤ current → current < 1440 → since start current ≡ current - start
unfolding since
since-le start current h b = omega arith

since-gt :
    (start current : ℕ)
    → current < start
    → start < 1440
    → since start current ≡ current + 1440 - start
unfolding since
since-gt start current h b = omega arith

since-cases :
    (start current : ℕ)
    → start < 1440
    → current < 1440
    → ((start ≤ current) × (since start current ≡ current - start))
      ⊎ ((current < start) × (since start current ≡ current + 1440 - start))
since-cases start current s c = elim (Bool-cases (leb start current)) [
  | inl b ↦ inl (ground arith, since-le start current (ground arith) c)
  | inr b ↦ inr (ground arith, since-gt start current (ground arith) s)
]

is_between_iff :
    (start stop current : ℕ)
    → start < 1440
    → stop < 1440
    → current < 1440
    → (is_between start stop current ≡ true) ↔ (since start current < since start stop)
unfolding is_between
is_between_iff start stop current start_in_day stop_in_day in_day =
    elim (since-cases start stop start_in_day stop_in_day) [
      | inl (b, e) ↦ elim (since-cases start current start_in_day in_day) [
        | inl (c, f) ↦ ground arith
        | inr (c, f) ↦ ground arith
      ]
      | inr (b, e) ↦ elim (since-cases start current start_in_day in_day) [
        | inl (c, f) ↦ ground arith
        | inr (c, f) ↦ ground arith
      ]
    ]

minutes-le : (t : TimeOfDay) → minutes t < 1440
unfolding minutes
minutes-le t = let h = t.hour_bound in let m = t.minute_bound in omega arith

-- A schedule blocks a minute of the day exactly if one of its enabled windows started less long
-- ago, around the clock, than it lasts.
pub is_model_blocked_by_schedule_iff :
    (current : ℕ) (windows : List TimeWindow)
    → current < 1440
    → (is_model_blocked_by_schedule current windows ≡ true) ↔ (
        (w : TimeWindow) × Has w windows
        × (w.enabled ≡ true)
        × (since (minutes w.start) current < since (minutes w.start) (minutes w.end)))
unfolding is_model_blocked_by_schedule
is_model_blocked_by_schedule_iff current [] in_day = (λ e. cc, λ (w, m, e, h). absurd m)
is_model_blocked_by_schedule_iff current (w ∷ windows) in_day =
    let (there, back) = is_model_blocked_by_schedule_iff current windows in_day in
    let (within, covered) =
      is_between_iff (minutes w.start) (minutes w.end) current (minutes-le w.start)
        (minutes-le w.end) in_day in
    (
      λ e. elim (Bool-cases (w.enabled && is_between (minutes w.start) (minutes w.end) current)) [
        | inl b ↦ (w, inl refl, ground arith, within (ground arith))
        | inr b ↦ let (v, m, on, h) = there (ground arith) in (v, inr m, on, h)
      ],
      λ (v, m, on, h). elim m [
        | inl e ↦
            let now = covered (
              subst (λ x. since (minutes x.start) current < since (minutes x.start) (minutes x.end))
                e h) in
            let enabled : w.enabled ≡ true = subst (λ x. x.enabled ≡ true) e on in ground arith
        | inr n ↦ let blocked = back (v, n, on, h) in ground arith
      ],
    )
