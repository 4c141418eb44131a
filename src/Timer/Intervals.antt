-- ===== src/Timer/Intervals.antt =====
-- A countdown through any number of interval events.
use sapi_game.Base.{
  ℕ, ◌+◌, ◌-◌, ◌*◌, ◌/◌, ◌≤◌, ◌<◌, ◌≡◌, refl, ◌∙◌, ◌⊎◌, inl, inr, true, false, List, [], ◌∷◌, arith,
  ltb, not, ◌||◌, Bool-cases,
}
use sapi_game.Timer.{Timer, on_interval}
use sapi_game.Timer.Countdown.{HasTime, on_interval_compensates}

-- The interval events at the times `nows`, one after another.
abbrev pub on_intervals : (ℕ → Timer → Timer) → List ℕ → Timer → Timer
on_intervals run [] t = t
on_intervals run (now ∷ nows) t = on_intervals run nows (on_interval run now t)

-- A clock that does not go back.
abbrev pub Ascend : ℕ → List ℕ → Type 0
Ascend from [] = Unit {0}
Ascend from (now ∷ nows) = (from ≤ now) × Ascend now nows

abbrev pub last_of : ℕ → List ℕ → ℕ
last_of from [] = from
last_of from (now ∷ nows) = last_of now nows

-- What is left at the time `now` of `left` seconds from `first` on: while the timer runs, its time
-- is `first` and the seconds that it has taken, and is within a second of the clock.
abbrev Counts : ℕ → ℕ → ℕ → Timer → Type 0
Counts first left now t =
    (t.is_running ≡ true)
      × (t.compensate ≡ true)
      × (0 < t.remaining_time)
      × (t.last_time + t.remaining_time * 1000 ≡ first + left * 1000)
      × (first ≤ t.last_time)
      × (t.last_time ≤ now)
      × (now < t.last_time + 1000)
    ⊎ (t.is_running ≡ false) × (t.remaining_time ≡ 0) × (first + left * 1000 ≤ now)

module _ (run : ℕ → Timer → Timer) (quiet : (time : ℕ) (t : Timer) → run time t ≡ t) where
  on_interval-idle :
      (now : ℕ) (t : Timer)
      → (not t.is_running || ltb (now - t.last_time) 1000) ≡ true
      → on_interval run now t ≡ t
  unfolding on_interval
  on_interval-idle now t e = rw e refl

  on_interval-Counts :
      (first left before now : ℕ) (t : Timer)
      → before ≤ now
      → Counts first left before t
      → Counts first left now (on_interval run now t)
  on_interval-Counts first left before now t later (inr (stopped, none_left, over)) =
      rw (on_interval-idle now t (ground (arith, stopped)))
        (inr (stopped, none_left, omega (arith, over, later)))
  on_interval-Counts first left before now t later
        (inl (runs, comp, some_left, sum, start, from, near)) =
      elim (Bool-cases (ltb (now - t.last_time) 1000)) [
        | inl early ↦
            rw (on_interval-idle now t (ground (arith, early)))
              (inl (runs, comp, some_left, sum, start, omega arith, ground (arith, early)))
        | inr late ↦
            let due : t.last_time + 1000 ≤ now = ground (arith, late) in
            let (taken, going, kept, comp') =
              on_interval_compensates run quiet now t (λ e. some_left) runs comp due in
            elim (Bool-cases (ltb ((now - t.last_time) / 1000) t.remaining_time)) [
              | inl more ↦
                  let within : (now - t.last_time) / 1000 < t.remaining_time =
                    ground (arith, more) in
                  inl (
                    going ∙ more,
                    comp',
                    omega (arith, taken, within),
                    omega (arith, taken, within, kept, due, sum),
                    omega (arith, kept, due, start),
                    omega (arith, kept),
                    omega (arith, kept),
                  )
              | inr over ↦
                  let beyond : t.remaining_time ≤ (now - t.last_time) / 1000 =
                    ground (arith, over) in
                  inr (going ∙ over, omega (arith, taken, beyond), omega (arith, beyond, due, sum))
            ]
      ]

  on_intervals-Counts :
      (nows : List ℕ) (first left now : ℕ) (t : Timer)
      → Ascend now nows
      → Counts first left now t
      → Counts first left (last_of now nows) (on_intervals run nows t)
  on_intervals-Counts [] first left now t up c = c
  on_intervals-Counts (next ∷ nows) first left now t (later, up) c =
      on_intervals-Counts nows first left next (on_interval run next t) up
        (on_interval-Counts first left now next t later c)

  -- With subscribers that leave the timer as it is, and a clock that does not go back, any interval
  -- events, however many and however late, leave a running timer that has time left and compensates
  -- its seconds less all the whole seconds from its last time to the last event, or none where there
  -- were not as many; and it runs on exactly when some are left.
  pub on_intervals_lose_none :
      (nows : List ℕ) (t : Timer)
      → HasTime t
      → t.is_running ≡ true
      → t.compensate ≡ true
      → Ascend t.last_time nows
      → let passed = (last_of t.last_time nows - t.last_time) / 1000 in
        ((on_intervals run nows t).remaining_time ≡ t.remaining_time - passed)
        × ((on_intervals run nows t).is_running ≡ ltb passed t.remaining_time)
  on_intervals_lose_none nows t h e c up =
      elim (on_intervals-Counts nows t.last_time t.remaining_time t.last_time t up
        (inl (e, c, h e, refl, omega arith, omega arith, omega arith))) [
          | inl (runs, _, some_left, sum, start, from, near) ↦ (
            omega (arith, sum, start, from, near, some_left),
            runs ∙ ground (arith, sum, start, from, near, some_left),
          )
          | inr (stopped, none_left, over) ↦
              (omega (arith, none_left, over), stopped ∙ ground (arith, over))
        ]
