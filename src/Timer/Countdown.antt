-- ===== src/Timer/Countdown.antt =====
-- What the countdown keeps and how far an interval takes it.
use sapi_game.Base.{
  ℕ, zero, suc, ◌+◌, ◌-◌, ◌*◌, ◌/◌, ◌%◌, ◌≤◌, ◌<◌, min, ◌≡◌, inl, inr, true, not, ◌&&◌, ◌||◌, arith,
  ltb, ◌==◌, Bool-cases,
}
use sapi_game.Timer.{
  Timer, expire, stop, publish_time, set, start, tick, advance_rounds, advance, on_interval,
  on_detach,
}

-- A timer that runs has time left.
abbrev pub HasTime : Timer → Type 0
HasTime t = t.is_running ≡ true → 0 < t.remaining_time

module _ (run : ℕ → Timer → Timer)
    (keeps : (time : ℕ) (t : Timer) → HasTime t → HasTime (run time t)) where
  set-HasTime : (time now : ℕ) (t : Timer) → HasTime t → HasTime (set run time now t)
  unfolding set expire publish_time
  set-HasTime time now t h = elim (Bool-cases (time == 0 && t.is_running)) [
    | inl e ↦ rw e (keeps 0 _ (ground (arith, e)))
    | inr e ↦ rw e (ground (arith, e))
  ]

  start-HasTime : (now : ℕ) (t : Timer) → HasTime t → HasTime (start run now t)
  unfolding start publish_time
  start-HasTime now t h =
      elim (Bool-cases (t.remaining_time == 0 || t.is_running || not t.is_attached)) [
        | inl e ↦ rw e h
        | inr e ↦ rw e (keeps t.remaining_time _ (ground (arith, e)))
      ]

  tick-HasTime : (t : Timer) → HasTime (tick run t)
  unfolding tick expire publish_time
  tick-HasTime t = keeps _ _ (ground arith)

  advance_rounds-HasTime : (n : ℕ) (t : Timer) → HasTime t → HasTime (advance_rounds run n t)
  unfolding advance_rounds
  advance_rounds-HasTime zero t h = h
  advance_rounds-HasTime (suc n) t h =
      ground (arith, h, advance_rounds-HasTime n (tick run t) (tick-HasTime t))

  advance-HasTime : (steps : ℕ) (t : Timer) → HasTime t → HasTime (advance run steps t)
  unfolding advance
  advance-HasTime steps t h = elim (Bool-cases (steps == 0 || not t.is_running)) [
    | inl e ↦ rw e h
    | inr e ↦ rw e (advance_rounds-HasTime (min steps t.remaining_time) t h)
  ]

  on_interval-HasTime : (now : ℕ) (t : Timer) → HasTime t → HasTime (on_interval run now t)
  unfolding on_interval
  on_interval-HasTime now t h =
      elim (Bool-cases (not t.is_running || ltb (now - t.last_time) 1000)) [
        | inl e ↦ rw e h
        | inr e ↦ elim (Bool-cases t.compensate) [
          | inl c ↦ rw (e, c) (advance-HasTime _ _ h)
          | inr c ↦ rw (e, c) (advance-HasTime 1 _ h)
        ]
      ]

-- One call from outside or one interval event.
pub data Step (run : ℕ → Timer → Timer) (t : Timer) : Timer → Type 0 where
  by_set : (time now : ℕ) → Step run t (set run time now t)
  by_start : (now : ℕ) → Step run t (start run now t)
  by_stop : Step run t (stop t)
  by_interval : (now : ℕ) → Step run t (on_interval run now t)
  by_detach : Step run t (on_detach t)

pub data Reached (run : ℕ → Timer → Timer) (first : Timer) : Timer → Type 0 where
  here : Reached run first first
  then_step : {t u : Timer} → Reached run first t → Step run t u → Reached run first u

Step-HasTime :
    (run : ℕ → Timer → Timer)
    → ((time : ℕ) (t : Timer) → HasTime t → HasTime (run time t))
    → (t u : Timer) → HasTime t
    → Step run t u
    → HasTime u
unfolding stop on_detach
Step-HasTime run keeps t _ h (by_set time now) = set-HasTime run keeps time now t h
Step-HasTime run keeps t _ h (by_start now) = start-HasTime run keeps now t h
Step-HasTime run keeps t _ h by_stop = ground arith
Step-HasTime run keeps t _ h (by_interval now) = on_interval-HasTime run keeps now t h
Step-HasTime run keeps t _ h by_detach = ground arith

-- In every state that set, start, stop, the interval event and the detaching reach from one in
-- which it holds, a timer that runs has time left, whatever the subscribers do as long as they
-- keep that.
pub Reached-HasTime :
    (run : ℕ → Timer → Timer) (first t : Timer)
    → ((time : ℕ) (u : Timer) → HasTime u → HasTime (run time u))
    → HasTime first
    → Reached run first t
    → HasTime t
Reached-HasTime run first _ keeps h here = h
Reached-HasTime run first t keeps h (then_step r s) =
    Step-HasTime run keeps _ t (Reached-HasTime run first _ keeps h r) s

module _ (run : ℕ → Timer → Timer) (quiet : (time : ℕ) (t : Timer) → run time t ≡ t) where
  -- What a tick leaves of a timer that runs.
  tick-quiet :
      (t : Timer)
      → t.is_running ≡ true
      → ((tick run t).remaining_time ≡ t.remaining_time - 1)
        × ((tick run t).is_running ≡ not (t.remaining_time - 1 == 0))
        × ((tick run t).last_time ≡ t.last_time)
        × ((tick run t).compensate ≡ t.compensate)
  unfolding tick publish_time expire
  tick-quiet t e = rw quiet (ground (arith, e))

  advance_rounds-quiet :
      (n : ℕ) (t : Timer)
      → t.is_running ≡ true
      → n ≤ t.remaining_time
      → 0 < t.remaining_time
      → ((advance_rounds run n t).remaining_time ≡ t.remaining_time - n)
        × ((advance_rounds run n t).is_running ≡ not (t.remaining_time == n))
        × ((advance_rounds run n t).last_time ≡ t.last_time)
        × ((advance_rounds run n t).compensate ≡ t.compensate)
  unfolding advance_rounds
  advance_rounds-quiet zero t e within left = ground (arith, e)
  advance_rounds-quiet (suc zero) t e within left = ground (arith, e, tick-quiet t e)
  advance_rounds-quiet (suc (suc n)) t e within left =
      ground (arith, e, tick-quiet t e, advance_rounds-quiet (suc n) (tick run t))

  -- With subscribers that leave the timer as it is, an interval event at least a second after the
  -- last time of a running timer that has time left and compensates takes as many seconds as have
  -- passed, or all that are left; the timer runs on exactly when some are left, and still compensates;
  -- and the part of a second that is not counted is kept: with it the last time is that of the clock.
  pub on_interval_compensates :
      (now : ℕ) (t : Timer)
      → HasTime t
      → t.is_running ≡ true
      → t.compensate ≡ true
      → t.last_time + 1000 ≤ now
      → ((on_interval run now t).remaining_time ≡ t.remaining_time - (now - t.last_time) / 1000)
        × ((on_interval run now t).is_running ≡ ltb ((now - t.last_time) / 1000) t.remaining_time)
        × ((on_interval run now t).last_time + (now - t.last_time) % 1000 ≡ now)
        × ((on_interval run now t).compensate ≡ true)
  unfolding on_interval advance
  on_interval_compensates now t h e c late =
      let steps = (now - t.last_time) / 1000 in
      let later = record t { last_time = t.last_time + steps * 1000 } in
      ground (arith, e, c, h e, advance_rounds-quiet (min steps t.remaining_time) later)
