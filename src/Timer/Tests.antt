-- ===== src/Timer/Tests.antt =====
-- The theorems on the timer, each applied to a concrete one.
use sapi_game.Base.{[], ◌∷◌}
use sapi_game.Base.{ℕ, ◌+◌, ◌-◌, ◌/◌, ◌%◌, ◌≡◌, refl, true, false, arith, ltb}
use sapi_game.Timer.OnTime.{
  Events, events_to_fire, includes_once, check_and_fire, check_and_fire_once,
}
use sapi_game.Timer.{Timer, on_interval, set, start}
use sapi_game.Timer.Intervals.{on_intervals, on_intervals_lose_none}
use sapi_game.Timer.Countdown.{
  HasTime, here, then_step, by_set, by_start, by_interval, Reached-HasTime, on_interval_compensates,
}

abbrev ignored : ℕ → Timer → Timer
ignored time t = t

abbrev attached : Timer
attached = record {
  remaining_time = 0;
  is_running = false;
  last_time = 0;
  is_attached = true;
  compensate = true;
}

abbrev started : Timer
started = start ignored 2000 (set ignored 5 1000 attached)

attached-HasTime : HasTime attached
attached-HasTime e = ground (arith, e)

Reached-HasTime_example : HasTime (on_interval ignored 4500 started)
Reached-HasTime_example =
    Reached-HasTime ignored attached (on_interval ignored 4500 started) (λ time t h. h)
      attached-HasTime
      (then_step (then_step (then_step here (by_set 5 1000)) (by_start 2000)) (by_interval 4500))

abbrev running : Timer
running = record {
  remaining_time = 5;
  is_running = true;
  last_time = 2000;
  is_attached = true;
  compensate = true;
}

on_interval_compensates_example :
    ((on_interval ignored 4500 running).remaining_time ≡ 5 - (4500 - 2000) / 1000)
    × ((on_interval ignored 4500 running).is_running ≡ ltb ((4500 - 2000) / 1000) 5)
    × ((on_interval ignored 4500 running).last_time + (4500 - 2000) % 1000 ≡ 4500)
    × ((on_interval ignored 4500 running).compensate ≡ true)
on_interval_compensates_example =
    on_interval_compensates ignored (λ time t. refl) 4500 running (λ e. omega arith) refl refl
      (omega arith)

on_intervals_lose_none_example :
    ((on_intervals ignored (3100 ∷ 3900 ∷ 4500 ∷ []) running).remaining_time
      ≡ 5 - (4500 - 2000) / 1000)
    × ((on_intervals ignored (3100 ∷ 3900 ∷ 4500 ∷ []) running).is_running
        ≡ ltb ((4500 - 2000) / 1000) 5)
on_intervals_lose_none_example =
    on_intervals_lose_none ignored (λ time t. refl) (3100 ∷ 3900 ∷ 4500 ∷ []) running
      (λ e. omega arith) refl refl (ground arith)

abbrev at_three : Events
at_three =
    record { ref = 1; time = 3; once = true }
    ∷ record { ref = 2; time = 3; once = false }
    ∷ record { ref = 3; time = 0; once = true }
    ∷ []

check_and_fire_once_example :
    includes_once 1 (check_and_fire (λ ref events. events) 3 at_three) ≡ false
unfolding events_to_fire
check_and_fire_once_example = check_and_fire_once (λ ref events. events) 3 at_three 1 refl
