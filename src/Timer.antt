-- ===== src/Timer.antt =====
-- packages/core/src/gameComponent/common/timer/timer.ts: a countdown of whole seconds. `now` is
-- Date.now(), and `run` is what the subscribers of a published second do, which may be calls of the
-- timer; one that throws is caught by the code. What the trace is told is left out. Times are natural
-- numbers: the negative ones that `Math.max(0, time)` cuts, fractions and NaN are outside the model.
pub mod Countdown
pub mod Intervals
pub mod OnTime
mod Tests
use sapi_game.Base.{
  ℕ, zero, suc, ◌+◌, ◌-◌, ◌*◌, ◌/◌, ◌%◌, ◌^◌, ◌≤◌, ◌<◌, min, max, bit_and, bit_or, ◌≡◌, refl, sym,
  ap, ◌∙◌, subst, ◌≢◌, ◌↔◌, ◌⊎◌, inl, inr, Bool, true, false, not, ◌&&◌, ◌||◌, Option, none, some,
  List, [], ◌∷◌, ◌++◌, map, reverse, append-nil, append_assoc, arith, ltb, leb, ◌==◌, if◌then◌else◌,
  lt→ltb, le→ltb, ==_iff, ==_refl, Bool-cases, Option-cases, length, get_elem?, take, drop,
  replicate, length-append, nil_of_length, length-take, All-take, take_all-append, drop_all-append,
  All, All-append,
}

pub record Timer : Type 0 where
  pub remaining_time : ℕ
  pub is_running : Bool
  pub last_time : ℕ
  pub is_attached : Bool
  pub compensate : Bool

unfoldable pub expire : Timer → Timer
expire t = if t.is_running then record t { is_running = false } else t

unfoldable pub stop : Timer → Timer
stop t = record t { is_running = false }

module _ (run : ℕ → Timer → Timer) where
  unfoldable pub publish_time : ℕ → Timer → Timer
  publish_time time t = run time t

  unfoldable pub set : ℕ → ℕ → Timer → Timer
  set time now t =
      let next = record t { remaining_time = time; last_time = now } in
      if time == 0 && t.is_running then publish_time 0 (expire next) else next

  unfoldable pub start : ℕ → Timer → Timer
  start now t =
      if t.remaining_time == 0 || t.is_running || not t.is_attached
      then t
      else publish_time t.remaining_time (record t { is_running = true; last_time = now })

  -- A second less, and the end when none is left.
  unfoldable pub tick : Timer → Timer
  tick t =
      let current = t.remaining_time - 1 in
      let next = record t { remaining_time = current } in
      publish_time current (if current == 0 then expire next else next)

  -- The loop of `advance`, of at most `count` rounds.
  unfoldable pub advance_rounds : ℕ → Timer → Timer
  advance_rounds zero t = t
  advance_rounds (suc count) t =
      let rest = advance_rounds count (tick t) in if t.is_running then rest else t

  unfoldable pub advance : ℕ → Timer → Timer
  advance steps t =
      if steps == 0 || not t.is_running then t else advance_rounds (min steps t.remaining_time) t

  -- The handler of the interval event. A clock that went back gives a difference of 0 here.
  unfoldable pub on_interval : ℕ → Timer → Timer
  on_interval now t =
      let diff = now - t.last_time in
      if not t.is_running || ltb diff 1000
      then t
      else if t.compensate
      then advance (diff / 1000) (record t { last_time = t.last_time + diff / 1000 * 1000 })
      else advance 1 (record t { last_time = now })

  -- The initial time, and the start where the options ask for it.
  unfoldable pub on_attach : ℕ → Bool → ℕ → Timer → Timer
  on_attach initial auto_start now t =
      let ready = set initial now (record t { is_attached = true }) in
      if auto_start then start now ready else ready

unfoldable pub on_detach : Timer → Timer
on_detach t = record t { is_running = false; is_attached = false }
