-- ===== src/Timer/OnTime.antt =====
-- packages/core/src/gameComponent/common/timer/onTimeEvent.ts: callbacks for one second of a timer.
-- An event object is a reference; `run` is what its callback does, which may subscribe or
-- unsubscribe, and one that throws is caught by the code.
use sapi_game.Base.{
  ℕ, ◌≡◌, refl, inl, inr, Bool, true, false, not, ◌&&◌, ◌||◌, Option, none, some, List, [], ◌∷◌,
  ◌++◌, arith, ◌==◌, if◌then◌else◌, Bool-cases,
}

pub record OnTimeEvent : Type 0 where
  pub ref : ℕ
  pub time : ℕ
  pub once : Bool

abbrev pub Events : Type 0
Events = List OnTimeEvent

-- Absent options fire once.
unfoldable pub subscribe : ℕ → ℕ → Option Bool → Events → Events
subscribe ref time once events =
    events
    ++ (record { ref = ref; time = time; once = elim once [ none ↦ true | some o ↦ o ] } ∷ [])

unfoldable pub unsubscribe : ℕ → Events → Events
unsubscribe ref [] = []
unsubscribe ref (e ∷ events) =
    let rest = unsubscribe ref events in if e.ref == ref then rest else e ∷ rest

unfoldable pub events_to_fire : ℕ → Events → Events
events_to_fire time [] = []
events_to_fire time (e ∷ events) =
    let rest = events_to_fire time events in if time == e.time then e ∷ rest else rest

abbrev pub includes_event : ℕ → Events → Bool
includes_event ref [] = false
includes_event ref (e ∷ events) = ref == e.ref || includes_event ref events

unfoldable pub keep_events : Events → Events → Events
keep_events fired [] = []
keep_events fired (e ∷ events) =
    let rest = keep_events fired events in
    if not e.once || not (includes_event e.ref fired) then e ∷ rest else rest

module _ (run : ℕ → Events → Events) where
  unfoldable pub fire_all : Events → Events → Events
  fire_all [] events = events
  fire_all (e ∷ fired) events = fire_all fired (run e.ref events)

  unfoldable pub check_and_fire : ℕ → Events → Events
  check_and_fire time events =
      let fired = events_to_fire time events in keep_events fired (fire_all fired events)

-- Whether an event of the reference is there that is to fire once.
abbrev pub includes_once : ℕ → Events → Bool
includes_once ref [] = false
includes_once ref (e ∷ events) = ref == e.ref && e.once || includes_once ref events

kept_once :
    (fired events : Events) (ref : ℕ)
    → includes_event ref fired ≡ true
    → includes_once ref (keep_events fired events) ≡ false
unfolding keep_events
kept_once fired [] ref h = refl
kept_once fired (e ∷ events) ref h = elim (Bool-cases (ref == e.ref)) [
  | inl same ↦
      let r : ref ≡ e.ref = ground (arith, same) in
      let there : includes_event e.ref fired ≡ true = rw (← r) h in
      ground (arith, kept_once fired events ref h, there, h)
  | inr other ↦ ground (arith, kept_once fired events ref h, other)
]

-- After a second was published, whatever the callbacks do, no event that fired and is to fire once
-- is left.
pub check_and_fire_once :
    (run : ℕ → Events → Events) (time : ℕ) (events : Events) (ref : ℕ)
    → includes_event ref (events_to_fire time events) ≡ true
    → includes_once ref (check_and_fire run time events) ≡ false
unfolding check_and_fire
check_and_fire_once run time events ref fired =
    kept_once (events_to_fire time events) (fire_all run (events_to_fire time events) events) ref
      fired
