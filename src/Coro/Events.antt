-- ===== src/Coro/Events.antt =====
-- coro++.h: the queue of timed events (`insert_event`, `schedule_events`, `time_to_next_event`).
-- The priority queue is a list by time, earliest first; among equal times, which the standard leaves
-- open, the first to be inserted comes first. `now` gives the result of each call of `gettimeofday`.
pub mod Order
pub mod Firing
use coroplusplus.Common.{
  ℕ, ◌+◌, ◌*◌, ltb, Bool, true, false, ◌&&◌, Option, none, some, List, [], ◌∷◌, if◌then◌else◌,
}
use coroplusplus.Timeval.{Timeval, Interval, ℤ, pos, negsuc, timer_lt, timersub}
use coroplusplus.Coro.State.{Event, World, Outcome, ◌>>=◌, schedule}

unfoldable pub push : Event → List Event → List Event
push e [] = e ∷ []
push e (x ∷ xs) = if timer_lt e.t x.t then e ∷ x ∷ xs else x ∷ push e xs

-- The two tests of `time_to_next_event` on the difference to the first event.
unfoldable pub microseconds_left : Interval → ℕ
microseconds_left d = elim d.tv_sec [
  | pos s ↦ if ltb 0 d.tv_usec then s * 1000000 + d.tv_usec else 0
  | negsuc s ↦ 0
]

module _ {Heap Wait Stack : Type 0} where
  unfoldable pub insert_event : Timeval → ℕ → ℕ → World Heap Wait Stack → World Heap Wait Stack
  unfolding push
  insert_event t c args w = record w {
    events = push (record { t = t; args = args; coro = c }) w.events;
  }

  -- The loop over `_events`: `es` is what the queue holds.
  unfoldable pub fire_events :
      Timeval → List Event → World Heap Wait Stack → Outcome (World Heap Wait Stack)
  unfolding schedule
  fire_events tv [] w = (none, w)
  fire_events tv (e ∷ es) w =
      let fired = schedule e.coro e.args (record w { events = es }) >>= fire_events tv es in
      if timer_lt e.t tv then fired else (none, w)

  unfoldable pub schedule_events :
      (ℕ → Timeval) → World Heap Wait Stack → Outcome (World Heap Wait Stack)
  unfolding fire_events
  schedule_events now w = fire_events (now w.ticks) w.events (record w { ticks = w.ticks + 1 })

  -- The result, and the world after the call of `gettimeofday`, which an empty queue spares.
  unfoldable pub time_to_next_event :
      (ℕ → Timeval) → World Heap Wait Stack → ℕ × World Heap Wait Stack
  unfolding microseconds_left
  time_to_next_event now w = elim w.events [
    | [] ↦ (30000000, w)
    | e ∷ es ↦ (microseconds_left (timersub e.t (now w.ticks)), record w { ticks = w.ticks + 1 })
  ]
