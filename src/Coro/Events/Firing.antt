-- ===== src/Coro/Events/Firing.antt =====
-- What `schedule_events` schedules.
use coroplusplus.Common.{
  ℕ, ◌+◌, ◌≤◌, ◌<◌, ◌≡◌, refl, ap, sym, ◌∙◌, inl, inr, false, none, List, [], ◌∷◌, ◌++◌, map,
  append_assoc, append-nil, All, Bool-cases,
}
use coroplusplus.Timeval.{Timeval, IsNormal, micros, timer_lt}
use coroplusplus.Timeval.Laws.{timer_lt→lt, timer_lt→le}
use coroplusplus.Coro.State.{Event, World, Outcome, PendingEntry, schedule}
use coroplusplus.Coro.Events.{fire_events, schedule_events}
use coroplusplus.Coro.Events.Order.{IsSorted, All-later}

-- The entry by which an event resumes its coroutine.
abbrev pub entry : Event → PendingEntry
entry e = (e.coro, e.args)

module _ {Heap Wait Stack : Type 0} where
  -- The queue falls into the events that fire, all before `now`, and the rest, none before `now`; the
  -- entries of the first are scheduled in their order, and the rest stays.
  pub record Fires (now : Timeval) (w : World Heap Wait Stack) (es : List Event)
      (o : Outcome (World Heap Wait Stack)) : Type 0 where
    pub fired : List Event
    pub rest : List Event
    pub splits : es ≡ fired ++ rest
    pub due : All (λ e. micros e.t < micros now) fired
    pub waits : All (λ e. micros now ≤ micros e.t) rest
    pub result : o ≡ (none, record w { events = rest; pending = w.pending ++ map entry fired })

  one_more :
      {now : Timeval} (e : Event) (es : List Event) (w : World Heap Wait Stack)
      {o : Outcome (World Heap Wait Stack)}
      → micros e.t < micros now
      → Fires now (record w { events = es; pending = w.pending ++ entry e ∷ [] }) es o
      → Fires now w (e ∷ es) o
  one_more e es w lt r = record {
    fired = e ∷ r.fired;
    rest = r.rest;
    splits = ap (λ xs. e ∷ xs) r.splits;
    due = (lt, r.due);
    waits = r.waits;
    result = r.result ∙ (λ j. (
      none,
      record w {
        events = r.rest;
        pending = append_assoc w.pending (entry e ∷ []) (map entry r.fired) j;
      },
    ));
  }

  fire_events-Fires :
      (now : Timeval) (es : List Event) (w : World Heap Wait Stack)
      → IsNormal now
      → IsSorted es
      → All (λ e. (w.coros e.coro).dead ≡ false) es
      → w.events ≡ es
      → Fires now w es (fire_events now es w)
  unfolding fire_events schedule
  fire_events-Fires now [] w n sorted alive here = record {
    fired = [];
    rest = [];
    splits = refl;
    due = tt;
    waits = tt;
    result = λ j. (none, record w { events = here j; pending = sym (append-nil w.pending) j });
  }
  fire_events-Fires now (e ∷ es) w n sorted alive here = elim (Bool-cases (timer_lt e.t now)) [
    | inl due ↦
        rw (due, alive.0)
          (one_more e es w (timer_lt→lt e.t now sorted.0 n due) (
            fire_events-Fires now es (record w { events = es; pending = w.pending ++ entry e ∷ [] })
              n sorted.2 alive.1 refl))
    | inr later ↦
        let le = timer_lt→le e.t now sorted.0 n later in
        rw later (record {
          fired = [];
          rest = e ∷ es;
          splits = refl;
          due = tt;
          waits = (le, All-later _ _ es le sorted.1);
          result =
              λ j. (none, record w { events = here j; pending = sym (append-nil w.pending) j });
        })
  ]

  -- One pass of the loop fires the due events, in order, and leaves the rest of the queue: when it is
  -- sorted, times are normal, and the coroutines of its events are alive, then no exception is thrown.
  pub schedule_events-Fires :
      (now : ℕ → Timeval) (w : World Heap Wait Stack)
      → IsNormal (now w.ticks)
      → IsSorted w.events
      → All (λ e. (w.coros e.coro).dead ≡ false) w.events
      → Fires (now w.ticks) (record w { ticks = w.ticks + 1 }) w.events (schedule_events now w)
  unfolding schedule_events
  schedule_events-Fires now w n sorted alive =
      fire_events-Fires (now w.ticks) w.events (record w { ticks = w.ticks + 1 }) n sorted alive
        refl
