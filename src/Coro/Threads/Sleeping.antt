-- ===== src/Coro/Threads/Sleeping.antt =====
-- When a thread that sleeps is resumed.
use mathlib.Core.List.{Memᴰ}
use coroplusplus.Common.{
  ℕ, ◌+◌, ◌*◌, ◌/◌, ◌%◌, ◌<◌, ◌≤◌, ◌≡◌, ◌⊎◌, inl, inr, refl, ap, sym, ◌∙◌, subst, some, List, [],
  ◌∷◌, ◌++◌, map, arith, All, Bool-cases, false,
}
use coroplusplus.Timeval.{Timeval, IsNormal, micros, timer_lt, timeradd}
use coroplusplus.Timeval.Laws.{timeradd-IsNormal, micros-timeradd}
use coroplusplus.Coro.State.{Event, World, Outcome}
use coroplusplus.Coro.Events.{push, insert_event, schedule_events}
use coroplusplus.Coro.Events.Order.{IsSorted, push-IsSorted}
use coroplusplus.Coro.Events.Firing.{entry, schedule_events-Fires}
use coroplusplus.Coro.Threads.{Frame, Program, exec, pointer, sleep}

module _ {A : Type 0} where
  Memᴰ-cases : (a : A) (xs ys : List A) → Memᴰ a (xs ++ ys) → Memᴰ a xs ⊎ Memᴰ a ys
  Memᴰ-cases a [] ys m = inr m
  Memᴰ-cases a (x ∷ xs) ys (Memᴰ.head e) = inl (Memᴰ.head e)
  Memᴰ-cases a (x ∷ xs) ys (Memᴰ.tail m) = elim (Memᴰ-cases a xs ys m) [
    | inl l ↦ inl (Memᴰ.tail l)
    | inr r ↦ inr r
  ]

  Memᴰ-append_right : (a : A) (xs ys : List A) → Memᴰ a ys → Memᴰ a (xs ++ ys)
  Memᴰ-append_right a [] ys m = m
  Memᴰ-append_right a (x ∷ xs) ys m = Memᴰ.tail (Memᴰ-append_right a xs ys m)

  All-Memᴰ : (P : A → Type 0) (a : A) (xs : List A) → All P xs → Memᴰ a xs → P a
  All-Memᴰ P a [] h m = elim m [ ]
  All-Memᴰ P a (x ∷ xs) h (Memᴰ.head e) = subst P (sym e) h.0
  All-Memᴰ P a (x ∷ xs) h (Memᴰ.tail m) = All-Memᴰ P a xs h.1 m

Memᴰ-map : (e : Event) (es : List Event) → Memᴰ e es → Memᴰ (entry e) (map entry es)
Memᴰ-map e [] m = elim m [ ]
Memᴰ-map e (x ∷ xs) (Memᴰ.head p) = Memᴰ.head (ap entry p)
Memᴰ-map e (x ∷ xs) (Memᴰ.tail m) = Memᴰ.tail (Memᴰ-map e xs m)

Memᴰ-push : (e : Event) (es : List Event) → Memᴰ e (push e es)
unfolding push
Memᴰ-push e [] = Memᴰ.head refl
Memᴰ-push e (x ∷ xs) = elim (Bool-cases (timer_lt e.t x.t)) [
  | inl before ↦ rw before (Memᴰ.head refl)
  | inr after ↦ rw after (Memᴰ.tail (Memᴰ-push e xs))
]

-- The event of a thread `me` that sleeps from `t0` on.
abbrev pub alarm : ℕ → ℕ → Timeval → Event
alarm me msec t0 = record {
  t = timeradd t0 (record { tv_sec = msec / 1000; tv_usec = msec % 1000 * 1000 });
  args = 0;
  coro = me;
}

micros-alarm :
    (me msec : ℕ) (t0 : Timeval)
    → IsNormal t0
    → IsNormal (alarm me msec t0).t × (micros (alarm me msec t0).t ≡ micros t0 + msec * 1000)
micros-alarm me msec t0 n =
    let d : Timeval = record { tv_sec = msec / 1000; tv_usec = msec % 1000 * 1000 } in
    (timeradd-IsNormal t0 d n (omega arith), micros-timeradd t0 d ∙ omega arith)

module _ {Heap Wait Stack : Type 0} where
  exec-sleep :
      (pr : Program Heap Wait) (b : Stack) (co this me msec : ℕ) (f : Frame)
      (w : World Heap Wait Stack)
      → w.current ≡ some me
      → (exec pr b co (sleep this msec f) w).1.events
        ≡ push (alarm me msec (pr.now w.ticks)) w.events
  unfolding exec sleep insert_event
  exec-sleep pr b co this me msec f w c =
      ap (λ m. push (alarm (pointer m) msec (pr.now w.ticks)) w.events) c

  fires-Memᴰ :
      (e : Event) (now : ℕ → Timeval) (v : World Heap Wait Stack)
      → IsNormal (now v.ticks)
      → IsSorted v.events
      → All (λ x. (v.coros x.coro).dead ≡ false) v.events
      → Memᴰ e v.events
      → ((micros e.t < micros (now v.ticks)) × Memᴰ (entry e) (schedule_events now v).1.pending)
        ⊎ ((micros (now v.ticks) ≤ micros e.t) × Memᴰ e (schedule_events now v).1.events)
  fires-Memᴰ e now v n sorted alive m =
      let r = schedule_events-Fires now v n sorted alive in
      elim (Memᴰ-cases e r.fired r.rest (subst (Memᴰ e) r.splits m)) [
        | inl i ↦ inl (
          All-Memᴰ _ e r.fired r.due i,
          subst (λ (o : Outcome (World Heap Wait Stack)). Memᴰ (entry e) o.1.pending) (sym r.result)
              (Memᴰ-append_right (entry e) v.pending (map entry r.fired) (Memᴰ-map e r.fired i)),
        )
        | inr i ↦ inr (
          All-Memᴰ _ e r.rest r.waits i,
          subst (λ (o : Outcome (World Heap Wait Stack)). Memᴰ e o.1.events) (sym r.result) i,
        )
      ]

  -- A thread that calls `sleep (msec)` leaves an event in the sorted queue. As long as it is there, in
  -- whatever world `v` and at whatever time, `schedule_events` schedules the thread if more than `msec`
  -- milliseconds have passed since the call, and keeps the event if not, where times are normal and the
  -- coroutines of the events are alive.
  pub sleep-Wakes :
      (pr : Program Heap Wait) (b : Stack) (co this me msec : ℕ) (f : Frame)
      (w : World Heap Wait Stack) (now : ℕ → Timeval) (v : World Heap Wait Stack)
      → w.current ≡ some me
      → IsNormal (pr.now w.ticks)
      → IsSorted w.events
      → IsNormal (now v.ticks)
      → IsSorted v.events
      → All (λ x. (v.coros x.coro).dead ≡ false) v.events
      → Memᴰ (alarm me msec (pr.now w.ticks)) v.events
      → let w' = (exec pr b co (sleep this msec f) w).1 in
        let start = micros (pr.now w.ticks) in
        let time = micros (now v.ticks) in
        Memᴰ (alarm me msec (pr.now w.ticks)) w'.events
        × IsSorted w'.events
        × (((start + msec * 1000 < time) × Memᴰ (me, 0) (schedule_events now v).1.pending)
            ⊎ ((time ≤ start + msec * 1000)
                × Memᴰ (alarm me msec (pr.now w.ticks)) (schedule_events now v).1.events))
  sleep-Wakes pr b co this me msec f w now v c n sorted n' sorted' alive m =
      let e = alarm me msec (pr.now w.ticks) in
      let (normal, time) = micros-alarm me msec (pr.now w.ticks) n in
      let queue = sym (exec-sleep pr b co this me msec f w c) in
      (
        subst (Memᴰ e) queue (Memᴰ-push e w.events),
        subst IsSorted queue (push-IsSorted e w.events normal sorted),
        elim (fires-Memᴰ e now v n' sorted' alive m) [
          | inl late ↦ inl (omega (arith, late.0, time), late.1)
          | inr early ↦ inr (omega (arith, early.0, time), early.1)
        ],
      )
