-- ===== src/Coro/Events/Order.antt =====
-- The queue of events is kept by time, and holds what was inserted.
use mathlib.Core.List.{Perm}
use mathlib.Core.List.Perm
use coroplusplus.Common.{
  ℕ, ◌-◌, ◌%◌, ◌≤◌, ◌≡◌, inl, inr, List, [], ◌∷◌, All, arith, Bool-cases, ◌==◌, if◌then◌else◌,
}
use coroplusplus.Timeval.{Timeval, IsNormal, micros, timer_lt, timersub}
use coroplusplus.Timeval.Laws.{timer_lt→lt, timer_lt→le}
use coroplusplus.Coro.State.{Event, World}
use coroplusplus.Coro.Events.{push, insert_event, microseconds_left}

-- No event is later than one behind it, and all times are normal.
abbrev pub IsSorted : List Event → Type 0
IsSorted [] = Unit
IsSorted (e ∷ es) = IsNormal e.t × All (λ x. micros e.t ≤ micros x.t) es × IsSorted es

All-push : (P : Event → Type 0) (e : Event) (es : List Event) → P e → All P es → All P (push e es)
unfolding push
All-push P e [] p h = (p, tt)
All-push P e (x ∷ xs) p h = elim (Bool-cases (timer_lt e.t x.t)) [
  | inl before ↦ rw before (p, h)
  | inr after ↦ rw after (h.0, All-push P e xs p h.1)
]

pub All-later :
    (a b : ℕ) (es : List Event)
    → a ≤ b
    → All (λ x. b ≤ micros x.t) es
    → All (λ x. a ≤ micros x.t) es
All-later a b [] le h = tt
All-later a b (x ∷ xs) le h = (omega (arith, h.0), All-later a b xs le h.1)

pub push-IsSorted :
    (e : Event) (es : List Event) → IsNormal e.t → IsSorted es → IsSorted (push e es)
unfolding push
push-IsSorted e [] n h = (n, tt, tt)
push-IsSorted e (x ∷ xs) n h = elim (Bool-cases (timer_lt e.t x.t)) [
  | inl before ↦
      let lt = timer_lt→lt e.t x.t n h.0 before in
      rw before (n, (omega (arith, lt), All-later _ _ xs (omega (arith, lt)) h.1), h)
  | inr after ↦
      rw after
        (h.0, All-push _ e xs (timer_lt→le e.t x.t n h.0 after) h.1, push-IsSorted e xs n h.2)
]

pub push-Perm : (e : Event) (es : List Event) → Perm (push e es) (e ∷ es)
unfolding push
push-Perm e [] = Perm.refl _
push-Perm e (x ∷ xs) = elim (Bool-cases (timer_lt e.t x.t)) [
  | inl before ↦ rw before (Perm.refl _)
  | inr after ↦ rw after (Perm.trans (Perm.cons x (push-Perm e xs)) (Perm.swap _ _ _))
]

module _ {Heap Wait Stack : Type 0} where
  -- With a normal time, `insert_event` keeps a sorted queue sorted by time, and the queue is then a
  -- permutation of the old one with the new event.
  pub insert_event-IsSorted :
      (t : Timeval) (c args : ℕ) (w : World Heap Wait Stack)
      → IsNormal t
      → IsSorted w.events
      → IsSorted (insert_event t c args w).events
        × Perm (insert_event t c args w).events (record { t = t; args = args; coro = c } ∷ w.events)
  unfolding insert_event
  insert_event-IsSorted t c args w n h = (push-IsSorted _ w.events n h, push-Perm _ w.events)

-- For normal times, `time_to_next_event` computes the microseconds until an event exactly, but 0 for an
-- event that is due, and also for an event that is a whole number of seconds away.
pub microseconds_left_lem :
    (e now : Timeval)
    → IsNormal e
    → IsNormal now
    → let until = micros e - micros now in
      microseconds_left (timersub e now) ≡ (if until % 1000000 == 0 then 0 else until)
unfolding microseconds_left timersub
microseconds_left_lem e now ne nn = ground arith
