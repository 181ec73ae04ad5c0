-- ===== src/Poller/Poll/Call.antt =====
-- `poll` as a whole: the poll set, the system call, the loop over its answers.
use coroplusplus.Common.{
  ℕ, ◌+◌, ◌-◌, ◌/◌, ◌≤◌, ◌<◌, ◌≡◌, ◌↔◌, ap, sym, ◌∙◌, true, false, Option, none, some, arith,
  length, Bool-cases, inl, inr, subst, ltb,
}
use coroplusplus.Coro.State.{World, Outcome, schedule}
use coroplusplus.Poller.{find}
use coroplusplus.Poller.Maps.{IsOrdered}
use coroplusplus.Poller.Poll.{
  Bits, PollFd, PollPoller, Answer, fails, answers, Kernel, want_in, want_out, fill_slots, and_then,
  dispatch, answered, poll,
}
use coroplusplus.Poller.Poll.Slots.{
  Stands, fill_slots-Filled, fill_slots_outside, Stands-from, Stands-to, fill_slots_empty, slot_of,
}
use coroplusplus.Poller.Poll.Moves.{Alive, total, Moves, dispatch-Moves}
use coroplusplus.Poller.Poll.Served.{Served, dispatch-Served}

abbrev pub waiting : PollPoller → ℕ
waiting p = length p.read_set + length p.write_set

module _ {W : Type 0} (schedule : ℕ → ℕ → W → Outcome W) where
  -- The poll set that the system call is given: the readers stand in its upper slots, the writers
  -- below.
  pub record Prepared (p : PollPoller) : Type 0 where
    pub slots : ℕ → PollFd
    pub filled :
        (kernel : Kernel) (t : ℕ) (w : W)
        → poll schedule kernel t (p, w)
          ≡ some (
              answered schedule
                (waiting p)
                (record p { poll_set = slots }, w)
                (kernel slots (waiting p) (t / 1000)))
    pub readers : Stands want_in p.read_set (waiting p) p.poll_set slots
    pub writers : Stands want_out p.write_set (length p.write_set) p.poll_set slots

  -- The rest of `poll` behind the second loop, and behind the first.
  abbrev pub call_kernel :
      Kernel → ℕ → PollPoller → W → (ℕ → PollFd) × ℕ → Option (Outcome (PollPoller × W))
  call_kernel kernel t p w filled = some (
      answered schedule (waiting p) (record p { poll_set = filled.0 }, w)
        (kernel filled.0 (waiting p) (t / 1000)))

  abbrev pub write_slots :
      Kernel → ℕ → PollPoller → W → (ℕ → PollFd) × ℕ → Option (Outcome (PollPoller × W))
  write_slots kernel t p w filled =
      and_then (fill_slots want_out p.size p.write_set filled.1 filled.0) (call_kernel kernel t p w)

  pub prepare : (p : PollPoller) → waiting p ≤ p.size → Prepared p
  unfolding poll
  prepare p h =
      let count = waiting p in
      let j = count - length p.read_set in
      let f = fill_slots-Filled want_in p.size p.read_set count p.poll_set (omega arith) h in
      let j_eq : length p.write_set ≡ j = omega arith in
      let g = fill_slots-Filled want_out p.size p.write_set j f.after (omega arith) (omega arith) in
      record {
        slots = g.after;
        filled = λ kernel t w.
            ap (λ o. and_then o (write_slots kernel t p w)) f.result
            ∙ ap (λ o. and_then o (call_kernel kernel t p w)) g.result;
        readers =
            Stands-to want_in p.read_set count p.poll_set f.after g.after (omega arith)
              (λ k le. g.above k le) f.stands;
        writers =
            Stands-from want_out p.write_set (length p.write_set) f.after p.poll_set g.after
              (omega arith) (λ k lt. f.below k (omega arith))
              (subst (λ i. Stands want_out p.write_set i f.after g.after) (sym j_eq) g.stands);
      }

  -- `poll` writes outside its poll set exactly if more descriptors wait than the poll set has slots.
  pub poll_outside :
      (kernel : Kernel) (t : ℕ) (p : PollPoller) (w : W)
      → (poll schedule kernel t (p, w) ≡ none) ↔ (p.size < waiting p)
  unfolding poll
  poll_outside kernel t p w = (forward, backward)
    where
      forward : poll schedule kernel t (p, w) ≡ none → p.size < waiting p
      forward e = elim (Bool-cases (ltb p.size (waiting p))) [
        | inl h ↦ ground arith
        | inr h ↦ let f = (prepare p (ground arith)).filled kernel t w in absurd (cc (e, f))
      ]

      backward : p.size < waiting p → poll schedule kernel t (p, w) ≡ none
      backward h = elim (Bool-cases (ltb 0 (length p.read_set))) [
        | inl some_read ↦
            ap (λ o. and_then o (write_slots kernel t p w))
              (fill_slots_outside want_in p.size p.read_set (waiting p) p.poll_set h (ground arith))
        | inr no_read ↦
            ap (λ o. and_then o (write_slots kernel t p w))
              (fill_slots_empty want_in p.size p.read_set (waiting p) p.poll_set (ground arith))
            ∙ ap (λ o. and_then o (call_kernel kernel t p w))
                (fill_slots_outside want_out p.size p.write_set (waiting p) p.poll_set h
                  (ground arith))
      ]

-- A kernel that gives every slot its answer, as `poll` does where every descriptor is ready, and that
-- answers a reader of `fd` with POLLIN.
abbrev pub AnswersAll : Kernel → ℕ → Type 0
AnswersAll kernel fd =
    (ps : ℕ → PollFd) (count t : ℕ)
    → (n : ℕ) × (revents : ℕ → Bits) × (kernel ps count t ≡ answers n revents)
      × (count ≤ n)
      × ((k : ℕ)
          → k < count
          → (ps k).fd ≡ fd
          → (ps k).events.pollin ≡ true
          → (revents k).pollin ≡ true)

module _ {Heap Wait Stack : Type 0} where
  answered-Moves :
      (count : ℕ) (p : PollPoller) (w : World Heap Wait Stack) (a : Answer)
      → Alive w p.read_set
      → Alive w p.write_set
      → Moves (p, w) (answered schedule count (p, w) a)
  unfolding dispatch
  answered-Moves count p w (fails errno) r v = dispatch-Moves (λ k. none_set) 0 0 0 p w r v
    where
      none_set : Bits
      none_set = record { pollin = false; pollout = false; others = false }
  answered-Moves count p w (answers n revents) r v = dispatch-Moves revents count 0 n p w r v

  -- Whatever the kernel answers: if the poll set has a slot for each waiting descriptor and no waiting
  -- coroutine is dead, `poll` returns, and has changed the world only in `_pending`; each coroutine
  -- waits and is to be resumed as often, taken together, as before.
  pub poll-Moves :
      (kernel : Kernel) (t : ℕ) (p : PollPoller) (w : World Heap Wait Stack)
      → waiting p ≤ p.size
      → Alive w p.read_set
      → Alive w p.write_set
      → (s : PollPoller × World Heap Wait Stack) × (poll schedule kernel t (p, w) ≡ some (none, s))
        × ((x : ℕ) → total x s ≡ total x (p, w))
        × (s.1 ≡ record w { pending = s.1.pending })
  poll-Moves kernel t p w h r v =
      let f = prepare schedule p h in
      let p' = record p { poll_set = f.slots } in
      let a = kernel f.slots (waiting p) (t / 1000) in
      let m = answered-Moves (waiting p) p' w a r v in
      let o = answered schedule (waiting p) (p', w) a in
      (o.1, f.filled kernel t w ∙ ap (λ x. some (x, o.1)) m.returned, m.kept, m.world)

  -- If the poll set has a slot for each waiting descriptor, no waiting coroutine is dead, and the
  -- kernel answers every slot, that of the reader of `fd` with POLLIN, then `poll` returns, the
  -- reader is to be resumed, and `fd` has no reader any more.
  pub poll-Served :
      (kernel : Kernel) (t fd c : ℕ) (p : PollPoller) (w : World Heap Wait Stack)
      → waiting p ≤ p.size
      → Alive w p.read_set
      → Alive w p.write_set
      → IsOrdered p.read_set
      → AnswersAll kernel fd
      → find fd p.read_set ≡ some c
      → (s : PollPoller × World Heap Wait Stack) × (poll schedule kernel t (p, w) ≡ some (none, s))
        × Served fd c s
  poll-Served kernel t fd c p w h r v order all waits =
      let f = prepare schedule p h in
      let p' = record p { poll_set = f.slots } in
      let count = waiting p in
      let (n, revents, e, enough, ready) = all f.slots count (t / 1000) in
      let (k, below, slot) =
        slot_of want_in p.read_set count p.poll_set f.slots fd c (omega arith) waits f.readers in
      let m = dispatch-Moves revents count 0 n p' w r v in
      let o = dispatch schedule revents count 0 n (p', w) in
      (
        o.1,
        f.filled kernel t w
            ∙ ap (λ a. some (answered schedule count (p', w) a)) e
            ∙ ap (λ x. some (x, o.1)) m.returned,
        dispatch-Served revents fd c count 0 n k p' w r v order (omega arith) (omega arith)
            (omega arith) (ap (λ (x : PollFd). x.fd) slot)
            (ready k below (ap (λ (x : PollFd). x.fd) slot)
              (ap (λ (x : PollFd). x.events.pollin) slot))
            waits,
      )
