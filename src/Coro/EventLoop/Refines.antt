-- ===== src/Coro/EventLoop/Refines.antt =====
-- The event loop on one shared stack does what the event loop on private stacks does, over any poller
-- that keeps to its interface.
use coroplusplus.Common.{
  ℕ, zero, suc, ◌+◌, ◌≡◌, refl, ap, sym, ◌∙◌, Bool, true, false, none, List, [], ◌∷◌, subst,
}
use coroplusplus.Timeval.{Timeval, timersub}
use coroplusplus.Coro.State.{Outcome, ◌>>=◌, World, Coro, Event}
use coroplusplus.Coro.Events.{time_to_next_event, microseconds_left}
use coroplusplus.Coro.Threads.{Frame, Program}
use coroplusplus.Coro.Loop.{on_world, run_pending}
use coroplusplus.Coro.Stack.{StackCopy, Threads, turn}
use coroplusplus.Coro.Private.{PrivateThreads, private_turn}
use coroplusplus.Coro.Private.Exec.{with_stacks}
use coroplusplus.Coro.Private.Enter.{Stored}
use coroplusplus.Coro.Private.Related.{IsSound, Related, Refines, private_view}
use coroplusplus.Coro.Private.Refines.{run_pending-Refines, Refines-bind}
use coroplusplus.Coro.EventLoop.{unless_exit, poll_next, poll_unless_exit, event_loop}

-- What the event loop relies on: `poll` does not look at the stacks, and leaves the coroutines as they
-- are.
pub record Poller (Heap Wait : Type 0) : Type 1 where
  pub poll : {Stack : Type 0} → ℕ → World Heap Wait Stack → Outcome (World Heap Wait Stack)
  pub poll-with_stacks :
      {A B : Type 0} (g : ℕ → B) (t : ℕ) (w : World Heap Wait A)
      → poll t (with_stacks g w) ≡ ((poll t w).0, with_stacks g (poll t w).1)
  pub coros-poll :
      {Stack : Type 0} (t : ℕ) (w : World Heap Wait Stack) → (poll t w).1.coros ≡ w.coros

module _ {Heap Wait A B : Type 0} (now : ℕ → Timeval) (g : ℕ → B) (w : World Heap Wait A) where
  abbrev next_of : {Stack : Type 0} → World Heap Wait Stack → List Event → ℕ × World Heap Wait Stack
  next_of v [] = (30000000, v)
  next_of v (e ∷ es) =
      (microseconds_left (timersub e.t (now v.ticks)), record v { ticks = v.ticks + 1 })

  next_of_eq :
      {Stack : Type 0} (v : World Heap Wait Stack) → time_to_next_event now v ≡ next_of v v.events
  unfolding time_to_next_event
  next_of_eq v = elim v.events [ [] ↦ refl | e ∷ es ↦ refl ]

  next_of-with_stacks :
      (es : List Event)
      → next_of (with_stacks g w) es ≡ ((next_of w es).0, with_stacks g (next_of w es).1)
  next_of-with_stacks [] = refl
  next_of-with_stacks (e ∷ es) = refl

  coros-next_of : (es : List Event) → (next_of w es).1.coros ≡ w.coros
  coros-next_of [] = refl
  coros-next_of (e ∷ es) = refl

  time_to_next_event-with_stacks :
      time_to_next_event now (with_stacks g w)
      ≡ ((time_to_next_event now w).0, with_stacks g (time_to_next_event now w).1)
  time_to_next_event-with_stacks =
      next_of_eq (with_stacks g w)
      ∙ next_of-with_stacks w.events
      ∙ ap (λ r. (r.0, with_stacks g r.1)) (sym (next_of_eq w))

  coros-time_to_next_event : (time_to_next_event now w).1.coros ≡ w.coros
  coros-time_to_next_event =
      ap (λ (r : ℕ × World Heap Wait A). r.1.coros) (next_of_eq w) ∙ coros-next_of w.events

module _ {Heap Wait : Type 0} (pr : Program Heap Wait) (sound : IsSound pr)
    (poller : Poller Heap Wait) where
  open poller use {poll, poll-with_stacks, coros-poll}

  poll_next-Refines :
      (s : Threads Heap Wait) (g : ℕ → Frame)
      → Related pr s g
      → Refines pr
          (poll_next pr.now (turn pr) poll s)
          (poll_next pr.now (private_turn pr) poll (private_view g s))
  unfolding poll_next
  poll_next-Refines s g rel =
      let (until, w) = time_to_next_event pr.now s.world in
      (
        g,
        ap (λ r. on_world (poll r.0) (record { world = r.1; extra = tt }))
              (time_to_next_event-with_stacks pr.now g s.world)
            ∙ ap (λ o. (o.0, record { world = o.1; extra = tt })) (poll-with_stacks g until w),
        record {
          stored =
              subst
                (λ (c : ℕ → Coro StackCopy).
                  (p : ℕ) → (c p).started ≡ true → (c p).dead ≡ false → Stored pr (c p).stack (g p))
                (sym (coros-poll until w ∙ coros-time_to_next_event pr.now g s.world)) rel.stored;
          pushed = rel.pushed;
          outside = rel.outside;
        },
      )

  unless_exit-Refines :
      (f : Threads Heap Wait → Outcome (Threads Heap Wait))
      (f' : PrivateThreads Heap Wait → Outcome (PrivateThreads Heap Wait)) (s : Threads Heap Wait)
      (g : ℕ → Frame)
      → Related pr s g
      → Refines pr (f s) (f' (private_view g s))
      → Refines pr (unless_exit f s) (unless_exit f' (private_view g s))
  unfolding unless_exit
  unless_exit-Refines f f' s g rel h = by_exit s.world.exit
    where
      by_exit :
          (b : Bool)
          → Refines pr
              (elim b [ true ↦ (none, s) | false ↦ f s ])
              (elim b [ true ↦ (none, private_view g s) | false ↦ f' (private_view g s) ])
      by_exit true = (g, refl, rel)
      by_exit false = h

  poll_unless_exit-Refines :
      (f : Threads Heap Wait → Outcome (Threads Heap Wait))
      (f' : PrivateThreads Heap Wait → Outcome (PrivateThreads Heap Wait))
      → ((s : Threads Heap Wait) (g : ℕ → Frame)
          → Related pr s g
          → Refines pr (f s) (f' (private_view g s)))
      → (s : Threads Heap Wait) (g : ℕ → Frame) → Related pr s g
      → Refines pr
          (poll_unless_exit pr.now (turn pr) poll f s)
          (poll_unless_exit pr.now (private_turn pr) poll f' (private_view g s))
  unfolding poll_unless_exit
  poll_unless_exit-Refines f f' h s g rel =
      unless_exit-Refines (λ t. poll_next pr.now (turn pr) poll t >>= f)
        (λ t. poll_next pr.now (private_turn pr) poll t >>= f') s g rel
        (Refines-bind pr sound (poll_next pr.now (turn pr) poll s)
          (poll_next pr.now (private_turn pr) poll (private_view g s)) f f'
          (poll_next-Refines s g rel) h)

  -- For any bounds on the rounds, any poller that does not look at the stacks and leaves the coroutines
  -- as they are, and from related systems, `event_loop` on the shared stack has the result of
  -- `event_loop` on private stacks, and the systems that are left have the same world but for the
  -- stacks, and are related again: when the stack lies in the address space, `malloc` gives memory,
  -- and the program's functions keep to the stack.
  pub event_loop-Refines :
      (fuel rounds : ℕ) (s : Threads Heap Wait) (g : ℕ → Frame)
      → Related pr s g
      → Refines pr
          (event_loop pr.now (turn pr) poll fuel rounds s)
          (event_loop pr.now (private_turn pr) poll fuel rounds (private_view g s))
  unfolding event_loop
  event_loop-Refines fuel zero s g rel = (g, refl, rel)
  event_loop-Refines fuel (suc rounds) s g rel =
      unless_exit-Refines
        (λ u.
          run_pending pr.now (turn pr) fuel u
          >>= poll_unless_exit pr.now (turn pr) poll (event_loop pr.now (turn pr) poll fuel rounds))
        (λ u.
          run_pending pr.now (private_turn pr) fuel u
          >>= poll_unless_exit pr.now (private_turn pr) poll
              (event_loop pr.now (private_turn pr) poll fuel rounds))
        s g rel
        (Refines-bind pr sound (run_pending pr.now (turn pr) fuel s)
          (run_pending pr.now (private_turn pr) fuel (private_view g s))
          (poll_unless_exit pr.now (turn pr) poll (event_loop pr.now (turn pr) poll fuel rounds))
          (poll_unless_exit pr.now (private_turn pr) poll
            (event_loop pr.now (private_turn pr) poll fuel rounds))
          (run_pending-Refines pr sound fuel s g rel)
          (poll_unless_exit-Refines (event_loop pr.now (turn pr) poll fuel rounds)
            (event_loop pr.now (private_turn pr) poll fuel rounds)
            (event_loop-Refines fuel rounds)))
