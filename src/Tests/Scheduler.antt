-- ===== src/Tests/Scheduler.antt =====
-- Two threads, which log the values that they get, on the shared stack.
use coroplusplus.Common.{
  ℕ, ◌-◌, ◌*◌, ◌≡◌, refl, inl, true, false, none, List, [], ◌∷◌, arith, update, read_block,
  write_block,
}
use coroplusplus.Timeval.{micros, timersub}
use coroplusplus.Coro.State.{Coro, World, Event}
use coroplusplus.Coro.Events.{insert_event, schedule_events, microseconds_left}
use coroplusplus.Coro.Events.Order.{IsSorted, insert_event-IsSorted, microseconds_left_lem}
use coroplusplus.Coro.Events.Firing.{Fires, schedule_events-Fires}
use coroplusplus.Coro.Threads.{Frame, writes_heap, yields, returns, Program, exec}
use coroplusplus.Coro.Loop.{run_pending, run_rounds, run_round, run_staging}
use coroplusplus.Coro.Stack.{
  StackCopy, Threads, turn, run_slice, switch, run_thread, code_at, prepare, call_swap, preserve,
  blank_stack, blank_state,
}
use coroplusplus.Coro.Private.{private_turn, blank_frame}
use coroplusplus.Coro.Private.Related.{IsSound, Related, Refines, private_view}
use coroplusplus.Coro.Private.Refines.{run_pending-Refines}

abbrev Log : Type 0
Log = List ℕ

-- A thread logs its argument and yields with that on its stack; it goes on to log the value that it is
-- resumed with, above what its stack holds, and returns.
abbrev in_yield : ℕ → Frame
in_yield arg = record blank_frame { rip = 70; words = arg ∷ 3 ∷ [] }

abbrev head_word : List ℕ → ℕ
head_word [] = 0
head_word (x ∷ xs) = x

abbrev demo : Program Log (Unit {0})
demo = record {
  call_fun = λ fun arg. writes_heap (λ h. arg ∷ h) (yields fun 0 (in_yield arg));
  call_method = λ meth arg. returns (in_yield arg);
  resume_at = λ f v. writes_heap (λ h. v ∷ head_word f.words ∷ h) (returns (in_yield 0));
  now = λ n. record { tv_sec = 100; tv_usec = n };
  malloc = λ n size. true;
  set_wait = λ d fd c w. w;
  stack_base = 1000;
  wrap0 = 1;
  resume_return = 2;
}

abbrev idle : Coro StackCopy
idle = record {
  stack = blank_stack;
  value = 0;
  fun = 0;
  meth = 0;
  arg0 = 0;
  started = false;
  dead = false;
  id = 0;
}

-- Coroutines 2 and 3, with the arguments 20 and 30; each is resumed twice.
abbrev demo_world : World Log (Unit {0}) StackCopy
demo_world = record {
  exit = false;
  events = [];
  id_counter = 3;
  current = none;
  pending = (2, 0) ∷ (3, 0) ∷ (2, 5) ∷ (3, 6) ∷ [];
  staging = [];
  coros = λ p. record idle { arg0 = 10 * p; fun = p };
  next = 4;
  heap = [];
  wait = tt;
  ticks = 0;
}

abbrev demo_system : Threads Log (Unit {0})
demo_system = record {
  world = demo_world;
  extra = record {
    main_state = blank_state;
    cpu = record { rip = 0; rsp = 10; rbp = 0; rbx = 0; r12 = 0; r13 = 0; r14 = 0; r15 = 0 };
    mem = λ a. 0;
    mallocs = 0;
  };
}

demo-IsSound : IsSound demo
demo-IsSound = record {
  space = omega arith;
  enough = λ n size. refl;
  funs = λ fun arg. record { fits = omega arith; not_start = λ e. omega arith };
  methods = λ meth arg. record { fits = omega arith; not_start = λ e. omega arith };
  resumed = λ f v ok. record { fits = omega arith; not_start = λ e. omega arith };
}

demo-Related : Related demo demo_system (λ p. blank_frame)
demo-Related = record {
  stored = λ p started alive. cc;
  pushed = omega arith;
  outside = inl (omega arith);
}

demo_agrees :
    Refines demo
      (run_pending demo.now (turn demo) 3 demo_system)
      (run_pending demo.now (private_turn demo) 3 (private_view (λ p. blank_frame) demo_system))
demo_agrees = run_pending-Refines demo demo-IsSound 3 demo_system (λ p. blank_frame) demo-Related

-- Each thread finds its own word on the stack again.
demo_log :
    (run_pending demo.now (turn demo) 3 demo_system).1.world.heap ≡ 6 ∷ 30 ∷ 5 ∷ 20 ∷ 30 ∷ 20 ∷ []
unfolding run_pending run_rounds run_round run_staging schedule_events turn run_slice switch
    run_thread exec code_at prepare call_swap preserve update read_block write_block
demo_log = refl

abbrev at_ms : ℕ → Event
at_ms n = record { t = record { tv_sec = 99; tv_usec = n * 1000 }; args = n; coro = 2 }

abbrev timed_world : World Log (Unit {0}) StackCopy
timed_world = record demo_world { events = at_ms 1 ∷ at_ms 3 ∷ []; pending = [] }

timed_world-IsSorted : IsSorted timed_world.events
timed_world-IsSorted = omega arith

schedule_events-Fires_example :
    Fires
      (demo.now 0)
      (record timed_world { ticks = 1 })
      timed_world.events
      (schedule_events demo.now timed_world)
schedule_events-Fires_example =
    schedule_events-Fires demo.now timed_world (omega arith) timed_world-IsSorted (refl, (refl, tt))

insert_event-IsSorted_example : IsSorted (insert_event (at_ms 2).t 2 7 timed_world).events
insert_event-IsSorted_example =
    (insert_event-IsSorted (at_ms 2).t 2 7 timed_world (omega arith) timed_world-IsSorted).0

microseconds_left_lem_example :
    microseconds_left (timersub (at_ms 3).t (at_ms 1).t) ≡ micros (at_ms 3).t - micros (at_ms 1).t
microseconds_left_lem_example =
    microseconds_left_lem (at_ms 3).t (at_ms 1).t (omega arith) (omega arith)
