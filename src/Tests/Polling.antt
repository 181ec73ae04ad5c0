-- ===== src/Tests/Polling.antt =====
-- The pollers on small sets of descriptors, and the event loop with a thread that waits.
use coroplusplus.Common.{
  ℕ, ◌≡◌, refl, inl, true, false, none, some, List, [], ◌∷◌, arith, ◌==◌, update, read_block,
  write_block,
}
use coroplusplus.Timeval.{pos}
use coroplusplus.Coro.State.{PendingEntry, World, schedule}
use coroplusplus.Coro.Threads.{
  Frame, Program, read, write, exits, returns, exec, wrap1, finish, yield_current, wait_for,
}
use coroplusplus.Coro.Events.{schedule_events, fire_events, time_to_next_event}
use coroplusplus.Swap.{swap, save_registers, load_registers, ret}
use coroplusplus.Coro.Loop.{run_pending, run_rounds, run_round, run_staging}
use coroplusplus.Coro.Stack.{
  StackCopy, Threads, turn, run_slice, switch, run_thread, code_at, prepare, call_swap, preserve,
  blank_stack, blank_state, create, restore, resume,
}
use coroplusplus.Coro.Private.{private_turn, blank_frame}
use coroplusplus.Coro.Private.Related.{IsSound, Refines, private_view}
use coroplusplus.Coro.EventLoop.{unless_exit, poll_unless_exit, poll_next, event_loop}
use coroplusplus.Coro.EventLoop.Ends.{EndsByExit, event_loop_exit}
use coroplusplus.Coro.EventLoop.Refines.{event_loop-Refines}
use coroplusplus.Poller.{insert, find, erase}
use coroplusplus.Poller.Poll.{
  Bits, PollFd, PollPoller, answers, Kernel, set_wait_for_read, set_wait_for_write, fill_slots,
  dispatch, visit, wake_reader, poll,
}
use coroplusplus.Poller.Poll.Moves.{total}
use coroplusplus.Poller.Poll.Served.{Served}
use coroplusplus.Poller.Poll.Call.{poll-Moves, poll-Served}
use coroplusplus.Poller.Poll.Missed.{reports, poll_misses, poll_stale}
use coroplusplus.Poller.Poll.Interface.{poll_world, poll_poller}
use coroplusplus.Poller.Kqueue.{KEvent, KqueuePoller, evfilt_read, kqueue_poll}
use coroplusplus.Poller.Kqueue.Changes.{set_waits, changes_of, set_waits_lem}
use coroplusplus.Poller.Kqueue.Delivery.{EndsAll, kqueue_poll-Ends}
use coroplusplus.Poller.Select.{SelectPoller, select_poll}
use coroplusplus.Poller.Select as Select

abbrev no_bits : Bits
no_bits = record { pollin = false; pollout = false; others = false }

-- Coroutine 2 reads from descriptor 5, and coroutine 3 writes to 6; there are four slots.
abbrev pub two_wait : PollPoller
two_wait = record {
  read_set = (5, 2) ∷ [];
  write_set = (6, 3) ∷ [];
  poll_set = λ k. record { fd = 0; events = no_bits };
  size = 4;
}

-- Every descriptor is ready for what it is asked.
abbrev pub all_ready : Kernel
all_ready ps count t = answers count (λ k. (ps k).events)

-- Only the reader's slot, the second, is ready.
abbrev second_ready : Kernel
second_ready ps count t = answers 1 λ k. record { pollin = k == 1; pollout = false; others = false }

-- Coroutine 2 waits until descriptor 5 is readable, and then ends the program.
abbrev in_wait : Frame
in_wait = record blank_frame { rip = 70; words = 5 ∷ [] }

abbrev pub reader : Program (Unit {0}) PollPoller
reader = record {
  call_fun = λ fun arg. wait_for read 5 fun in_wait;
  call_method = λ meth arg. returns in_wait;
  resume_at = λ f v. exits (returns in_wait);
  now = λ n. record { tv_sec = 100; tv_usec = n };
  malloc = λ n size. true;
  set_wait =
      λ d fd c p. elim d [ read ↦ set_wait_for_read fd c p | write ↦ set_wait_for_write fd c p ];
  stack_base = 1000;
  wrap0 = 1;
  resume_return = 2;
}

abbrev reader_world : World (Unit {0}) PollPoller StackCopy
reader_world = record {
  exit = false;
  events = [];
  id_counter = 3;
  current = none;
  pending = (2, 0) ∷ [];
  staging = [];
  coros = λ p. record {
    stack = blank_stack;
    value = 0;
    fun = p;
    meth = 0;
    arg0 = 0;
    started = false;
    dead = false;
    id = 0;
  };
  next = 4;
  heap = tt;
  wait = record two_wait { read_set = []; write_set = [] };
  ticks = 0;
}

abbrev pub reader_system : Threads (Unit {0}) PollPoller
reader_system = record {
  world = reader_world;
  extra = record {
    main_state = blank_state;
    cpu = record { rip = 0; rsp = 10; rbp = 0; rbx = 0; r12 = 0; r13 = 0; r14 = 0; r15 = 0 };
    mem = λ a. 0;
    mallocs = 0;
  };
}

pub reader-IsSound : IsSound reader
unfolding wait_for
reader-IsSound = record {
  space = omega arith;
  enough = λ n size. refl;
  funs = λ fun arg. record { fits = omega arith; not_start = λ e. omega arith };
  methods = λ meth arg. record { fits = omega arith; not_start = λ e. omega arith };
  resumed = λ f v ok. record { fits = omega arith; not_start = λ e. omega arith };
}

event_loop-Refines_example :
    Refines reader
      (event_loop reader.now (turn reader) (poll_world (λ n. all_ready)) 3 3 reader_system)
      (event_loop reader.now
        (private_turn reader)
        (poll_world (λ n. all_ready))
        3
        3
        (private_view (λ p. blank_frame) reader_system))
event_loop-Refines_example =
    event_loop-Refines reader reader-IsSound (poll_poller (λ n. all_ready)) 3 3 reader_system
      (λ p. blank_frame)
      (record { stored = λ p started alive. cc; pushed = omega arith; outside = inl (omega arith) })

-- The thread waits, is served, and ends the loop.
reader_run :
    (event_loop reader.now
      (turn reader)
      (poll_world (λ n. all_ready))
      3
      3
      reader_system).1.world.exit
    ≡ true
unfolding event_loop unless_exit poll_unless_exit poll_next time_to_next_event poll_world poll
    fill_slots dispatch visit wake_reader find erase set_wait_for_read insert wait_for run_pending
    schedule_events fire_events run_rounds run_round run_staging turn resume run_slice switch
    run_thread exec finish yield_current code_at wrap1 update call_swap prepare create restore
    preserve read_block write_block schedule swap save_registers load_registers ret
reader_run = refl

-- A thread that ends the program in its first turn, while another waits.
abbrev quitter : Program (Unit {0}) PollPoller
quitter = record reader { call_fun = λ fun arg. exits (returns in_wait) }

abbrev quitted : Threads (Unit {0}) PollPoller
quitted = (run_pending quitter.now (turn quitter) 3 reader_system).1

event_loop_exit_example :
    (event_loop quitter.now (turn quitter) (poll_world (λ n. all_ready)) 3 4 reader_system
      ≡ (none, quitted))
    × (event_loop quitter.now (turn quitter) (poll_world (λ n. all_ready)) 3 4 quitted
        ≡ (none, quitted))
    × ((n : ℕ) (u : Threads (Unit {0}) PollPoller)
        → EndsByExit quitter.now
            (turn quitter)
            (poll_world (λ n. all_ready))
            (event_loop quitter.now (turn quitter) (poll_world (λ n. all_ready)) 3 n u))
unfolding run_pending schedule_events fire_events run_rounds run_round run_staging turn resume
    run_slice switch run_thread exec finish yield_current code_at wrap1 update call_swap prepare
    create restore preserve read_block write_block schedule swap save_registers load_registers ret
event_loop_exit_example =
    event_loop_exit quitter.now (turn quitter) (poll_world (λ n. all_ready)) 3 3 reader_system
      quitted refl refl refl

poll-Moves_example :
    (s : PollPoller × World (Unit {0}) PollPoller StackCopy) × (poll schedule all_ready 0
        (two_wait, reader_world)
      ≡ some (none, s))
    × ((x : ℕ) → total x s ≡ total x (two_wait, reader_world))
    × (s.1 ≡ record reader_world { pending = s.1.pending })
poll-Moves_example =
    poll-Moves all_ready 0 two_wait reader_world (omega arith) (refl, tt) (refl, tt)

poll-Served_example :
    (s : PollPoller × World (Unit {0}) PollPoller StackCopy) × (poll schedule all_ready 0
        (two_wait, reader_world)
      ≡ some (none, s))
    × Served 5 2 s
unfolding find
poll-Served_example =
    poll-Served all_ready 0 5 2 two_wait reader_world (omega arith) (refl, tt) (refl, tt)
      (omega arith, tt)
      (λ ps count t. (count, (λ k. (ps k).events), refl, omega arith, λ k below own asked. asked))
      refl

-- The second slot is ready, and only the first is looked at.
poll_misses_example :
    (ps : ℕ → PollFd) × (poll schedule second_ready 0 (two_wait, reader_world)
      ≡ some (none, (record two_wait { poll_set = ps }, reader_world)))
poll_misses_example =
    poll_misses schedule second_ready 0 1 two_wait reader_world (omega arith) λ ps count t. (
      (λ k. record { pollin = k == 1; pollout = false; others = false }),
      refl,
      λ k lt. (ground arith, refl),
    )

abbrev was_reader : ℕ → PollFd
was_reader k = record { fd = 5; events = record no_bits { pollin = true } }

poll_stale_example :
    (ps : ℕ → PollFd) × (poll schedule
        (reports (λ fd. record no_bits { pollin = true; pollout = true }) 1)
        0
        (
          record { read_set = []; write_set = (6, 3) ∷ []; poll_set = was_reader; size = 4 },
          reader_world,
        )
      ≡ some (
        none,
        (record { read_set = []; write_set = (6, 3) ∷ []; poll_set = ps; size = 4 }, reader_world),
      ))
    × ((ps 0).events.pollin ≡ true)
poll_stale_example =
    poll_stale schedule (λ fd. record no_bits { pollin = true; pollout = true }) 0 1 6 3 4
      was_reader reader_world refl refl (omega arith)

abbrev small_kqueue : KqueuePoller
small_kqueue = record { changes = []; output_max = 2; rb = 0; wb = 0 }

set_waits_lem_example :
    set_waits ((read, 5, 2) ∷ (write, 6, 3) ∷ []) small_kqueue
    ≡ some (record {
      changes = changes_of ((read, 5, 2) ∷ (write, 6, 3) ∷ []);
      output_max = 2;
      rb = 1;
      wb = 1;
    })
set_waits_lem_example = set_waits_lem ((read, 5, 2) ∷ (write, 6, 3) ∷ []) small_kqueue (omega arith)

-- The peer of descriptor 5 has closed, with errno 104.
abbrev reset_by_peer : KEvent
reset_by_peer = record { ident = 5; filter = evfilt_read; eof = true; fflags = 104; udata = 2 }

kqueue_poll-Ends_example :
    (entries : List PendingEntry) × (kqueue_poll schedule
        (λ changes n ts. some (reset_by_peer ∷ []))
        (pos 7)
        (small_kqueue, reader_world)
      ≡ (none, (small_kqueue, record reader_world { pending = (2, 0) ∷ entries })))
    × EndsAll (reset_by_peer ∷ []) entries
kqueue_poll-Ends_example =
    kqueue_poll-Ends (λ changes n ts. some (reset_by_peer ∷ [])) (pos 7) small_kqueue reader_world
      (reset_by_peer ∷ []) refl (refl, tt)

abbrev selecting : SelectPoller
selecting = record { read_set = (5, 2) ∷ []; write_set = [] }

abbrev read_ready : Select.Kernel
read_ready r w n tv = Select.answers 1 r w

-- The reader of descriptor 5 is scheduled and its entry erased.
select_reads :
    select_poll schedule read_ready 0 (selecting, reader_world)
    ≡ Select.uses_erased
        (record selecting { read_set = [] }, record reader_world { pending = (2, 0) ∷ (2, 0) ∷ [] })
unfolding select_poll Select.first_set schedule
select_reads = refl
