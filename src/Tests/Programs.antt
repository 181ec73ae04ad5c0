-- ===== src/Tests/Programs.antt =====
-- Whole programs, from their `main` function on.
use coroplusplus.Common.{◌≡◌, refl, arith, true, none, some, [], ◌∷◌, inl}
use coroplusplus.Coro.State.{World}
use coroplusplus.Coro.Stack.{StackCopy, blank_stack, turn}
use coroplusplus.Coro.Private.{blank_frame, private_turn}
use coroplusplus.Coro.Private.Related.{Refines}
use coroplusplus.Poller.Poll.{PollPoller}
use coroplusplus.Poller.Poll.Interface.{poll_world, poll_poller}
use coroplusplus.Demo.Main.{
  of_fun, echo_server_starts, client_starts, read_options, poller_of, select_poller, first_world,
  start_all, run_main,
}
use coroplusplus.Demo.Main.Makes.{Makes}
use coroplusplus.Demo.Main.Refines.{run_main-Refines}
use coroplusplus.Tests.Polling.{two_wait, all_ready, reader, reader_system, reader-IsSound}

abbrev no_waits : PollPoller
no_waits = record two_wait { read_set = []; write_set = [] }

-- The server's thread waits for descriptor 5; the other one ends at once.
run_main-Refines_example :
    ((w : World (Unit {0}) PollPoller StackCopy) × (start_all blank_stack
          (echo_server_starts 1 7 9)
          (first_world blank_stack tt no_waits)
        ≡ (none, w))
      × Makes blank_stack (echo_server_starts 1 7 9) (first_world blank_stack tt no_waits) w)
    × Refines reader
        (run_main blank_stack reader.now
          (turn reader)
          (poll_world (λ n. all_ready))
          3
          3
          (echo_server_starts 1 7 9)
          (record { world = first_world blank_stack tt no_waits; extra = reader_system.extra }))
        (run_main blank_frame reader.now
          (private_turn reader)
          (poll_world (λ n. all_ready))
          3
          3
          (echo_server_starts 1 7 9)
          (record { world = first_world blank_frame tt no_waits; extra = tt }))
run_main-Refines_example =
    run_main-Refines reader reader-IsSound (poll_poller (λ n. all_ready)) 3 3
      (echo_server_starts 1 7 9) tt no_waits reader_system.extra (omega arith) (inl (omega arith))

two_clients : client_starts 7 8 2 0 ≡ (of_fun 7 8 ∷ of_fun 7 8 ∷ [], 2)
unfolding client_starts
two_clients = refl

-- "-k" and then "-s"; on Linux, "-k" alone chooses no poller.
last_option : read_options (107 ∷ 115 ∷ []) 2 ≡ some 1
unfolding read_options
last_option = refl

selects : poller_of true 1 ≡ some select_poller
unfolding poller_of
selects = refl

null_poller : poller_of true 0 ≡ none
unfolding poller_of
null_poller = refl
