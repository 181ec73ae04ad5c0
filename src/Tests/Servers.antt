-- ===== src/Tests/Servers.antt =====
-- A server's thread, the life of a socket, and a thread that sleeps.
use mathlib.Core.List.{Memᴰ}
use coroplusplus.Common.{
  ℕ, ◌+◌, ◌*◌, ◌≤◌, ◌<◌, ◌≡◌, refl, true, false, none, some, List, [], ◌∷◌, arith, ◌⊎◌,
}
use coroplusplus.File.{ewouldblock}
use coroplusplus.File.Descriptor as Descriptor
use coroplusplus.File.Descriptor.{FileObject, new_socket, opens, built}
use coroplusplus.File.Descriptor.Lifetime.{closed, end_of, lifetime_lem}
use coroplusplus.Socket as Socket
use coroplusplus.Timeval.{Timeval, timeradd}
use coroplusplus.Coro.Events.Order.{IsSorted}
use coroplusplus.Coro.State.{World, Coro}
use coroplusplus.Coro.Events.{schedule_events}
use coroplusplus.Coro.Threads.{Program, returns, exec, sleep}
use coroplusplus.Coro.Threads.Sleeping.{alarm, sleep-Wakes}
use coroplusplus.Coro.Private.{blank_frame}
use coroplusplus.Demo.Server.{Server, serve}
use coroplusplus.Demo.Server.Spawns.{Spawns, clients, waiting, serve-Spawns}

abbrev blank : Coro (Unit {0})
blank = record {
  stack = tt;
  value = 0;
  fun = 0;
  meth = 0;
  arg0 = 0;
  started = false;
  dead = false;
  id = 0;
}

-- The thread 1 is the server's. The memory is the list of the sockets.
abbrev world : World (List ℕ) (Unit {0}) (Unit {0})
world = record {
  exit = false;
  events = [];
  id_counter = 1;
  current = some 1;
  pending = [];
  staging = [];
  coros = λ p. blank;
  next = 2;
  heap = [];
  wait = tt;
  ticks = 0;
}

abbrev program : Program (List ℕ) (Unit {0})
program = record {
  call_fun = λ fun arg. returns blank_frame;
  call_method = λ meth arg. returns blank_frame;
  resume_at = λ f v. returns blank_frame;
  now = λ n. record { tv_sec = 100; tv_usec = 999999 };
  malloc = λ n size. true;
  set_wait = λ d fd c w. w;
  stack_base = 1000;
  wrap0 = 1;
  resume_return = 2;
}

abbrev server : Server (List ℕ)
server = record { fun = 7; fd = 3; conn = λ fd h. 900 + fd; make = λ fd h. fd ∷ h; catches = true }

-- The connections 5 and 6, and then nobody.
serve-Spawns_example :
    (w' : World (List ℕ) (Unit {0}) (Unit {0})) × Spawns program tt server (4 ∷ 5 ∷ []) world w'
    × (exec program tt 1
          (serve server blank_frame (clients (4 ∷ 5 ∷ []) (Socket.fails ewouldblock none ∷ [])))
          world
        ≡ (blank_frame, waiting program tt server 1 w'))
serve-Spawns_example =
    serve-Spawns program tt server 1 1 ewouldblock blank_frame (4 ∷ 5 ∷ [])
      (Socket.fails ewouldblock none) [] world refl refl

lifetime_lem_example :
    (closed (end_of 2 (new_socket none (opens 5) (some 9))).closes ≡ 5 ∷ [])
    × (closed (end_of 2 (new_socket (some 5) (opens 6) (some 9))).closes ≡ 5 ∷ [])
    × (closed (end_of 2 (new_socket none (Descriptor.fails 24) (some 9))).closes ≡ 0 ∷ [])
    × (new_socket (some 5) (opens 6) (some 9)
        ≡ built (record { fd = some 5; closes = []; ndelay = none }))
lifetime_lem_example = lifetime_lem 2 5 24 (opens 6) (some 9)

-- The thread sleeps for 1500 milliseconds, and 2 seconds later its event fires.
abbrev later : ℕ → Timeval
later n = record { tv_sec = 102; tv_usec = 999999 }

abbrev asleep : World (List ℕ) (Unit {0}) (Unit {0})
asleep = record world { events = alarm 1 1500 (program.now 0) ∷ [] }

sleep-Wakes_example :
    Memᴰ
      (alarm 1 1500 (program.now 0))
      (exec program tt 1 (sleep 1 1500 blank_frame) world).1.events
    × IsSorted (exec program tt 1 (sleep 1 1500 blank_frame) world).1.events
    × (((100999999 + 1500 * 1000 < 102999999)
          × Memᴰ (1, 0) (schedule_events later asleep).1.pending)
        ⊎ ((102999999 ≤ 100999999 + 1500 * 1000)
            × Memᴰ (alarm 1 1500 (program.now 0)) (schedule_events later asleep).1.events))
unfolding timeradd
sleep-Wakes_example =
    sleep-Wakes program tt 1 1 1 1500 blank_frame world later asleep refl (omega arith) tt
      (omega arith) (omega arith, tt, tt) (refl, tt) (Memᴰ.head refl)
