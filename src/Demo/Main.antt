-- ===== src/Demo/Main.antt =====
-- demo/echo_server.cc, demo/echo_client.cc and demo/smtp_server.cc: the `main` functions, from the static
-- members of `coro` to the event loop. What they print is left out.
pub mod Makes
pub mod Refines
use coroplusplus.Common.{
  ℕ, zero, suc, ◌+◌, Bool, true, false, Option, none, some, List, [], ◌∷◌, ◌==◌, if◌then◌else◌,
}
use coroplusplus.Timeval.{Timeval}
use coroplusplus.Coro.State.{
  Outcome, ◌>>=◌, PendingEntry, Coro, World, coro_of_fun, coro_of_method, new_coro, schedule,
}
use coroplusplus.Coro.Threads.{Frame, Code, gets_current, pointer, sleep}
use coroplusplus.Coro.Loop.{System, on_world}
use coroplusplus.Coro.EventLoop.{event_loop}

-- The pollers of the program.
pub data PollerKind : Type 0 where
  kqueue_poller select_poller poll_poller : PollerKind

-- How the options of the echo server are read: `ksp`, or the end behind the message on how to use it.
unfoldable pub read_options : List ℕ → ℕ → Option ℕ
read_options [] ksp = some ksp
read_options (ch ∷ chs) ksp =
    let k = read_options chs 0 in
    let s = read_options chs 1 in
    let p = read_options chs 2 in
    if ch == 107 then k else if ch == 115 then s else if ch == 112 then p else none

abbrev pub default_ksp : Bool → ℕ
default_ksp linux = if linux then 2 else 0

-- The poller of the echo server; on Linux there is none for 0, and `p` stays null.
unfoldable pub poller_of : Bool → ℕ → Option PollerKind
poller_of linux ksp =
    if ksp == 0
    then if linux then none else some kqueue_poller
    else if ksp == 1
    then some select_poller
    else if ksp == 2
    then some poll_poller
    else none

-- What `new coro` is given: a function or a method, and its argument.
pub data Start : Type 0 where
  of_fun of_method : ℕ → ℕ → Start

abbrev pub new_of : {Stack : Type 0} → Stack → Start → ℕ → Coro Stack
new_of b (of_fun fun arg) = coro_of_fun b fun arg
new_of b (of_method meth arg) = coro_of_method b meth arg

-- The coroutines of the three `main` functions. The functions and the address of the client's server
-- are parameters.
abbrev pub echo_server_starts : ℕ → ℕ → ℕ → List Start
echo_server_starts echo_server thing_thread thing =
    of_fun echo_server 9001 ∷ of_method thing_thread thing ∷ []

abbrev pub smtp_server_starts : ℕ → List Start
smtp_server_starts smtp_server = of_fun smtp_server 9025 ∷ []

-- The loop of the client's `main` function, with `counter` behind it.
unfoldable pub client_starts : ℕ → ℕ → ℕ → ℕ → List Start × ℕ
client_starts client addr zero counter = ([], counter)
client_starts client addr (suc nc) counter =
    let (xs, n) = client_starts client addr nc (counter + 1) in (of_fun client addr ∷ xs, n)

module _ {Heap : Type 0} where
  -- `thing::thing_thread`, from one turn to the next: in its loop, and from its start on
  abbrev pub thing_loop : ℕ → Frame → Code Heap
  thing_loop me f = sleep me 5000 f

  abbrev pub thing_thread : Frame → Code Heap
  thing_thread f = gets_current (λ me. thing_loop (pointer me) f)

module _ {Heap Wait Stack : Type 0} (b : Stack) where
  -- The static members, behind the constructor of `_main_coroutine`, which takes the first id, and
  -- `set_poller`. No coroutine is there yet; the pointers from 1 on are free.
  unfoldable pub first_world : Heap → Wait → World Heap Wait Stack
  first_world heap wait = record {
    exit = false;
    events = [];
    id_counter = 1;
    current = none;
    pending = [];
    staging = [];
    coros = λ p. coro_of_fun b 0 0 0;
    next = 1;
    heap = heap;
    wait = wait;
    ticks = 0;
  }

  -- `new coro (…)` and `schedule ()`
  unfoldable pub start : Start → World Heap Wait Stack → Outcome (World Heap Wait Stack)
  start x w = schedule w.next 0 (new_coro (new_of b x) w)

  unfoldable pub start_all : List Start → World Heap Wait Stack → Outcome (World Heap Wait Stack)
  unfolding start
  start_all [] w = (none, w)
  start_all (x ∷ xs) w = start x w >>= start_all xs

module _ {Heap Wait Stack Extra : Type 0} (b : Stack) (now : ℕ → Timeval)
    (turn : PendingEntry → System Heap Wait Stack Extra → Outcome (System Heap Wait Stack Extra))
    (poll : ℕ → World Heap Wait Stack → Outcome (World Heap Wait Stack)) where
  -- The rest of a `main` function, which starts its coroutines and calls `event_loop`.
  unfoldable pub run_main :
      ℕ → ℕ → List Start → System Heap Wait Stack Extra → Outcome (System Heap Wait Stack Extra)
  unfolding start_all event_loop
  run_main fuel rounds xs s = on_world (start_all b xs) s >>= event_loop now turn poll fuel rounds
