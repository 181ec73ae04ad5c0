-- ===== src/Lib.antt =====
-- coro++: user threads in C++ on one shared stack, with an event loop behind calls that look blocking.
--
-- The parts of the program, and where each is modelled:
--
--   swap.h           The context switch. `Swap` has `__swap` and `machine_state` for x86_64, `Swap/I386`
--                    those for i386: registers that a called function keeps, a memory of words, and
--                    the saved states by pointer.
--   coro++.h         `Coro/State` has the classes `coro` and `event`, the static members and
--                    `schedule`; `Coro/Events` the timed events (`insert_event`, `schedule_events`,
--                    `time_to_next_event`), over `Timeval` for the macros of <sys/time.h>;
--                    `Coro/Threads` what a thread does between two switches, with `_wrap1`, `sleep` and
--                    the waits of the poller; `Coro/Stack` the copying of the stack (`create`,
--                    `preserve`, `restore`, `resume`, `yield`); `Coro/Loop` the loops of
--                    `run_pending`.
--   sync.h           `Sync` has `condition_variable`, `latch` and `fifo`, over any scheduler; a method
--                    that blocks is given up to its call of `yield`. `Sync/Handover` runs threads that
--                    share a `fifo`, as steps in any order.
--   coro_file.h      `File` has the loops of `coro_file` that write and read, `File/Descriptor` the
--                    descriptor of an object from its constructor to its destructor, with the rest of
--                    `coro_socket`.
--   coro_buffer.h    `Buffer` has `string_join` and the class `coro_buffer`, over `File`.
--   event_poll.h, event_kqueue.h, event_select.h
--                    `Poller` has the maps from descriptors to coroutines, `Poller/Poll`,
--                    `Poller/Kqueue` and `Poller/Select` the three pollers, over the answers of the
--                    kernel; `Coro/EventLoop` has `event_loop` over any poller.
--   coro_socket.h    `Socket` has `_accept` and `connect`.
--   coro_bench.h     `Bench` has the difference of two readings and its text.
--   coro_openssl.h, coro_s2n.h
--                    `Tls/Openssl` has the list of protocols and the loops of `coro_ssl`, `Tls/S2n` the
--                    negotiation and the loops of `coro_s2n`, over the answers of the libraries; in
--                    both, `Connection` has the contexts, the constructors and `accept`.
--   demo/smtp_server.cc
--                    `Smtp` has the parsers of a command line, `Smtp/Session` a session.
--   demo/echo_server.cc, demo/echo_client.cc
--                    `Echo` has a session of the server and the message of the client, `Echo/Client` its
--                    transactions, `Echo/Client/Farewell` the rest of `client`, and
--                    `Echo/Client/Counter` the clients of one process; `Demo` has what the sessions of
--                    both servers share, `Demo/Server` the loop of `echo_server` and `smtp_server`, and
--                    `Demo/Main` the `main` functions.
--   (specification)  `Coro/Private` is the same scheduler when every thread has a stack of its own, and
--                    its children relate the two.
--
-- The program that uses the library is a parameter (`Program` in `Coro/Threads`): the functions of its
-- threads, what the machine code behind a return address does with a stack, the clock, `malloc` and
-- the poller. A run of a thread up to its next switch is a tree of the calls of the library that it
-- makes. A coroutine is a number, and so is a word of memory; addresses count words. The priority queue
-- is a list by time. `run_pending` takes the number of rounds as fuel, since threads that wake one
-- another keep it busy for ever; a run that is cut off says so. `event_loop` and the sessions of
-- the servers take the number of their own rounds too; a session needs one for each line and one for the
-- end. The client reads back a message with as many rounds as it has bytes.
--
-- The kernel behind a file is the list of its coming answers: bytes that have arrived, or a refusal with
-- its errno and the end of the wait that follows it. A loop on a file takes the number of its rounds as
-- fuel: each round but the last reads a byte at least, so as many rounds as bytes are enough, and one
-- more for `get`, which sees the end of the stream in a round of its own.
--
-- The loop of a server is given as what it does from one wait to the next, as any thread is; a session and
-- a client are given as loops over the answers of their kernels, since no other thread changes what they
-- use but `counter`, which a client changes in one step. `counter` is an integer, `packet_size` and
-- `total_bytes` are the 32 bits of an `int`, and `read` and `write` over s2n give each call of the library
-- its offset into the buffer. A `long` is printed with 19 digits of fuel, which
-- all numbers below 2 ^ 63 have room in.
--
-- Not modelled: output on std::cerr, the destructors of coroutines and pollers, the unused class in
-- event_poller.h, the release scripts and certificates, and the command line of the client.
pub mod Common
pub mod Timeval
pub mod Swap
pub mod Coro
pub mod Tests
pub mod File
pub mod Buffer
pub mod Sync
pub mod Smtp
pub mod Poller
pub mod Demo
pub mod Echo
pub mod Bench
pub mod Socket
pub mod Tls
