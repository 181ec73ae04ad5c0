-- ===== src/Tests/Clients.antt =====
-- A client of the echo server and its session, the clients of one process, and the benchmark's text.
use coroplusplus.Common.{
  copies, ℕ, zero, suc, ◌≤◌, ◌≡◌, refl, true, false, none, some, List, [], ◌∷◌, ◌++◌, arith, length,
  codes,
}
use coroplusplus.File.{Bytes, arrives, takes, WriteAnswer}
use coroplusplus.File.Stream.{content}
use coroplusplus.Buffer.{get, fill, scan}
use coroplusplus.Buffer.Lines.{IsFreeOf}
use coroplusplus.Demo.{crlf}
use coroplusplus.Socket as Socket
use coroplusplus.Timeval.{Timeval, pos}
use coroplusplus.Echo.{
  EchoSession, echo_session, echo_round, answer_line, junkify_buffer, junk, fills,
}
use coroplusplus.Echo.Commands.{Ends}
use coroplusplus.Echo.Client.{EchoClient, transactions, read_back}
use coroplusplus.Echo.Client.Farewell.{Shared, client}
use coroplusplus.Echo.Client.Farewell.Finishes.{commands, Finishes}
use coroplusplus.Echo.Client.Session.{client_session}
use coroplusplus.Echo.Client.Counter.{Client, Keeps, run_clients, run_clients_hang}
use coroplusplus.Bench.{Rusage, Bench, diff, print_bench, print_long, digits, dump}
use coroplusplus.Bench.Dump.{dump-diff}

abbrev many : ℕ → List WriteAnswer
many zero = []
many (suc n) = takes 0 ∷ many n

-- "a" and the line end.
abbrev message : Bytes
message = 97 ∷ 13 ∷ 10 ∷ []

-- The session of the last client; the benchmark says "ok".
abbrev served : EchoSession
served = record {
  stream = record {
    buffer = 97 ∷ [];
    answers = arrives (13 ∷ 10 ∷ []) ∷ arrives (message ++ commands true) ∷ [];
  };
  write_answers = many 9;
  sent = [];
  shutdowns = λ n. none;
  benches = λ n. 111 ∷ 107 ∷ [];
  calls = 0;
  is_closed = false;
  exits = false;
}

abbrev last_client : EchoClient
last_client = record {
  answers = arrives (97 ∷ 13 ∷ []) ∷ arrives (10 ∷ message ++ 111 ∷ 107 ∷ []) ∷ [];
  write_answers = many 40;
  sent = [];
  total_bytes = 0;
}

abbrev one_left : Shared
one_left = record { counter = pos 1; server_bench = []; exits = false }

message_is_filled : junkify_buffer 3 ≡ fills message
unfolding junkify_buffer junk
message_is_filled = refl

session_answers : content last_client.answers ≡ (echo_session 40 5 served).1.sent
unfolding echo_session echo_round get fill scan answer_line
session_answers = refl

client_session_example :
    Ends (copies 2 message ++ 111 ∷ 107 ∷ []) true served (echo_session 40 5 served)
    × Finishes
        (copies 2 message ++ commands true)
        (pos 0)
        true
        last_client
        (client 2 message (Socket.returns 5) last_client one_left)
client_session_example =
    client_session 40 5 2 3 5 message served last_client one_left (pos 0) (omega arith)
      (omega arith) refl message_is_filled refl refl session_answers (omega arith) (omega arith)
      (λ e. cc, (λ e. cc, tt)) (λ e. cc, (λ e. cc, tt)) tt tt (omega arith) (omega arith)
      (λ i. refl)

-- Two clients, of which one cannot connect and the other gets no answer.
abbrev two_clients : List Client
two_clients =
    (Socket.os_error Socket.in_connect 111, last_client)
    ∷ (Socket.returns 5, record last_client { answers = [] })
    ∷ []

abbrev two_left : Shared
two_left = record { counter = pos 2; server_bench = []; exits = false }

run_clients_hang_example : Keeps 2 0 two_left (run_clients 1 message two_clients two_left)
unfolding transactions read_back
run_clients_hang_example = run_clients_hang 1 2 message two_clients two_left refl (omega arith)

abbrev nothing_used : Rusage Timeval ℕ
nothing_used = record {
  utime = record { tv_sec = 0; tv_usec = 0 };
  stime = record { tv_sec = 0; tv_usec = 0 };
  maxrss = 0;
  ixrss = 0;
  idrss = 0;
  isrss = 0;
  minflt = 0;
  majflt = 0;
  nswap = 0;
  inblock = 0;
  oublock = 0;
  msgsnd = 0;
  msgrcv = 0;
  nsignals = 0;
  nvcsw = 0;
  nivcsw = 0;
}

abbrev start : Bench Timeval ℕ
start = record { tv = record { tv_sec = 100; tv_usec = 999999 }; ru = nothing_used }

abbrev stop : Bench Timeval ℕ
stop = record {
  tv = record { tv_sec = 112; tv_usec = 34 };
  ru = record nothing_used { maxrss = 1200; nvcsw = 10 };
}

diff_text :
    print_bench (diff start stop)
    ≡ codes
        "11 000035|0 000000|0 000000|maxrss:1200 ixrss:0 idrss:0 isrss:0 minflt:0 majflt:0 nswap:0 inblock:0 oublock:0 msgsnd:0 msgrcv:0 nsignals:0 nvcsw:10 nivcsw:0"
      ++ crlf
unfolding print_bench diff print_long digits
diff_text = refl

dump-diff_example :
    (line : Bytes) × (dump (62 ∷ []) (diff start stop) ≡ some ((62 ∷ []) ++ (line ++ crlf)))
    × IsFreeOf 13 line
    × (length (line ++ crlf) ≤ 478)
dump-diff_example =
    dump-diff (62 ∷ []) start stop (omega arith) (omega arith) (omega arith) (omega arith)
      (omega arith) (omega arith)
