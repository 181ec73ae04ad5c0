-- ===== src/Echo/Client/Farewell.antt =====
-- demo/echo_client.cc: `client`, from its connection to its end.
pub mod Finishes
use coroplusplus.Common.{
  ℕ, zero, suc, ◌^◌, ◌==◌, Bool, true, false, List, [], ◌∷◌, ◌++◌, if◌then◌else◌, length, ltb,
}
use coroplusplus.File.{
  Bytes, Result, ok, os_error, yield_from_main, stuck, out_of_fuel, read_bytes, WriteAnswer,
  write_bytes,
}
use coroplusplus.Demo.{crlf}
use coroplusplus.Timeval.{ℤ, pos, negsuc}
use coroplusplus.Socket.{SocketEnd, connect}
use coroplusplus.Socket
use coroplusplus.Echo.Client.{
  EchoClient, ClientEnd, finished, closed_unexpectedly, threw, never, packet_size, transactions,
}

-- "!bench", "!shutdown" and "!quit"
abbrev pub bench_line : Bytes
bench_line = 33 ∷ 98 ∷ 101 ∷ 110 ∷ 99 ∷ 104 ∷ []

abbrev pub shutdown_line : Bytes
shutdown_line = 33 ∷ 115 ∷ 104 ∷ 117 ∷ 116 ∷ 100 ∷ 111 ∷ 119 ∷ 110 ∷ []

abbrev pub quit_line : Bytes
quit_line = 33 ∷ 113 ∷ 117 ∷ 105 ∷ 116 ∷ []

-- `counter--`, of an `int` that is not the least one, and the test of `counter`
abbrev pub decrement : ℤ → ℤ
decrement (pos zero) = negsuc zero
decrement (pos (suc n)) = pos n
decrement (negsuc n) = negsuc (suc n)

abbrev pub is_zero : ℤ → Bool
is_zero (pos n) = n == 0
is_zero (negsuc n) = false

-- What the clients share: `counter`, `server_bench`, and whether `coro::exit` was called.
pub record Shared : Type 0 where
  pub counter : ℤ
  pub server_bench : Bytes
  pub exits : Bool

-- `s->write (line)`, and then `s->read (buffer, size)`
abbrev pub after_line :
    ℕ → EchoClient → Result (Unit {0}) × List WriteAnswer × Bytes → Result Bytes × EchoClient
after_line size c (ok u, ans, sent) =
    let (r, left) = read_bytes false size c.answers in
    (r, record c { answers = left; write_answers = ans; sent = sent })
after_line size c (os_error call e, ans, sent) =
    (os_error call e, record c { write_answers = ans; sent = sent })
after_line size c (yield_from_main, ans, sent) =
    (yield_from_main, record c { write_answers = ans; sent = sent })
after_line size c (stuck, ans, sent) = (stuck, record c { write_answers = ans; sent = sent })
after_line size c (out_of_fuel, ans, sent) =
    (out_of_fuel, record c { write_answers = ans; sent = sent })

unfoldable pub exchange : Bytes → ℕ → EchoClient → Result Bytes × EchoClient
unfolding write_bytes read_bytes
exchange line size c = after_line size c (write_bytes false (line ++ crlf) c.write_answers c.sent)

-- The end of a client: how it ends, its socket, and what the clients share.
abbrev pub ClientRun : Type 0
ClientRun = ClientEnd × EchoClient × Shared

abbrev pub end_of {ℓ} : {A : Type ℓ} → Result A → ClientEnd
end_of (ok a) = finished
end_of (os_error call e) = threw
end_of yield_from_main = threw
end_of stuck = never
end_of out_of_fuel = never

-- What follows the answer to "!bench", whose bytes stand in `server_bench`.
abbrev pub after_bench : ℕ → Shared → Result Bytes × EchoClient → ClientRun
after_bench size g (ok got, c) =
    let (r, c') = exchange shutdown_line size c in (end_of r, c', record g { server_bench = got })
after_bench size g (os_error call e, c) = (threw, c, g)
after_bench size g (yield_from_main, c) = (threw, c, g)
after_bench size g (stuck, c) = (never, c, g)
after_bench size g (out_of_fuel, c) = (never, c, g)

-- What a client says after its transactions; `size` is that of its buffer.
unfoldable pub farewell : Bool → ℕ → EchoClient → Shared → ClientRun
unfolding exchange
farewell true size c g = after_bench size g (exchange bench_line 1024 c)
farewell false size c g = let (r, c') = exchange quit_line size c in (end_of r, c', g)

-- `if (last) coro::exit ()`, which an `OS_Error` passes by.
abbrev pub exit_if : Bool → ClientRun → ClientRun
exit_if last (finished, c, g) = (finished, c, if last then record g { exits = true } else g)
exit_if last (closed_unexpectedly, c, g) = (closed_unexpectedly, c, g)
exit_if last (threw, c, g) = (threw, c, g)
exit_if last (never, c, g) = (never, c, g)

-- Behind the transactions; an exception leaves `counter` as it is, and `last` is 0.
abbrev pub after_transactions : ℕ → Shared → ClientEnd × EchoClient → ClientRun
after_transactions size g (finished, c) =
    let last = is_zero (decrement g.counter) in
    exit_if last (farewell last size c (record g { counter = decrement g.counter }))
after_transactions size g (closed_unexpectedly, c) = (closed_unexpectedly, c, g)
after_transactions size g (threw, c) = (threw, c, g)
after_transactions size g (never, c) = (never, c, g)

-- `std::max (packet_size, 4096)`
abbrev pub buffer_size : Bytes → ℕ
buffer_size message =
    let size = packet_size message in
    if ltb size 4096 then 4096 else if ltb size (2 ^ 31) then size else 4096

-- `client`, by the end of `connect`
unfoldable pub client : ℕ → Bytes → SocketEnd → EchoClient → Shared → ClientRun
unfolding transactions farewell
client ntrans message (Socket.returns n) c g =
    after_transactions (buffer_size message) g (transactions ntrans message c)
client ntrans message (Socket.os_error call e) c g = (threw, c, g)
client ntrans message Socket.yield_from_main c g = (threw, c, g)
client ntrans message Socket.stuck c g = (never, c, g)
