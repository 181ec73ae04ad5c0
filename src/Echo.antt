-- ===== src/Echo.antt =====
-- demo/echo_server.cc and demo/echo_client.cc: a session of the echo server, and the message that the
-- client sends to it.
pub mod Client
pub mod Commands
pub mod Message
pub mod Session
use coroplusplus.Common.{
  ℕ, zero, suc, ◌+◌, ◌-◌, ◌%◌, ◌^◌, Bool, true, false, Option, none, some, List, [], ◌∷◌, ◌++◌,
  ◌==◌, ltb, if◌then◌else◌, length, get_or,
}
use coroplusplus.File.{
  Bytes, Call, Result, ok, os_error, yield_from_main, stuck, out_of_fuel, WriteAnswer, write_bytes,
}
use coroplusplus.Demo.{crlf, RoundEnd, goes_on, breaks, caught, never, round_of}
use coroplusplus.Buffer.{Stream, get}

-- The buffer and the socket of a session, what it has sent, and whether it has closed the socket and
-- called `coro::exit`. The results of the calls of `shutdown` and of `the_bench.diff ().dump` to come
-- are parameters.
pub record EchoSession : Type 0 where
  pub stream : Stream
  pub write_answers : List WriteAnswer
  pub sent : Bytes
  pub shutdowns : ℕ → Option ℕ
  pub benches : ℕ → Bytes
  pub calls : ℕ
  pub is_closed : Bool
  pub exits : Bool

-- `s->write (line)`
unfoldable pub send : Bytes → EchoSession → RoundEnd × EchoSession
unfolding write_bytes
send line s =
    let (r, ans, sent) = write_bytes false line s.write_answers s.sent in
    (round_of r goes_on, record s { write_answers = ans; sent = sent })

-- `s->shutdown ()`, and then what follows it.
unfoldable pub shut_down : EchoSession → EchoSession → RoundEnd × EchoSession
shut_down s closed = elim (s.shutdowns s.calls) [
  | none ↦ (breaks, record closed { calls = s.calls + 1 })
  | some errno ↦ (caught, record s { calls = s.calls + 1 })
]

-- The branches for a line that the stream gave.
unfoldable pub answer_line : Bytes → EchoSession → RoundEnd × EchoSession
unfolding send shut_down
answer_line line s =
    if get_or line 0 0 == 33
    then if get_or line 1 0 == 113
      then shut_down s (record s { is_closed = true })
      else if get_or line 1 0 == 115
      then shut_down s (record s { is_closed = true; exits = true })
      else if get_or line 1 0 == 98
      then send (s.benches s.calls) (record s { calls = s.calls + 1 })
      else (goes_on, s)
    else send line s

-- What follows `buf.get (line)`.
abbrev pub after_get : EchoSession → Result (Bool × Bytes) × Stream → RoundEnd × EchoSession
after_get s (ok (true, line), st) = (breaks, record s { stream = st; is_closed = true })
after_get s (ok (false, line), st) = answer_line line (record s { stream = st })
after_get s (os_error c n, st) = (caught, record s { stream = st })
after_get s (yield_from_main, st) = (caught, record s { stream = st })
after_get s (stuck, st) = (never, record s { stream = st })
after_get s (out_of_fuel, st) = (never, record s { stream = st })

-- The body of the `while` loop.
unfoldable pub echo_round : ℕ → EchoSession → RoundEnd × EchoSession
echo_round fuel s = after_get s (get false fuel crlf s.stream)

-- The end of the session: behind the loop or its handlers the socket is destroyed, which closes it. The
-- Boolean tells whether the session came to its end.
abbrev pub after_round :
    (EchoSession → Bool × EchoSession) → RoundEnd × EchoSession → Bool × EchoSession
after_round next (goes_on, s) = next s
after_round next (breaks, s) = (true, record s { is_closed = true })
after_round next (caught, s) = (true, record s { is_closed = true })
after_round next (never, s) = (false, s)

-- `echo_session`; `rounds` bounds the rounds of its loop, and `fuel` those of `get`.
unfoldable pub echo_session : ℕ → ℕ → EchoSession → Bool × EchoSession
echo_session fuel zero s = (false, s)
echo_session fuel (suc rounds) s = after_round (echo_session fuel rounds) (echo_round fuel s)

-- `junkify_buffer`: the first loop writes `n` bytes from the `i`th on, the second the two of the line
-- end. It writes outside the buffer, fills it, or, as `i` has 32 bits and a `size_t` 64, never ends.
pub data Junk : Type 0 where
  fills : Bytes → Junk
  outside spins : Junk

unfoldable pub junk : ℕ → ℕ → Bytes
junk i zero = []
junk i (suc n) = let c = i % 36 in (if ltb c 26 then 97 + c else 48 + (c - 26)) ∷ junk (suc i) n

unfoldable pub junkify_buffer : ℕ → Junk
unfolding junk
junkify_buffer size =
    let filled = (size + 2 ^ 64 - 2) % 2 ^ 64 in
    if ltb size filled
    then outside
    else if ltb filled (2 ^ 32)
    then fills (junk 0 filled ++ crlf)
    else spins
