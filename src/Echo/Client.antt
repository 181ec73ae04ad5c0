-- ===== src/Echo/Client.antt =====
-- demo/echo_client.cc: the transactions of `client`, which sends a message and waits until as many bytes
-- have come back.
pub mod Transactions
pub mod Roundtrip
pub mod Farewell
pub mod Session
pub mod Counter
use coroplusplus.Common.{
  ℕ, zero, suc, ◌+◌, ◌-◌, ◌%◌, ◌^◌, Bool, true, false, Option, none, some, List, [], ◌∷◌, ◌++◌,
  length,
}
use coroplusplus.File.{
  Bytes, Result, ok, os_error, yield_from_main, stuck, out_of_fuel, Answer, ◌>>=◌, read_bytes,
  WriteAnswer, write_bytes,
}

-- The socket of a client, what it has sent, and the 32 bits of `total_bytes`.
pub record EchoClient : Type 0 where
  pub answers : List Answer
  pub write_answers : List WriteAnswer
  pub sent : Bytes
  pub total_bytes : ℕ

-- How the loop over the transactions ends. The exception for a stream that has ended is caught, an
-- `OS_Error` is not; `never` is a wait without an end, or a loop that was cut off.
pub data ClientEnd : Type 0 where
  finished closed_unexpectedly threw never : ClientEnd

-- `while (count)`, with the bytes that have come back, and whether they are all. The fuel bounds the
-- rounds.
unfoldable pub read_back : ℕ → ℕ → Bytes → List Answer → Result (Bool × Bytes) × List Answer
unfolding read_bytes
read_back fuel zero got ans = (ok (true, got), ans)
read_back zero (suc count) got ans = (out_of_fuel, ans)
read_back (suc fuel) (suc count) got ans = read_bytes false (suc count) ans >>= λ buf rest.
    elim buf [
      | [] ↦ (ok (false, got), rest)
      | b ∷ bs ↦ read_back fuel (suc count - length (b ∷ bs)) (got ++ b ∷ bs) rest
    ]

-- What follows the write and the read of a transaction.
abbrev pub after_write :
    (EchoClient → ClientEnd × EchoClient)
    → EchoClient
    → Result (Unit {0}) × List WriteAnswer × Bytes
    → ClientEnd × EchoClient
after_write next c (ok u, ans, sent) = next (record c { write_answers = ans; sent = sent })
after_write next c (os_error call e, ans, sent) =
    (threw, record c { write_answers = ans; sent = sent })
after_write next c (yield_from_main, ans, sent) =
    (threw, record c { write_answers = ans; sent = sent })
after_write next c (stuck, ans, sent) = (never, record c { write_answers = ans; sent = sent })
after_write next c (out_of_fuel, ans, sent) = (never, record c { write_answers = ans; sent = sent })

abbrev pub after_read :
    (EchoClient → ClientEnd × EchoClient)
    → ℕ
    → EchoClient
    → Result (Bool × Bytes) × List Answer
    → ClientEnd × EchoClient
after_read next size c (ok (true, got), ans) =
    next (record c { answers = ans; total_bytes = (c.total_bytes + size) % 2 ^ 32 })
after_read next size c (ok (false, got), ans) = (closed_unexpectedly, record c { answers = ans })
after_read next size c (os_error call e, ans) = (threw, record c { answers = ans })
after_read next size c (yield_from_main, ans) = (threw, record c { answers = ans })
after_read next size c (stuck, ans) = (never, record c { answers = ans })
after_read next size c (out_of_fuel, ans) = (never, record c { answers = ans })

-- `packet_size`, the length of the message: an `int`, given by its 32 bits. The lengths from 2 ^ 31 on are
-- its negative values, which no message has.
abbrev pub packet_size : Bytes → ℕ
packet_size message = length message % 2 ^ 32

-- The `for` loop over the transactions that are left.
unfoldable pub transactions : ℕ → Bytes → EchoClient → ClientEnd × EchoClient
unfolding read_back write_bytes
transactions zero message c = (finished, c)
transactions (suc ntrans) message c =
    after_write
      (λ c'.
        after_read (transactions ntrans message) (packet_size message) c'
          (read_back (packet_size message) (packet_size message) [] c'.answers))
      c (write_bytes false message c.write_answers c.sent)
