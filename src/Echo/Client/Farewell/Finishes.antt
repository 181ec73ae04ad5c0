-- ===== src/Echo/Client/Farewell/Finishes.antt =====
-- The side of the client, from its connection to its end.
use coroplusplus.Common.{
  ◌^◌, copies, ℕ, ◌+◌, ◌*◌, ◌≤◌, ◌<◌, ◌≡◌, refl, ap, sym, ◌∙◌, Bool, true, false, [], ◌++◌,
  if◌then◌else◌, arith, length, append_assoc, subst,
}
use coroplusplus.File.{Bytes, Result, ok}
use coroplusplus.File.Stream.{content, IsSteady, read_bytes-Reads}
use coroplusplus.File.Write.{IsWritable, takings, write_bytes-Writes}
use coroplusplus.Demo.{crlf}
use coroplusplus.Timeval.{ℤ}
use coroplusplus.Socket.{SocketEnd}
use coroplusplus.Socket
use coroplusplus.Echo.Client.{EchoClient, finished, transactions}
use coroplusplus.Echo.Client.Transactions.{transactions-Transacts}
use coroplusplus.Echo.Client.Farewell.{
  bench_line, shutdown_line, quit_line, Shared, ClientRun, after_line, exchange, after_bench,
  decrement, is_zero, buffer_size, end_of, farewell, exit_if, after_transactions, client,
}

-- The commands of the last client, and of any other; and what the server sends then.
abbrev pub commands : Bool → Bytes
commands true = (bench_line ++ crlf) ++ (shutdown_line ++ crlf)
commands false = quit_line ++ crlf

abbrev pub replies : Bool → Bytes → Bytes
replies true bench = bench
replies false bench = []

-- `s->write (line)` and a read: the line is sent, and the bytes that are left are fewer.
record Exchanges (line : Bytes) (c : EchoClient) (o : Result Bytes × EchoClient) : Type 0 where
  got : Bytes
  next : EchoClient
  result : o ≡ (ok got, next)
  sends : next.sent ≡ c.sent ++ (line ++ crlf)
  steady : IsSteady next.answers
  writable : IsWritable next.write_answers
  takings_left : takings c.write_answers ≤ takings next.write_answers + length (line ++ crlf)

exchange-Exchanges :
    (line : Bytes) (size : ℕ) (c : EchoClient)
    → 0 < size
    → IsSteady c.answers
    → IsWritable c.write_answers
    → length (line ++ crlf) ≤ takings c.write_answers
    → Exchanges line c (exchange line size c)
unfolding exchange
exchange-Exchanges line size c pos steady writable enough =
    let w = write_bytes-Writes (line ++ crlf) c.write_answers c.sent writable enough in
    let r = read_bytes-Reads size c.answers pos steady in
    record {
      got = r.got;
      next = record c { answers = r.left; write_answers = w.left; sent = c.sent ++ (line ++ crlf) };
      result =
          ap (after_line size c) w.result
          ∙ ap
              (λ o. (
                o.0,
                record c { answers = o.1; write_answers = w.left; sent = c.sent ++ (line ++ crlf) },
              ))
              r.result;
      sends = refl;
      steady = r.steady;
      writable = w.writable;
      takings_left = w.takings_left;
    }

-- The client came to its end without an exception, and has sent `text`.
abbrev pub Finishes : Bytes → ℤ → Bool → EchoClient → ClientRun → Type 0
Finishes text counter exits c o =
    (o.0 ≡ finished) × (o.1.sent ≡ c.sent ++ text) × (o.2.counter ≡ counter) × (o.2.exits ≡ exits)

farewell-Finishes :
    (last : Bool) (size : ℕ) (c : EchoClient) (g : Shared)
    → 0 < size
    → IsSteady c.answers
    → IsWritable c.write_answers
    → length (commands last) ≤ takings c.write_answers
    → Finishes
        (commands last)
        g.counter
        (if last then true else g.exits)
        c
        (exit_if last (farewell last size c g))
unfolding farewell
farewell-Finishes false size c g pos steady writable enough =
    let i = exchange-Exchanges quit_line size c pos steady writable enough in
    subst
      (λ o. Finishes (quit_line ++ crlf) g.counter g.exits c (exit_if false (end_of o.0, o.1, g)))
      (sym i.result) (refl, i.sends, refl, refl)
farewell-Finishes true size c g pos steady writable enough =
    let i = exchange-Exchanges bench_line 1024 c (omega arith) steady writable (omega arith) in
    let j =
      exchange-Exchanges shutdown_line size i.next pos i.steady i.writable
        (omega (arith, enough, i.takings_left)) in
    subst (λ o. Finishes (commands true) g.counter true c (exit_if true (after_bench size g o)))
      (sym i.result)
      (subst
        (λ o.
          Finishes (commands true) g.counter true c
            (exit_if true (end_of o.0, o.1, record g { server_bench = i.got })))
        (sym j.result)
        (
          refl,
          j.sends
              ∙ ap (λ t. t ++ (shutdown_line ++ crlf)) i.sends
              ∙ append_assoc c.sent (bench_line ++ crlf) (shutdown_line ++ crlf),
          refl,
          refl,
        ))

-- The side of the client, from the connection on.
pub client-Finishes :
    (last : Bool) (n d : ℕ) (message : Bytes) (c : EchoClient) (g : Shared)
    → is_zero (decrement g.counter) ≡ last
    → length message < 2 ^ 31
    → n * length message ≤ length (content c.answers)
    → IsSteady c.answers
    → IsWritable c.write_answers
    → n * length message + length (commands last) ≤ takings c.write_answers
    → Finishes
        (copies n message ++ commands last)
        (decrement g.counter)
        (if last then true else g.exits)
        c
        (client n message (Socket.returns d) c g)
unfolding client
client-Finishes last n d message c g is_last int back steady writable enough =
    let o = transactions n message c in
    let size = buffer_size message in
    let pos : 0 < size = ground arith in
    let t = transactions-Transacts n message c int back steady writable (omega (arith, enough)) in
    let g' : Shared = record g { counter = decrement g.counter } in
    let i =
      farewell-Finishes last size o.1 g' pos t.steady t.writable
        (omega (arith, enough, t.takings_left)) in
    subst
      (Finishes (copies n message ++ commands last) (decrement g.counter)
        (if last then true else g.exits) c)
      (sym (
        ap (λ e. after_transactions size g (e, o.1)) t.finishes
        ∙ ap (λ l. exit_if l (farewell l size o.1 g')) is_last))
      (
        i.0,
        i.1
            ∙ ap (λ u. u ++ commands last) t.sends
            ∙ append_assoc c.sent (copies n message) (commands last),
        i.2,
        i.3,
      )
