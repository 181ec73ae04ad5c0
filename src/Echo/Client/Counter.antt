-- ===== src/Echo/Client/Counter.antt =====
-- The clients of one process, which share `counter`, in the order in which they come to it.
use coroplusplus.Common.{
  ℕ, zero, suc, ap, ◌+◌, ◌<◌, ◌≡◌, refl, sym, ◌∙◌, false, List, [], ◌∷◌, arith, subst,
}
use coroplusplus.File.{Bytes}
use coroplusplus.Timeval.{pos}
use coroplusplus.Socket.{SocketEnd, connect}
use coroplusplus.Socket
use coroplusplus.Echo.Client.{
  EchoClient, ClientEnd, finished, closed_unexpectedly, threw, never, transactions,
}
use coroplusplus.Echo.Client.Farewell.{
  Shared, ClientRun, decrement, is_zero, buffer_size, farewell, exit_if, after_transactions, client,
}

-- A client with the end of its `connect`.
abbrev pub Client : Type 0
Client = SocketEnd × EchoClient

unfoldable pub run_clients : ℕ → Bytes → List Client → Shared → Shared
run_clients ntrans message [] g = g
run_clients ntrans message (x ∷ xs) g =
    run_clients ntrans message xs (client ntrans message x.0 x.1 g).2

-- How many clients a client takes from `counter`: one, if it has gone through its transactions.
abbrev pub counted : ClientEnd → ℕ
counted finished = 1
counted closed_unexpectedly = 0
counted threw = 0
counted never = 0

abbrev pub leaves : ℕ → Bytes → Client → ℕ
leaves ntrans message (Socket.returns d, c) = counted (transactions ntrans message c).0
leaves ntrans message (Socket.os_error call e, c) = 0
leaves ntrans message (Socket.yield_from_main, c) = 0
leaves ntrans message (Socket.stuck, c) = 0

abbrev pub leave : ℕ → Bytes → List Client → ℕ
leave ntrans message [] = 0
leave ntrans message (x ∷ xs) = leaves ntrans message x + leave ntrans message xs

-- `counter` was `m` and is lower by `n`, and `exit` was called only if it was before.
abbrev pub Keeps : ℕ → ℕ → Shared → Shared → Type 0
Keeps m n g g' = ((left : ℕ) × (g'.counter ≡ pos left) × (left + n ≡ m)) × (g'.exits ≡ g.exits)

exit_if-Keeps :
    (o : ClientRun) (m n : ℕ) (g : Shared) → Keeps m n g o.2 → Keeps m n g (exit_if false o).2
exit_if-Keeps (finished, c, g') m n g h = h
exit_if-Keeps (closed_unexpectedly, c, g') m n g h = h
exit_if-Keeps (threw, c, g') m n g h = h
exit_if-Keeps (never, c, g') m n g h = h

after_transactions-Keeps :
    (size m : ℕ) (o : ClientEnd × EchoClient) (g : Shared)
    → g.counter ≡ pos m
    → counted o.0 < m
    → Keeps m (counted o.0) g (after_transactions size g o).2
unfolding farewell
after_transactions-Keeps size zero (finished, c) g e h = absurd (omega arith)
after_transactions-Keeps size (suc m) (finished, c) g e h =
    let more : is_zero (pos m) ≡ false = ground arith in
    let g' : Shared = record g { counter = pos m } in
    subst
      (λ k.
        Keeps (suc m) 1 g
          (exit_if (is_zero k) (farewell (is_zero k) size c (record g { counter = k }))).2)
      (sym (ap decrement e))
      (subst (λ l. Keeps (suc m) 1 g (exit_if l (farewell l size c g')).2) (sym more)
        (exit_if-Keeps (farewell false size c g') (suc m) 1 g ((m, refl, omega arith), refl)))
after_transactions-Keeps size m (closed_unexpectedly, c) g e h = ((m, e, omega arith), refl)
after_transactions-Keeps size m (threw, c) g e h = ((m, e, omega arith), refl)
after_transactions-Keeps size m (never, c) g e h = ((m, e, omega arith), refl)

client-Keeps :
    (ntrans m : ℕ) (message : Bytes) (x : Client) (g : Shared)
    → g.counter ≡ pos m
    → leaves ntrans message x < m
    → Keeps m (leaves ntrans message x) g (client ntrans message x.0 x.1 g).2
unfolding client
client-Keeps ntrans m message (Socket.returns d, c) g e h =
    after_transactions-Keeps (buffer_size message) m (transactions ntrans message c) g e h
client-Keeps ntrans m message (Socket.os_error call n, c) g e h = ((m, e, omega arith), refl)
client-Keeps ntrans m message (Socket.yield_from_main, c) g e h = ((m, e, omega arith), refl)
client-Keeps ntrans m message (Socket.stuck, c) g e h = ((m, e, omega arith), refl)

-- If fewer clients go through their transactions than `counter` says, as when a connection fails, ends
-- early or hangs, then `counter` is lower by those that do and not 0, and none of them calls
-- `coro::exit`.
pub run_clients_hang :
    (ntrans m : ℕ) (message : Bytes) (xs : List Client) (g : Shared)
    → g.counter ≡ pos m
    → leave ntrans message xs < m
    → Keeps m (leave ntrans message xs) g (run_clients ntrans message xs g)
unfolding run_clients
run_clients_hang ntrans m message [] g e h = ((m, e, omega arith), refl)
run_clients_hang ntrans m message (x ∷ xs) g e h =
    let ((m', e', sum), exits) = client-Keeps ntrans m message x g e (omega arith) in
    let ((left, e'', sum'), exits') =
      run_clients_hang ntrans m' message xs (client ntrans message x.0 x.1 g).2 e'
        (omega (arith, sum, h)) in
    ((left, e'', omega (arith, sum, sum')), exits' ∙ exits)
