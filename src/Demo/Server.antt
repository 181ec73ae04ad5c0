-- ===== src/Demo/Server.antt =====
-- demo/echo_server.cc and demo/smtp_server.cc: the loop of `echo_server` and `smtp_server`, which accepts
-- connections and starts a thread for each, from the moment it is given the processor until it waits.
pub mod Spawns
use coroplusplus.Common.{
  ℕ, zero, suc, Bool, true, false, Option, none, some, List, [], ◌∷◌, ◌==◌, if◌then◌else◌,
}
use coroplusplus.File.{ewouldblock}
use coroplusplus.Socket.{AcceptAnswer, gives, fails}
use coroplusplus.Coro.Threads.{
  Frame, Code, schedules, new_fun, gets_current, writes_heap, reads_heap, returns, throws, read,
  wait_for,
}

-- `fun` is the function of a session, `fd` the descriptor that listens, and `conn` and `make` what
-- `new coro_socket (fd)` returns and does to the memory. `catches` tells whether the function of the server
-- catches an exception, as `echo_server` does; then it returns.
pub record Server (Heap : Type 0) : Type 0 where
  pub fun : ℕ
  pub fd : ℕ
  pub conn : ℕ → Heap → ℕ
  pub make : ℕ → Heap → Heap
  pub catches : Bool

module _ {Heap : Type 0} (s : Server Heap) (f : Frame) where
  abbrev pub server_ends : Code Heap
  server_ends = if s.catches then returns f else throws f

  -- `wait_for_read` in `_accept`
  unfoldable pub wait_for_client : Code Heap
  unfolding wait_for
  wait_for_client =
      gets_current (λ me. elim me [ none ↦ server_ends | some c ↦ wait_for read s.fd c f ])

  -- The branches of `_accept` for an answer without a descriptor that counts.
  unfoldable pub no_client : ℕ → Code Heap
  unfolding wait_for_client
  no_client errno = if errno == ewouldblock then wait_for_client else server_ends

  -- The body of the `while` loop, behind `accept`, and the rest of the loop.
  unfoldable pub spawn_session : ℕ → Code Heap → Code Heap
  spawn_session conn_fd rest = reads_heap (λ h. writes_heap (s.make conn_fd) (
      new_fun s.fun (s.conn conn_fd h) (λ session.
        schedules session 0 (λ thrown. elim thrown [ true ↦ server_ends | false ↦ rest ]))))

  -- The loop, by the answers of ::accept until the thread waits or ends; behind the last one, nobody is
  -- there.
  unfoldable pub serve : List AcceptAnswer → Code Heap
  unfolding no_client spawn_session
  serve [] = no_client ewouldblock
  serve (gives zero errno w ∷ ans) = no_client errno
  serve (gives (suc n) errno w ∷ ans) = spawn_session (suc n) (serve ans)
  serve (fails errno w ∷ ans) = no_client errno
