-- ===== src/Socket.antt =====
-- coro_socket.h: the methods of `coro_socket` that wait.
pub mod Accept
use coroplusplus.Common.{
  ℕ, zero, suc, Bool, true, false, ◌||◌, Option, none, some, List, [], ◌∷◌, ltb, ◌==◌,
  if◌then◌else◌,
}
use coroplusplus.File.{Call, wait_for_read, wait_for_write, ewouldblock}

-- EINPROGRESS, on Linux
abbrev pub einprogress : ℕ
einprogress = 115

-- What ::accept answers: a descriptor, or a failure. Each comes with errno, which a call that does not
-- fail leaves as it was, and with the error that ends a wait behind it, if one does.
pub data AcceptAnswer : Type 0 where
  gives : ℕ → ℕ → Option ℕ → AcceptAnswer
  fails : ℕ → Option ℕ → AcceptAnswer

-- The function that an `OS_Error` names.
pub data SocketCall : Type 0 where
  in_accept in_connect : SocketCall
  in_wait : Call → SocketCall

pub data SocketEnd : Type 0 where
  returns : ℕ → SocketEnd
  os_error : SocketCall → ℕ → SocketEnd
  yield_from_main : SocketEnd
  stuck : SocketEnd

-- `wait_for_read` or `wait_for_write`, and then what follows it.
abbrev pub socket_wait :
    Bool
    → Call
    → Option ℕ
    → SocketEnd × List AcceptAnswer
    → List AcceptAnswer
    → SocketEnd × List AcceptAnswer
socket_wait true call w rest ans = (yield_from_main, ans)
socket_wait false call none rest ans = rest
socket_wait false call (some e) rest ans = (os_error (in_wait call) e, ans)

-- The two branches of `_accept` behind a descriptor that is not positive.
unfoldable pub accept_again :
    Bool
    → ℕ
    → Option ℕ
    → SocketEnd × List AcceptAnswer
    → List AcceptAnswer
    → SocketEnd × List AcceptAnswer
accept_again main errno w rest ans =
    if errno == ewouldblock
    then socket_wait main wait_for_read w rest ans
    else (os_error in_accept errno, ans)

-- `_accept`, by the answers that come; a wait with none behind it does not end.
unfoldable pub accept : Bool → List AcceptAnswer → SocketEnd × List AcceptAnswer
unfolding accept_again
accept main [] = (stuck, [])
accept main (gives fd errno w ∷ ans) =
    let again = accept_again main errno w (accept main ans) ans in
    if ltb 0 fd then (returns fd, ans) else again
accept main (fails errno w ∷ ans) = accept_again main errno w (accept main ans) ans

-- `connect`, by the errno of ::connect, if it fails, and the end of a wait for the descriptor, which is
-- `none` for one without an end.
unfoldable pub connect : Bool → Option ℕ → Option (Option ℕ) → SocketEnd
connect main none w = returns 0
connect main (some errno) w =
    if (errno == ewouldblock) || (errno == einprogress)
    then elim main [
      | true ↦ yield_from_main
      | false ↦ elim w [
        | none ↦ stuck
        | some none ↦ returns 0
        | some (some e) ↦ os_error (in_wait wait_for_write) e
      ]
    ]
    else os_error in_connect errno
