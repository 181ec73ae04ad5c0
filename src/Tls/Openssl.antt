-- ===== src/Tls/Openssl.antt =====
-- coro_openssl.h: the list of protocols of `coro_ssl_ctx`, and the loops of `coro_ssl`.
-- The library is the list of what its calls on the connection answer. A number of bytes that is not
-- negative comes with what SSL_get_error would say of it.
pub mod Connection
pub mod Protocols
pub mod Loops
pub mod Retry
use coroplusplus.Common.{
  ℕ, zero, suc, ◌+◌, ◌-◌, ◌%◌, ◌^◌, Bool, true, false, Option, none, some, List, [], ◌∷◌, ◌++◌, ltb,
  ◌==◌, if◌then◌else◌, length,
}
use coroplusplus.File.{Bytes, Call, wait_for_read, wait_for_write}

-- `set_next_protos`: the text so far and the protocols; a `char` has 8 bits.
unfoldable pub set_next_protos : Bytes → List Bytes → Bytes
set_next_protos text [] = text
set_next_protos text (p ∷ ps) = set_next_protos ((text ++ (length p % 2 ^ 8) ∷ []) ++ p) ps

-- What SSL_get_error says: a wait, with the error that ends it if one does; a failed system call, with
-- its errno; or another error, with what ERR_get_error says and the errno.
pub data SslError : Type 0 where
  want_read want_write : Option ℕ → SslError
  syscall : ℕ → SslError
  other : ℕ → ℕ → SslError

pub data SslAnswer : Type 0 where
  gives : ℕ → SslError → SslAnswer
  fails : SslError → SslAnswer

-- The function that an `OS_Error` names.
pub data SslCall : Type 0 where
  in_wait : Call → SslCall
  in_wait_or_error in_ssl : SslCall

-- `stuck` is a wait without an end.
pub data SslResult : Type 0 where
  returns : ℕ → SslResult
  os_error : SslCall → ℕ → SslResult
  ssl_error : ℕ → SslResult
  yield_from_main : SslResult
  stuck : SslResult

-- SSL_ERROR_SYSCALL
abbrev pub ssl_error_syscall : ℕ
ssl_error_syscall = 5

-- What an `unsigned long` gets from an `int` with these 32 bits, which keeps its sign.
abbrev pub long_of_int : ℕ → ℕ
long_of_int n = if ltb n (2 ^ 31) then n else n + (2 ^ 64 - 2 ^ 32)

-- `throw_ssl_error`, by what ERR_get_error returns, of which `error` keeps 32 bits. The `SSL_Error` is that
-- of the number that ERR_error_string is given.
unfoldable pub throw_ssl_error : ℕ → ℕ → SslResult
throw_ssl_error code errno =
    let error = code % 2 ^ 32 in
    if error == ssl_error_syscall then os_error in_ssl errno else ssl_error (long_of_int error)

-- `wait_for_read` or `wait_for_write`, and then the rest of the caller's loop.
abbrev pub ssl_wait :
    Bool
    → Call
    → Option ℕ
    → SslResult × List SslAnswer
    → List SslAnswer
    → SslResult × List SslAnswer
ssl_wait true call w rest ans = (yield_from_main, ans)
ssl_wait false call none rest ans = rest
ssl_wait false call (some e) rest ans = (os_error (in_wait call) e, ans)

-- `wait_or_error`, and then the rest of the caller's loop.
unfoldable pub wait_or_error :
    Bool → SslError → SslResult × List SslAnswer → List SslAnswer → SslResult × List SslAnswer
unfolding throw_ssl_error
wait_or_error main (want_read w) rest ans = ssl_wait main wait_for_read w rest ans
wait_or_error main (want_write w) rest ans = ssl_wait main wait_for_write w rest ans
wait_or_error main (syscall errno) rest ans = (os_error in_wait_or_error errno, ans)
wait_or_error main (other error errno) rest ans = (throw_ssl_error error errno, ans)

-- The `while` loops. `done` tells which results end them.
unfoldable pub ssl_loop : (ℕ → Bool) → Bool → List SslAnswer → SslResult × List SslAnswer
unfolding wait_or_error
ssl_loop done main [] = (stuck, [])
ssl_loop done main (gives r e ∷ ans) =
    let rest = wait_or_error main e (ssl_loop done main ans) ans in
    if done r then (returns r, ans) else rest
ssl_loop done main (fails e ∷ ans) = wait_or_error main e (ssl_loop done main ans) ans

-- `coro_ssl::read` and `shutdown` go on for a negative result, `write` and `ssl_accept` also for 0.
abbrev pub any_result : ℕ → Bool
any_result r = true

abbrev pub positive : ℕ → Bool
positive r = ltb 0 r

unfoldable pub ssl_read : Bool → List SslAnswer → SslResult × List SslAnswer
unfolding ssl_loop
ssl_read = ssl_loop any_result

unfoldable pub ssl_write : Bool → List SslAnswer → SslResult × List SslAnswer
unfolding ssl_loop
ssl_write = ssl_loop positive

unfoldable pub ssl_accept : Bool → List SslAnswer → SslResult × List SslAnswer
unfolding ssl_loop
ssl_accept = ssl_loop positive

unfoldable pub ssl_shutdown : Bool → List SslAnswer → SslResult × List SslAnswer
unfolding ssl_loop
ssl_shutdown = ssl_loop any_result
