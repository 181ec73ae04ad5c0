-- ===== src/Tls/Openssl/Loops.antt =====
-- How `read`, `write`, `ssl_accept` and `shutdown` of an OpenSSL connection end.
use coroplusplus.Common.{
  ℕ, zero, suc, ◌+◌, ◌*◌, ◌%◌, ◌^◌, ◌≡◌, ◌≢◌, refl, Bool, true, false, some, List, [], ◌∷◌, ◌++◌,
  All, arith, inl, inr, ltb, ◌==◌,
}
use coroplusplus.File.{wait_for_read, wait_for_write}
use coroplusplus.Tls.Openssl.{
  SslError, want_read, want_write, syscall, other, SslAnswer, gives, fails, SslResult, returns,
  os_error, ssl_error, in_wait, in_wait_or_error, in_ssl, long_of_int, throw_ssl_error, ssl_loop,
  any_result, positive, ssl_read, ssl_write, ssl_accept, ssl_shutdown,
}
use coroplusplus.Tls.Openssl.Retry.{IsWait, GoesOn, ssl_loop-EndsWith}

-- A negative result after which a wait ends without an error; and one that is negative or 0.
abbrev pub IsNegative : SslAnswer → Type 0
IsNegative (fails e) = IsWait e
IsNegative (gives n e) = ⊥

abbrev pub IsNotPositive : SslAnswer → Type 0
IsNotPositive (fails e) = IsWait e
IsNotPositive (gives zero e) = IsWait e
IsNotPositive (gives (suc n) e) = ⊥

-- The exceptions of a call, behind some answers, at an answer that comes with an error: those of a wait
-- that fails; that of a failed system call; and those of the library, whose number has 5 in its lower 32
-- bits, which is taken for a system call, or is `code`.
abbrev pub Throws :
    (Bool → List SslAnswer → SslResult × List SslAnswer)
    → List SslAnswer
    → (SslError → SslAnswer)
    → List SslAnswer
    → ℕ
    → ℕ
    → ℕ
    → Type 0
Throws call waits answer rest errno high code =
    (call false (waits ++ answer (want_read (some errno)) ∷ rest)
      ≡ (os_error (in_wait wait_for_read) errno, rest))
    × (call false (waits ++ answer (want_write (some errno)) ∷ rest)
        ≡ (os_error (in_wait wait_for_write) errno, rest))
    × (call false (waits ++ answer (syscall errno) ∷ rest)
        ≡ (os_error in_wait_or_error errno, rest))
    × (call false (waits ++ answer (other (high * 2 ^ 32 + 5) errno) ∷ rest)
        ≡ (os_error in_ssl errno, rest))
    × (call false (waits ++ answer (other code errno) ∷ rest)
        ≡ (ssl_error (long_of_int (code % 2 ^ 32)), rest))

throw_ssl_error-syscall :
    (high errno : ℕ) → os_error in_ssl errno ≡ throw_ssl_error (high * 2 ^ 32 + 5) errno
unfolding throw_ssl_error
throw_ssl_error-syscall high errno =
    let low : ((high * 2 ^ 32 + 5) % 2 ^ 32 == 5) ≡ true = ground arith in rw low refl

throw_ssl_error-library :
    (code errno : ℕ)
    → code % 2 ^ 32 ≢ 5
    → ssl_error (long_of_int (code % 2 ^ 32)) ≡ throw_ssl_error code errno
unfolding throw_ssl_error
throw_ssl_error-library code errno h =
    let low : (code % 2 ^ 32 == 5) ≡ false = ground arith in rw low refl

GoesOn-negative : (waits : List SslAnswer) → All IsNegative waits → All (GoesOn any_result) waits
GoesOn-negative [] h = tt
GoesOn-negative (fails e ∷ waits) h = (h.0, GoesOn-negative waits h.1)
GoesOn-negative (gives n e ∷ waits) h = absurd h.0

GoesOn-positive : (waits : List SslAnswer) → All IsNotPositive waits → All (GoesOn positive) waits
GoesOn-positive [] h = tt
GoesOn-positive (fails e ∷ waits) h = (h.0, GoesOn-positive waits h.1)
GoesOn-positive (gives zero e ∷ waits) h = ((refl, h.0), GoesOn-positive waits h.1)
GoesOn-positive (gives (suc n) e ∷ waits) h = absurd h.0

module _ (done : ℕ → Bool) (waits rest : List SslAnswer) (errno high code : ℕ)
    (goes : All (GoesOn done) waits) (library : code % 2 ^ 32 ≢ 5) where
  Throws-fails : Throws (ssl_loop done) waits fails rest errno high code
  Throws-fails = (
    ssl_loop-EndsWith done waits (fails (want_read (some errno))) _ rest goes refl,
    ssl_loop-EndsWith done waits (fails (want_write (some errno))) _ rest goes refl,
    ssl_loop-EndsWith done waits (fails (syscall errno)) _ rest goes refl,
    ssl_loop-EndsWith done waits (fails (other (high * 2 ^ 32 + 5) errno)) _ rest goes
        (throw_ssl_error-syscall high errno),
    ssl_loop-EndsWith done waits (fails (other code errno)) _ rest goes
        (throw_ssl_error-library code errno library),
  )

  Throws-zero : done 0 ≡ false → Throws (ssl_loop done) waits (gives 0) rest errno high code
  Throws-zero more = (
    ssl_loop-EndsWith done waits (gives 0 (want_read (some errno))) _ rest goes (inr (more, refl)),
    ssl_loop-EndsWith done waits (gives 0 (want_write (some errno))) _ rest goes (inr (more, refl)),
    ssl_loop-EndsWith done waits (gives 0 (syscall errno)) _ rest goes (inr (more, refl)),
    ssl_loop-EndsWith done waits (gives 0 (other (high * 2 ^ 32 + 5) errno)) _ rest goes
        (inr (more, throw_ssl_error-syscall high errno)),
    ssl_loop-EndsWith done waits (gives 0 (other code errno)) _ rest goes
        (inr (more, throw_ssl_error-library code errno library)),
  )

-- Outside the main coroutine, `read` and `shutdown` repeat their call for each negative result behind
-- which a wait ends without an error, and return the first result that is not negative, 0 included;
-- `write` and `ssl_accept` repeat it for 0 too, and end with the first positive result. At any other
-- negative result, and for `write` and `ssl_accept` at any other 0, they throw: the error of the wait, that
-- of the system call, or that of the library, of which the lower 32 bits count; the number 5 there is taken
-- for a failed system call. The answers behind are not asked for.
pub ssl_calls_lem :
    (negative zeros rest : List SslAnswer) (n errno high code : ℕ) (e : SslError)
    → All IsNegative negative
    → All IsNotPositive zeros
    → code % 2 ^ 32 ≢ 5
    → (ssl_read false (negative ++ gives n e ∷ rest) ≡ (returns n, rest))
      × (ssl_shutdown false (negative ++ gives n e ∷ rest) ≡ (returns n, rest))
      × (ssl_write false (zeros ++ gives (suc n) e ∷ rest) ≡ (returns (suc n), rest))
      × (ssl_accept false (zeros ++ gives (suc n) e ∷ rest) ≡ (returns (suc n), rest))
      × Throws ssl_read negative fails rest errno high code
      × Throws ssl_shutdown negative fails rest errno high code
      × Throws ssl_write zeros fails rest errno high code
      × Throws ssl_write zeros (gives 0) rest errno high code
      × Throws ssl_accept zeros fails rest errno high code
      × Throws ssl_accept zeros (gives 0) rest errno high code
unfolding ssl_read ssl_write ssl_accept ssl_shutdown
ssl_calls_lem negative zeros rest n errno high code e neg zero_or library =
    let less = GoesOn-negative negative neg in
    let not_more = GoesOn-positive zeros zero_or in
    let some_result : ltb 0 (suc n) ≡ true = ground arith in
    let read =
      ssl_loop-EndsWith any_result negative (gives n e) (returns n) rest less (inl (refl, refl)) in
    let write =
      ssl_loop-EndsWith positive zeros (gives (suc n) e) (returns (suc n)) rest not_more
        (inl (some_result, refl)) in
    let thrown = Throws-fails any_result negative rest errno high code less library in
    let thrown' = Throws-fails positive zeros rest errno high code not_more library in
    let at_zero = Throws-zero positive zeros rest errno high code not_more library refl in
    (read, read, write, write, thrown, thrown, thrown', at_zero, thrown', at_zero)
