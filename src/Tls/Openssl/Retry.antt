-- ===== src/Tls/Openssl/Retry.antt =====
-- How the loops on an OpenSSL connection end.
use coroplusplus.Common.{
  ℕ, ◌≡◌, refl, ap, sym, ◌∙◌, Bool, true, false, none, some, List, [], ◌∷◌, ◌++◌, All, ◌⊎◌, inl,
  inr,
}
use coroplusplus.File.{wait_for_read, wait_for_write}
use coroplusplus.Tls.Openssl.{
  SslError, want_read, want_write, syscall, other, SslAnswer, gives, fails, SslResult, returns,
  os_error, in_wait, in_wait_or_error, throw_ssl_error, wait_or_error, ssl_loop,
}

-- A wait that ends without an error.
abbrev pub IsWait : SslError → Type 0
IsWait (want_read none) = Unit
IsWait (want_read (some e)) = ⊥
IsWait (want_write none) = Unit
IsWait (want_write (some e)) = ⊥
IsWait (syscall e) = ⊥
IsWait (other n e) = ⊥

-- An answer after which the loop goes on, and one after which it ends so.
abbrev pub GoesOn : (ℕ → Bool) → SslAnswer → Type 0
GoesOn done (gives r e) = (done r ≡ false) × IsWait e
GoesOn done (fails e) = IsWait e

abbrev pub FailsWith : SslError → SslResult → Type 0
FailsWith (want_read none) r = ⊥
FailsWith (want_read (some e)) r = r ≡ os_error (in_wait wait_for_read) e
FailsWith (want_write none) r = ⊥
FailsWith (want_write (some e)) r = r ≡ os_error (in_wait wait_for_write) e
FailsWith (syscall e) r = r ≡ os_error in_wait_or_error e
FailsWith (other n e) r = r ≡ throw_ssl_error n e

abbrev pub EndsWith : (ℕ → Bool) → SslAnswer → SslResult → Type 0
EndsWith done (gives n e) r =
    ((done n ≡ true) × (r ≡ returns n)) ⊎ ((done n ≡ false) × FailsWith e r)
EndsWith done (fails e) r = FailsWith e r

wait_or_error-IsWait :
    (e : SslError) (rest : SslResult × List SslAnswer) (ans : List SslAnswer)
    → IsWait e
    → wait_or_error false e rest ans ≡ rest
unfolding wait_or_error
wait_or_error-IsWait (want_read none) rest ans h = refl
wait_or_error-IsWait (want_read (some e)) rest ans h = absurd h
wait_or_error-IsWait (want_write none) rest ans h = refl
wait_or_error-IsWait (want_write (some e)) rest ans h = absurd h
wait_or_error-IsWait (syscall e) rest ans h = absurd h
wait_or_error-IsWait (other n e) rest ans h = absurd h

wait_or_error-FailsWith :
    (e : SslError) (r : SslResult) (rest : SslResult × List SslAnswer) (ans : List SslAnswer)
    → FailsWith e r
    → wait_or_error false e rest ans ≡ (r, ans)
unfolding wait_or_error
wait_or_error-FailsWith (want_read none) r rest ans h = absurd h
wait_or_error-FailsWith (want_read (some e)) r rest ans h = cc
wait_or_error-FailsWith (want_write none) r rest ans h = absurd h
wait_or_error-FailsWith (want_write (some e)) r rest ans h = cc
wait_or_error-FailsWith (syscall e) r rest ans h = cc
wait_or_error-FailsWith (other n e) r rest ans h = cc

-- Outside the main coroutine, the loops of `read`, `write`, `ssl_accept` and `shutdown` repeat their
-- call for each answer that asks for a wait, if the wait ends without an error, and end with the first
-- other answer: they return a result that is final, or throw the error of the wait, of the system call
-- or of the library; the answers behind it are not asked for.
pub ssl_loop-EndsWith :
    (done : ℕ → Bool) (waits : List SslAnswer) (a : SslAnswer) (r : SslResult)
    (rest : List SslAnswer)
    → All (GoesOn done) waits
    → EndsWith done a r
    → ssl_loop done false (waits ++ a ∷ rest) ≡ (r, rest)
unfolding ssl_loop
ssl_loop-EndsWith done [] (gives n e) r rest all (inl (final, q)) =
    rw final (ap (λ x. (x, rest)) (sym q))
ssl_loop-EndsWith done [] (gives n e) r rest all (inr (more, h)) =
    rw more (wait_or_error-FailsWith e r (ssl_loop done false rest) rest h)
ssl_loop-EndsWith done [] (fails e) r rest all h =
    wait_or_error-FailsWith e r (ssl_loop done false rest) rest h
ssl_loop-EndsWith done (gives n e ∷ waits) a r rest all h = rw (all.0.0) (
    wait_or_error-IsWait e (ssl_loop done false (waits ++ a ∷ rest)) (waits ++ a ∷ rest) all.0.1
    ∙ ssl_loop-EndsWith done waits a r rest all.1 h)
ssl_loop-EndsWith done (fails e ∷ waits) a r rest all h =
    wait_or_error-IsWait e (ssl_loop done false (waits ++ a ∷ rest)) (waits ++ a ∷ rest) all.0
    ∙ ssl_loop-EndsWith done waits a r rest all.1 h
