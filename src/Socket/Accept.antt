-- ===== src/Socket/Accept.antt =====
-- How `_accept` ends.
use coroplusplus.Common.{
  ℕ, zero, suc, ◌≡◌, ◌≢◌, refl, ap, sym, ◌∙◌, true, false, Option, none, some, List, [], ◌∷◌, ◌++◌,
  arith, ltb, ◌==◌, All, ◌⊎◌, inl, inr,
}
use coroplusplus.File.{wait_for_read, ewouldblock}
use coroplusplus.Socket.{
  AcceptAnswer, gives, fails, SocketEnd, returns, os_error, in_accept, in_wait, accept_again,
  accept,
}

-- An answer with no descriptor that counts, and EWOULDBLOCK in errno, behind which a wait ends without
-- an error.
abbrev pub IsNobody : AcceptAnswer → Type 0
IsNobody (gives zero errno w) = (errno ≡ ewouldblock) × (w ≡ none)
IsNobody (gives (suc fd) errno w) = ⊥
IsNobody (fails errno w) = (errno ≡ ewouldblock) × (w ≡ none)

-- How an answer without a descriptor that counts ends the loop.
abbrev pub Refuses : ℕ → Option ℕ → SocketEnd → Type 0
Refuses errno none o = (errno ≢ ewouldblock) × (o ≡ os_error in_accept errno)
Refuses errno (some e) o =
    ((errno ≢ ewouldblock) × (o ≡ os_error in_accept errno))
    ⊎ ((errno ≡ ewouldblock) × (o ≡ os_error (in_wait wait_for_read) e))

abbrev pub EndsAccept : AcceptAnswer → SocketEnd → Type 0
EndsAccept (gives zero errno w) o = Refuses errno w o
EndsAccept (gives (suc fd) errno w) o = o ≡ returns (suc fd)
EndsAccept (fails errno w) o = Refuses errno w o

refused :
    (errno : ℕ) (w : Option ℕ) (next : SocketEnd × List AcceptAnswer) (rest : List AcceptAnswer)
    → errno ≢ ewouldblock
    → accept_again false errno w next rest ≡ (os_error in_accept errno, rest)
unfolding accept_again
refused errno w next rest h = let q : (errno == ewouldblock) ≡ false = ground arith in rw q refl

accept_again-Refuses :
    (errno : ℕ) (w : Option ℕ) (o : SocketEnd) (next : SocketEnd × List AcceptAnswer)
    (rest : List AcceptAnswer)
    → Refuses errno w o
    → accept_again false errno w next rest ≡ (o, rest)
unfolding accept_again
accept_again-Refuses errno none o next rest h =
    refused errno none next rest h.0 ∙ ap (λ x. (x, rest)) (sym h.1)
accept_again-Refuses errno (some e) o next rest (inl h) =
    refused errno (some e) next rest h.0 ∙ ap (λ x. (x, rest)) (sym h.1)
accept_again-Refuses errno (some e) o next rest (inr h) = rw (h.0) (ap (λ x. (x, rest)) (sym h.1))

-- Outside the main coroutine, `_accept` goes on after each answer that nobody is there, if the wait
-- ends without an error, and ends with the first other answer: it returns a positive descriptor, and
-- throws the error of the call or of the wait. A descriptor 0 counts as a failure, with the errno that an
-- earlier call left behind. The answers behind the last one are not asked for.
pub accept-EndsAccept :
    (waits : List AcceptAnswer) (a : AcceptAnswer) (o : SocketEnd) (rest : List AcceptAnswer)
    → All IsNobody waits
    → EndsAccept a o
    → accept false (waits ++ a ∷ rest) ≡ (o, rest)
unfolding accept
accept-EndsAccept [] (gives zero errno w) o rest all h =
    accept_again-Refuses errno w o (accept false rest) rest h
accept-EndsAccept [] (gives (suc fd) errno w) o rest all h =
    let p : ltb 0 (suc fd) ≡ true = ground arith in rw p (ap (λ x. (x, rest)) (sym h))
accept-EndsAccept [] (fails errno w) o rest all h =
    accept_again-Refuses errno w o (accept false rest) rest h
accept-EndsAccept (gives zero errno w ∷ waits) a o rest all h =
    rw (all.0.0, all.0.1) (accept-EndsAccept waits a o rest all.1 h)
accept-EndsAccept (gives (suc fd) errno w ∷ waits) a o rest all h = absurd all.0
accept-EndsAccept (fails errno w ∷ waits) a o rest all h =
    rw (all.0.0, all.0.1) (accept-EndsAccept waits a o rest all.1 h)
