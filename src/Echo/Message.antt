-- ===== src/Echo/Message.antt =====
-- The message of the echo client is a line that the echo server sends back.
use coroplusplus.Common.{
  ℕ, zero, suc, ◌+◌, ◌-◌, ◌%◌, ◌^◌, ◌≤◌, ◌<◌, ◌≡◌, ◌≢◌, refl, ap, true, false, Bool-cases, ◌⊎◌, inl,
  inr, ◌++◌, arith, ltb, length, length-append, get_or,
}
use coroplusplus.File.{Bytes}
use coroplusplus.Buffer.Lines.{IsFreeOf}
use coroplusplus.Demo.{crlf}
use coroplusplus.Echo.{fills, outside, spins, junk, junkify_buffer}
use coroplusplus.Echo.Session.{IsPlain}

length-junk : (i n : ℕ) → length (junk i n) ≡ n
unfolding junk
length-junk i zero = omega arith
length-junk i (suc n) = omega (arith, length-junk (suc i) n)

junk-IsFreeOf : (i n : ℕ) → IsFreeOf 13 (junk i n)
unfolding junk
junk-IsFreeOf i zero = tt
junk-IsFreeOf i (suc n) = (λ e. absurd (ground arith), junk-IsFreeOf (suc i) n)

no_mark : (i n : ℕ) → get_or (junk i n ++ crlf) 0 0 ≢ 33
unfolding junk
no_mark i zero e = absurd (omega arith)
no_mark i (suc n) e = absurd (ground arith)

-- A buffer of two bytes or more, and of 4 GB or less, is filled with one line.
pub junkify_buffer-fills :
    (n : ℕ)
    → 2 ≤ n
    → n < 2 ^ 32 + 2
    → (line : Bytes) × (junkify_buffer n ≡ fills (line ++ crlf))
      × IsPlain line
      × (length (line ++ crlf) ≡ n)
unfolding junkify_buffer
junkify_buffer-fills n low high =
    let filled : (n + 2 ^ 64 - 2) % 2 ^ 64 ≡ n - 2 = omega arith in
    let inside : ltb n ((n + 2 ^ 64 - 2) % 2 ^ 64) ≡ false = ground arith in
    let ends : ltb ((n + 2 ^ 64 - 2) % 2 ^ 64) (2 ^ 32) ≡ true = ground arith in
    (
      junk 0 (n - 2),
      rw (inside, ends) (ap (λ k. fills (junk 0 k ++ crlf)) filled),
      (junk-IsFreeOf 0 (n - 2), no_mark 0 (n - 2)),
      omega (arith, length-append (junk 0 (n - 2)) crlf, length-junk 0 (n - 2)),
    )

-- The buffers that `junkify_buffer` writes outside, fills with one line, and never ends with.
abbrev pub IsJunkified : ℕ → Type 0
IsJunkified n =
    ((n < 2) × (junkify_buffer n ≡ outside))
    ⊎ ((2 ^ 32 + 2 ≤ n) × (junkify_buffer n ≡ spins))
    ⊎ ((2 ≤ n)
        × (n < 2 ^ 32 + 2)
        × ((line : Bytes) × (junkify_buffer n ≡ fills (line ++ crlf))
            × IsPlain line
            × (length (line ++ crlf) ≡ n)))

-- A buffer of two bytes or more, and of 4 GB or less, `junkify_buffer` fills without a write outside it
-- with one line that the echo server takes as such: of the buffer's length with the CR LF at its end,
-- without a CR before that, and without a `!` at its front. For a shorter buffer it writes outside the
-- buffer, and for a much longer one it never ends.
pub junkify_buffer-IsPlain : (n : ℕ) → n < 2 ^ 64 → IsJunkified n
unfolding junkify_buffer
junkify_buffer-IsPlain n small = elim (Bool-cases (ltb n 2)) [
  | inl short ↦
      let outside_it : ltb n ((n + 2 ^ 64 - 2) % 2 ^ 64) ≡ true = ground arith in
      inl (ground arith, rw outside_it refl)
  | inr long ↦ elim (Bool-cases (ltb n (2 ^ 32 + 2))) [
    | inl fits ↦
        let low : 2 ≤ n = ground arith in
        let high : n < 2 ^ 32 + 2 = ground arith in
        inr (inr (low, high, junkify_buffer-fills n low high))
    | inr huge ↦
        let inside : ltb n ((n + 2 ^ 64 - 2) % 2 ^ 64) ≡ false = ground arith in
        let more : ltb ((n + 2 ^ 64 - 2) % 2 ^ 64) (2 ^ 32) ≡ false = ground arith in
        inr (inl (ground arith, rw (inside, more) refl))
  ]
]
