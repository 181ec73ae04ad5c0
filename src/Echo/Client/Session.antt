-- ===== src/Echo/Client/Session.antt =====
-- A client of the echo server against its session, from the first message to the last command.
use coroplusplus.Common.{
  zero, ◌==◌, Bool-cases, inl, inr, copies, ℕ, suc, ◌+◌, ◌-◌, ◌^◌, ◌≤◌, ◌<◌, ◌≡◌, refl, ap, sym,
  ◌∙◌, Bool, true, false, none, [], ◌∷◌, ◌++◌, if◌then◌else◌, arith, length, length-append,
  append_assoc, append-nil, subst,
}
use coroplusplus.File.{Bytes}
use coroplusplus.File.Stream.{content, IsSteady}
use coroplusplus.File.Write.{IsWritable, takings}
use coroplusplus.Buffer.Get.{coming}
use coroplusplus.Demo.{crlf}
use coroplusplus.Timeval.{ℤ, pos, negsuc}
use coroplusplus.Socket.{SocketEnd}
use coroplusplus.Socket
use coroplusplus.Echo.{EchoSession, echo_session, fills, junkify_buffer}
use coroplusplus.Echo.Session.{IsPlain}
use coroplusplus.Echo.Commands.{
  echo_session-Advances, Ends, quit-Ends, shutdown-Ends, bench-Benches,
}
use coroplusplus.Echo.Client.{EchoClient}
use coroplusplus.Echo.Client.Roundtrip.{
  same_lines, text_of-same_lines, same_lines-ArePlain, length-same_lines, length-copies,
}
use coroplusplus.Echo.Message.{junkify_buffer-fills}
use coroplusplus.Echo.Client.Farewell.{shutdown_line, Shared, decrement, is_zero, client}
use coroplusplus.Echo.Client.Farewell.Finishes.{commands, replies, Finishes, client-Finishes}

-- The side of the server, once it has come to the commands.
commands-Ends :
    (last : Bool) (fuel rounds : ℕ) (s : EchoSession)
    → coming s.stream ≡ commands last
    → length (coming s.stream) < fuel
    → IsSteady s.stream.answers
    → IsWritable s.write_answers
    → length (replies last (s.benches s.calls)) ≤ takings s.write_answers
    → ((i : ℕ) → s.shutdowns i ≡ none)
    → Ends
        (replies last (s.benches s.calls))
        (if last then true else s.exits)
        s
        (echo_session fuel (suc (suc rounds)) s)
commands-Ends false fuel rounds s e h steady writable enough down =
    quit-Ends fuel (suc rounds) (117 ∷ 105 ∷ 116 ∷ []) [] s e
      (λ e. omega arith, (λ e. omega arith, (λ e. omega arith, tt))) h steady (down s.calls)
commands-Ends true fuel rounds s e h steady writable enough down =
    let (next, b, round) =
      bench-Benches fuel (suc rounds) (101 ∷ 110 ∷ 99 ∷ 104 ∷ []) (shutdown_line ++ crlf) s e
        (λ e. omega arith, (λ e. omega arith, (λ e. omega arith, (λ e. omega arith, tt)))) h steady
        writable enough in
    let i =
      shutdown-Ends fuel rounds (104 ∷ 117 ∷ 116 ∷ 100 ∷ 111 ∷ 119 ∷ 110 ∷ []) [] next b.stays
        (
          λ e. omega arith,
          (
            λ e. omega arith,
            (
              λ e. omega arith,
              (λ e. omega arith, (λ e. omega arith, (λ e. omega arith, (λ e. omega arith, tt)))),
            ),
          ),
        )
        (omega (arith, h, ap length e, ap length b.stays)) b.steady
        (ap (λ d. d next.calls) b.counts.0 ∙ down next.calls) in
    subst (Ends (s.benches s.calls) true s) (sym round)
      (i.0, i.1 ∙ append-nil next.sent ∙ b.sends, i.2, i.3)

-- The side of the server, from the first message on.
session-Ends :
    (last : Bool) (fuel rounds n : ℕ) (line : Bytes) (s : EchoSession)
    → IsPlain line
    → coming s.stream ≡ copies n (line ++ crlf) ++ commands last
    → length (coming s.stream) < fuel
    → n + 2 ≤ rounds
    → IsSteady s.stream.answers
    → IsWritable s.write_answers
    → length (copies n (line ++ crlf)) + length (replies last (s.benches s.calls))
      ≤ takings s.write_answers
    → ((i : ℕ) → s.shutdowns i ≡ none)
    → Ends
        (copies n (line ++ crlf) ++ replies last (s.benches s.calls))
        (if last then true else s.exits)
        s
        (echo_session fuel rounds s)
session-Ends last fuel rounds n line s plain e h k steady writable enough down =
    let text = copies n (line ++ crlf) in
    let lines = same_lines n line in
    let same = text_of-same_lines n line in
    let count = length-same_lines n line in
    let parts : rounds ≡ length lines + suc (suc (rounds - n - 2)) = omega (arith, count) in
    let (next, a, run) =
      echo_session-Advances fuel (suc (suc (rounds - n - 2))) lines (commands last) s
        (e ∙ ap (λ t. t ++ commands last) (sym same)) (same_lines-ArePlain n line plain) h steady
        writable (omega (arith, ap length same, enough)) in
    let bench : next.benches next.calls ≡ s.benches s.calls =
      ap (λ f. f next.calls) a.others.1 ∙ ap s.benches a.others.2 in
    let answer = ap (replies last) bench in
    let fewer = length-append text (commands last) in
    let i =
      commands-Ends last fuel (rounds - n - 2) next a.stays
        (omega (arith, h, fewer, ap length e, ap length a.stays)) a.steady a.writable
        (omega (arith, enough, ap length answer, ap length same, a.takings_left))
        (λ i. ap (λ f. f i) a.others.0 ∙ down i) in
    subst
      (λ m.
        Ends (text ++ replies last (s.benches s.calls)) (if last then true else s.exits) s
          (echo_session fuel m s))
      (sym parts)
      (subst (Ends (text ++ replies last (s.benches s.calls)) (if last then true else s.exits) s)
        (sym run)
        (
          i.0,
          i.1
              ∙ ap (λ t. next.sent ++ t) answer
              ∙ ap (λ t. t ++ replies last (s.benches s.calls))
                  (a.sends ∙ ap (λ t. s.sent ++ t) same)
              ∙ append_assoc s.sent text (replies last (s.benches s.calls)),
          i.2,
          i.3 ∙ ap (λ x. if last then true else x) a.others.3,
        ))

-- The number behind another, and the test for 1.
abbrev successor : ℤ → ℤ
successor (pos n) = pos (suc n)
successor (negsuc zero) = pos 0
successor (negsuc (suc n)) = negsuc n

abbrev is_one : ℤ → Bool
is_one (pos n) = n == 1
is_one (negsuc n) = false

decrement-successor : (z : ℤ) → decrement (successor z) ≡ z
decrement-successor (pos n) = refl
decrement-successor (negsuc zero) = refl
decrement-successor (negsuc (suc n)) = refl

is_zero-decrement : (z : ℤ) → is_zero (decrement z) ≡ is_one z
is_zero-decrement (pos zero) = refl
is_zero-decrement (pos (suc n)) = elim (Bool-cases (n == 0)) [
  | inl e ↦ let e' : (suc n == 1) ≡ true = ground arith in rw (e, e') refl
  | inr e ↦ let e' : (suc n == 1) ≡ false = ground arith in rw (e, e') refl
]
is_zero-decrement (negsuc n) = refl

-- Let `size` be at least 2 and less than 2 GB, and `left` one less than `counter`. If the session of the
-- server gets what a client sends, the message of `junkify_buffer` for each transaction and its commands,
-- and the client gets what the session sends, on streams that end only at their end, with kernels that
-- take bytes often enough without a refusal but to wait, and if ::shutdown does not fail, then both come to
-- their ends: the server has sent back each message, and the text of the benchmark to the last client, and
-- has closed the socket; the client has gone through its transactions and leaves `left` in `counter`; and
-- both loops are told to exit exactly by the last client, which finds 1 in `counter`.
pub client_session :
    (fuel rounds ntrans size d : ℕ) (message : Bytes) (s : EchoSession) (c : EchoClient)
    (g : Shared) (left : ℤ)
    → let last = is_one g.counter in
      let text = copies ntrans message in
      let bench = s.benches s.calls in
      2 ≤ size
      → size < 2 ^ 31
      → successor left ≡ g.counter
      → junkify_buffer size ≡ fills message
      → coming s.stream ≡ text ++ commands last
      → s.sent ≡ []
      → content c.answers ≡ (echo_session fuel rounds s).1.sent
      → length (coming s.stream) < fuel
      → ntrans + 2 ≤ rounds
      → IsSteady s.stream.answers
      → IsSteady c.answers
      → IsWritable s.write_answers
      → IsWritable c.write_answers
      → length text + length (replies last bench) ≤ takings s.write_answers
      → length text + length (commands last) ≤ takings c.write_answers
      → ((i : ℕ) → s.shutdowns i ≡ none)
      → Ends
          (text ++ replies last bench)
          (if last then true else s.exits)
          s
          (echo_session fuel rounds s)
        × Finishes
            (text ++ commands last)
            left
            (if last then true else g.exits)
            c
            (client ntrans message (Socket.returns d) c g)
client_session fuel rounds n size d message s c g left low high one_less fill e empty back h k
      steady steady' writable writable' enough enough' down =
    let last = is_one g.counter in
    let (line, filled, plain, long) = junkify_buffer-fills size low (omega arith) in
    let is_message : line ++ crlf ≡ message =
      fills_inj (line ++ crlf) message (sym filled ∙ fill) in
    let text : copies n (line ++ crlf) ≡ copies n message = ap (copies n) is_message in
    let bench = s.benches s.calls in
    let served : Ends (copies n message ++ replies last bench) (if last then true else s.exits) s
        (echo_session fuel rounds s) =
      subst
        (λ t.
          Ends (t ++ replies last bench) (if last then true else s.exits) s
            (echo_session fuel rounds s))
        text
        (session-Ends last fuel rounds n line s plain (e ∙ ap (λ t. t ++ commands last) (sym text))
          h k steady writable (omega (arith, ap length text, enough)) down) in
    let total = length-copies n message in
    let came =
      ap length (back ∙ served.1 ∙ ap (λ t. t ++ (copies n message ++ replies last bench)) empty) in
    let parts = length-append (copies n message) (replies last bench) in
    (
      served,
      subst
          (λ k.
            Finishes (copies n message ++ commands last) k (if last then true else g.exits) c
              (client n message (Socket.returns d) c g))
          (ap decrement (sym one_less) ∙ decrement-successor left)
          (client-Finishes last n d message c g (is_zero-decrement g.counter)
            (omega (arith, high, ap length is_message, long)) (omega (arith, total, came, parts))
            steady' writable' (omega (arith, total, enough'))),
    )
  where
    fills_inj : (a b : Bytes) → fills a ≡ fills b → a ≡ b
    fills_inj a b e = cc
