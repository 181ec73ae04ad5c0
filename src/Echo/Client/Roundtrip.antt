-- ===== src/Echo/Client/Roundtrip.antt =====
-- The client of the echo server against its session.
use coroplusplus.Common.{
  copies, ℕ, zero, suc, ◌+◌, ◌*◌, ◌^◌, ◌≤◌, ◌<◌, ◌≡◌, refl, ap, sym, ◌∙◌, List, [], ◌∷◌, ◌++◌,
  arith, length, length-append, append_assoc, subst,
}
use coroplusplus.File.{Bytes}
use coroplusplus.File.Stream.{content, IsSteady}
use coroplusplus.File.Write.{IsWritable, takings}
use coroplusplus.Buffer.Get.{coming}
use coroplusplus.Demo.{crlf}
use coroplusplus.Echo.{EchoSession, echo_session, fills, junkify_buffer}
use coroplusplus.Echo.Session.{text_of, IsPlain, ArePlain, Echoes, echo_session-Echoes}
use coroplusplus.Echo.Message.{junkify_buffer-fills}
use coroplusplus.Echo.Client.{EchoClient, transactions}
use coroplusplus.Echo.Client.Transactions.{Transacts, transactions-Transacts}

abbrev pub same_lines : ℕ → Bytes → List Bytes
same_lines zero line = []
same_lines (suc n) line = line ∷ same_lines n line

pub text_of-same_lines :
    (n : ℕ) (line : Bytes) → text_of (same_lines n line) ≡ copies n (line ++ crlf)
text_of-same_lines zero line = refl
text_of-same_lines (suc n) line =
    ap (λ t. line ++ (crlf ++ t)) (text_of-same_lines n line)
    ∙ sym (append_assoc line crlf (copies n (line ++ crlf)))

pub same_lines-ArePlain : (n : ℕ) (line : Bytes) → IsPlain line → ArePlain (same_lines n line)
same_lines-ArePlain zero line p = tt
same_lines-ArePlain (suc n) line p = (p, same_lines-ArePlain n line p)

pub length-same_lines : (n : ℕ) (line : Bytes) → length (same_lines n line) ≡ n
length-same_lines zero line = omega arith
length-same_lines (suc n) line = omega (arith, length-same_lines n line)

pub length-copies : (n : ℕ) (xs : Bytes) → length (copies n xs) ≡ n * length xs
length-copies zero xs = omega arith
length-copies (suc n) xs =
    let more : suc n * length xs ≡ length xs + n * length xs = omega arith in
    omega (arith, more, length-append xs (copies n xs), length-copies n xs)

-- Let `size` be from 2 to 2 GB. If the server's session gets the message of `junkify_buffer`, `ntrans`
-- times, and nothing behind it, and the client gets what the session sends, on streams that end only at
-- their end, and both kernels take bytes often enough without a refusal but to wait, then the session
-- sends back what it got and comes to its end, and the client goes through its `ntrans` transactions with
-- no byte left.
pub client_roundtrip :
    (fuel rounds ntrans size : ℕ) (message : Bytes) (s : EchoSession) (c : EchoClient)
    → 2 ≤ size
    → size < 2 ^ 31
    → junkify_buffer size ≡ fills message
    → coming s.stream ≡ copies ntrans message
    → s.sent ≡ []
    → content c.answers ≡ (echo_session fuel rounds s).1.sent
    → ntrans * size < fuel
    → ntrans < rounds
    → IsSteady s.stream.answers
    → IsSteady c.answers
    → IsWritable s.write_answers
    → IsWritable c.write_answers
    → ntrans * size ≤ takings s.write_answers
    → ntrans * size ≤ takings c.write_answers
    → Echoes (copies ntrans message) s (echo_session fuel rounds s)
      × Transacts ntrans message c (transactions ntrans message c)
      × (length (content (transactions ntrans message c).1.answers) ≡ 0)
client_roundtrip fuel rounds n size message s c low high fill e empty back h k steady steady'
      writable writable' enough enough' =
    let made = junkify_buffer-fills size low (omega arith) in
    let (line, filled, plain, long) = made in
    let is_message : line ++ crlf ≡ message =
      fills_inj (line ++ crlf) message (sym filled ∙ fill) in
    let long' : length message ≡ size = sym (ap length is_message) ∙ long in
    let text : text_of (same_lines n line) ≡ copies n message =
      text_of-same_lines n line ∙ ap (copies n) is_message in
    let total : length (copies n message) ≡ n * size =
      length-copies n message ∙ ap (λ i. n * i) long' in
    let served : Echoes (copies n message) s (echo_session fuel rounds s) =
      subst (λ t. Echoes t s (echo_session fuel rounds s)) text
        (echo_session-Echoes fuel rounds (same_lines n line) s (e ∙ sym text)
          (same_lines-ArePlain n line plain) (omega (arith, ap length text, total, h))
          (omega (arith, length-same_lines n line)) steady writable
          (omega (arith, ap length text, total, enough))) in
    let came : length (content c.answers) ≡ n * size =
      ap length back
      ∙ ap length served.1
      ∙ ap (λ t. length (t ++ copies n message)) empty
      ∙ total in
    let same : n * length message ≡ n * size = ap (λ i. n * i) long' in
    let t =
      transactions-Transacts n message c (omega (arith, high, long')) (omega (arith, came, same))
        steady' writable' (omega (arith, same, enough')) in
    (served, t, omega (arith, t.leaves, came, same))
  where
    fills_inj : (a b : Bytes) → fills a ≡ fills b → a ≡ b
    fills_inj a b e = cc
