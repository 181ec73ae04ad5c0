-- ===== src/Echo/Session.antt =====
-- A session of the echo server on a stream of lines.
use coroplusplus.Common.{
  ℕ, zero, suc, ◌≤◌, ◌<◌, ◌≡◌, ◌≢◌, refl, ap, sym, ◌∙◌, Bool, true, false, List, [], ◌∷◌, ◌++◌,
  arith, ◌==◌, length, length-append, get_or, append-nil, append_assoc, subst,
}
use coroplusplus.File.{Bytes, ok, WriteAnswer, write_bytes}
use coroplusplus.File.Stream.{IsSteady}
use coroplusplus.File.Write.{IsWritable, takings, write_bytes-Writes}
use coroplusplus.Buffer.{Stream}
use coroplusplus.Buffer.Get.{coming}
use coroplusplus.Buffer.Lines.{IsFreeOf, get_end, get_line}
use coroplusplus.Demo.{crlf, goes_on, round_of}
use coroplusplus.Echo.{
  EchoSession, send, answer_line, after_get, echo_round, after_round, echo_session,
}

abbrev pub text_of : List Bytes → Bytes
text_of [] = []
text_of (line ∷ lines) = line ++ (crlf ++ text_of lines)

-- No CR in the line, and no `!` at its front.
abbrev pub IsPlain : Bytes → Type 0
IsPlain line = IsFreeOf 13 line × (get_or (line ++ crlf) 0 0 ≢ 33)

abbrev pub ArePlain : List Bytes → Type 0
ArePlain [] = Unit
ArePlain (line ∷ lines) = IsPlain line × ArePlain lines

-- The session came to its end with the socket closed, and has sent `text`.
abbrev pub Echoes : Bytes → EchoSession → Bool × EchoSession → Type 0
Echoes text s o =
    (o.0 ≡ true) × (o.1.sent ≡ s.sent ++ text) × (o.1.is_closed ≡ true) × (o.1.exits ≡ s.exits)

pub answer_plain :
    (line : Bytes) (s : EchoSession) → get_or line 0 0 ≢ 33 → answer_line line s ≡ send line s
unfolding answer_line
answer_plain line s h = let plain : (get_or line 0 0 == 33) ≡ false = ground arith in rw plain refl

pub sent_line :
    (line : Bytes) (s : EchoSession) (left : Stream) (ans : List WriteAnswer)
    → write_bytes false (line ++ crlf) s.write_answers s.sent
      ≡ (ok tt, ans, s.sent ++ (line ++ crlf))
    → send (line ++ crlf) (record s { stream = left })
      ≡ (goes_on, record s { stream = left; write_answers = ans; sent = s.sent ++ (line ++ crlf) })
unfolding send
sent_line line s left ans e =
    ap (λ o. (round_of o.0 goes_on, record s { stream = left; write_answers = o.1; sent = o.2 })) e

-- If the bytes that come are lines that end in CR LF, each without a CR before it and without a `!` at
-- its front, on a stream that ends only at its end, and the kernel takes bytes often enough without a
-- refusal but to wait, then the session, with more rounds than lines and more rounds of `get` than
-- bytes, comes to its end, has sent back exactly the bytes that came, has closed the socket, and has
-- not called `exit`.
pub echo_session-Echoes :
    (fuel rounds : ℕ) (lines : List Bytes) (s : EchoSession)
    → coming s.stream ≡ text_of lines
    → ArePlain lines
    → length (text_of lines) < fuel
    → length lines < rounds
    → IsSteady s.stream.answers
    → IsWritable s.write_answers
    → length (text_of lines) ≤ takings s.write_answers
    → Echoes (text_of lines) s (echo_session fuel rounds s)
unfolding echo_session echo_round
echo_session-Echoes fuel zero lines s e plain h r steady writable enough = absurd (omega arith)
echo_session-Echoes fuel (suc rounds) [] s e plain h r steady writable enough =
    let (left, result, stays, steady') = get_end fuel crlf s.stream e (omega arith) steady in
    subst (λ o. Echoes [] s (after_round (echo_session fuel rounds) (after_get s o))) (sym result)
      (refl, sym (append-nil s.sent), refl, refl)
echo_session-Echoes fuel (suc rounds) (line ∷ lines) s e plain h r steady writable enough =
    let rest = text_of lines in
    let (left, result, stays, steady') =
      get_line fuel 13 (10 ∷ []) line rest s.stream e plain.0.0 (omega (arith, ap length e))
        steady in
    let total = length-append line (crlf ++ rest) in
    let whole = length-append line crlf in
    let w =
      write_bytes-Writes (line ++ crlf) s.write_answers s.sent writable
        (omega (arith, total, whole)) in
    let s' : EchoSession = record s {
      stream = left;
      write_answers = w.left;
      sent = s.sent ++ (line ++ crlf);
    } in
    let i =
      echo_session-Echoes fuel rounds lines s' stays plain.1 (omega (arith, total)) (omega arith)
        steady' w.writable (omega (arith, total, whole, w.takings_left)) in
    subst
      (λ o.
        Echoes (text_of (line ∷ lines)) s (after_round (echo_session fuel rounds) (after_get s o)))
      (sym result)
      (subst (λ o. Echoes (text_of (line ∷ lines)) s (after_round (echo_session fuel rounds) o))
        (sym (
          answer_plain (line ++ crlf) (record s { stream = left }) plain.0.1
          ∙ sent_line line s left w.left w.result))
        (
          i.0,
          i.1
              ∙ append_assoc s.sent (line ++ crlf) rest
              ∙ ap (λ t. s.sent ++ t) (append_assoc line crlf rest),
          i.2,
          i.3,
        ))
