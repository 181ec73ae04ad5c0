-- ===== src/Smtp/Session/Replies.antt =====
-- The replies to a client that sends its commands as lines.
use coroplusplus.Common.{
  ℕ, zero, suc, ◌≤◌, ◌<◌, ◌≡◌, refl, ap, sym, ◌∙◌, Bool, true, List, [], ◌∷◌, ◌++◌, arith, length,
  length-append, append_assoc, subst,
}
use coroplusplus.File.{Bytes}
use coroplusplus.File.Stream.{IsSteady}
use coroplusplus.File.Write.{IsWritable, takings}
use coroplusplus.Buffer.Get.{coming}
use coroplusplus.Buffer.Lines.{IsFreeOf, get_line}
use coroplusplus.Demo.{crlf, RoundEnd, breaks}
use coroplusplus.Smtp.Session.{
  quit, end_of_body, bye, code_250, smtp, read_command, SmtpSession, reply_to, after_send,
  after_get, handle, smtp_round, after_round, smtp_rounds, smtp_session_entry,
}
use coroplusplus.Smtp.Session.Rounds.{
  Request, says, posts, request_text, IsRequest, requests_text, AreRequests, reply_text,
  sender_after, replies_text, Advances, send_reply-Advances, answer-Advances, says-Advances,
  body-Advances,
}

round-Advances :
    (hostname : Bytes) (fuel : ℕ) (r : Request) (rest : Bytes) (s : SmtpSession)
    → IsRequest r
    → coming s.stream ≡ request_text r ++ rest
    → length (coming s.stream) < fuel
    → IsSteady s.stream.answers
    → IsWritable s.write_answers
    → length (reply_text hostname s.env_from r) ≤ takings s.write_answers
    → Advances
        (reply_text hostname s.env_from r)
        rest
        (sender_after hostname s.env_from r)
        s
        (smtp_round hostname fuel s)
unfolding smtp_round
round-Advances hostname fuel (says line) rest s p e h steady writable enough =
    says-Advances hostname fuel line rest s p (e ∙ append_assoc line crlf rest) h steady writable
      enough
round-Advances hostname fuel (posts line text) rest s (free, free', is_body) e h steady writable
      enough =
    let behind = text ++ (end_of_body ++ rest) in
    let parts =
      append_assoc (line ++ crlf) (text ++ end_of_body) rest
      ∙ append_assoc line crlf ((text ++ end_of_body) ++ rest)
      ∙ ap (λ t. line ++ (crlf ++ t)) (append_assoc text end_of_body rest) in
    let (left, result, stays, steady') =
      get_line fuel 13 (10 ∷ []) line behind s.stream (e ∙ parts) free h steady in
    let fewer = length-append line (crlf ++ behind) in
    let i =
      body-Advances hostname fuel line text rest (record s { stream = left }) free' stays
        (omega (arith, h, fewer, ap length (e ∙ parts), ap length stays)) steady' writable enough in
    record {
      next = i.next;
      result =
          ap (after_get (λ t. handle hostname fuel (read_command t) t) s) result
          ∙ ap (λ c. handle hostname fuel c (line ++ crlf) (record s { stream = left })) is_body
          ∙ i.result;
      sent = i.sent;
      sender = i.sender;
      stays = i.stays;
      steady = i.steady;
      writable = i.writable;
      takings_left = i.takings_left;
      is_open = i.is_open;
    }

-- The session came to its end with the socket closed, and has sent `text`.
abbrev pub Ends : Bytes → SmtpSession → Bool × SmtpSession → Type 0
Ends text s o = (o.0 ≡ true) × (o.1.sent ≡ s.sent ++ text) × (o.1.is_closed ≡ true)

Ends-append :
    (text text' : Bytes) (s s' : SmtpSession) (o : Bool × SmtpSession)
    → s'.sent ≡ s.sent ++ text
    → Ends text' s' o
    → Ends (text ++ text') s o
Ends-append text text' s s' o e h =
    (h.0, h.1 ∙ ap (λ t. t ++ text') e ∙ append_assoc s.sent text text', h.2)

quit_round-Ends :
    (hostname : Bytes) (fuel rounds : ℕ) (line rest : Bytes) (s : SmtpSession)
    → IsFreeOf 13 line
    → read_command (line ++ crlf) ≡ quit
    → coming s.stream ≡ line ++ (crlf ++ rest)
    → length (coming s.stream) < fuel
    → IsSteady s.stream.answers
    → IsWritable s.write_answers
    → length (bye ++ crlf) ≤ takings s.write_answers
    → Ends
        (bye ++ crlf)
        s
        (after_round (smtp_rounds hostname fuel rounds) (smtp_round hostname fuel s))
unfolding smtp_round handle reply_to
quit_round-Ends hostname fuel rounds line rest s free is_quit e h steady writable enough =
    let (left, result, stays, steady') =
      get_line fuel 13 (10 ∷ []) line rest s.stream e free h steady in
    let i =
      answer-Advances hostname quit (line ++ crlf) (record s { stream = left }) steady' writable
        enough in
    let close : SmtpSession → RoundEnd × SmtpSession =
      λ s'. (breaks, record s' { is_closed = true }) in
    subst (λ o. Ends (bye ++ crlf) s (after_round (smtp_rounds hostname fuel rounds) o))
      (sym (
        ap (after_get (λ t. handle hostname fuel (read_command t) t) s) result
        ∙ ap (λ c. handle hostname fuel c (line ++ crlf) (record s { stream = left })) is_quit
        ∙ ap (after_send close) i.result))
      (refl, i.sent, refl)

smtp_rounds-Ends :
    (hostname : Bytes) (fuel rounds : ℕ) (requests : List Request) (line rest : Bytes)
    (s : SmtpSession)
    → AreRequests requests
    → IsFreeOf 13 line
    → read_command (line ++ crlf) ≡ quit
    → coming s.stream ≡ requests_text requests ++ (line ++ (crlf ++ rest))
    → length (coming s.stream) < fuel
    → length requests < rounds
    → IsSteady s.stream.answers
    → IsWritable s.write_answers
    → length (replies_text hostname s.env_from requests) ≤ takings s.write_answers
    → Ends (replies_text hostname s.env_from requests) s (smtp_rounds hostname fuel rounds s)
unfolding smtp_rounds
smtp_rounds-Ends hostname fuel zero requests line rest s p free is_quit e h k steady writable
      enough =
    absurd (omega arith)
smtp_rounds-Ends hostname fuel (suc rounds) [] line rest s p free is_quit e h k steady writable
      enough =
    quit_round-Ends hostname fuel rounds line rest s free is_quit e h steady writable enough
smtp_rounds-Ends hostname fuel (suc rounds) (r ∷ rs) line rest s p free is_quit e h k steady
      writable enough =
    let behind = requests_text rs ++ (line ++ (crlf ++ rest)) in
    let parts = append_assoc (request_text r) (requests_text rs) (line ++ (crlf ++ rest)) in
    let text = reply_text hostname s.env_from r in
    let total =
      length-append text (replies_text hostname (sender_after hostname s.env_from r) rs) in
    let i =
      round-Advances hostname fuel r behind s p.0 (e ∙ parts) h steady writable
        (omega (arith, total)) in
    let fewer = length-append (request_text r) behind in
    let same_replies = ap (λ t. replies_text hostname t rs) i.sender in
    let j =
      smtp_rounds-Ends hostname fuel rounds rs line rest i.next p.1 free is_quit i.stays
        (omega (arith, h, fewer, ap length (e ∙ parts), ap length i.stays)) (omega arith) i.steady
        i.writable (omega (arith, total, i.takings_left, ap length same_replies)) in
    subst
      (λ o.
        Ends (replies_text hostname s.env_from (r ∷ rs)) s
          (after_round (smtp_rounds hostname fuel rounds) o))
      (sym i.result)
      (Ends-append text (replies_text hostname (sender_after hostname s.env_from r) rs) s i.next
        (smtp_rounds hostname fuel rounds i.next) i.sent
        (subst (λ t. Ends t i.next (smtp_rounds hostname fuel rounds i.next)) same_replies j))

-- If a client sends commands in lines without a CR before the CR LF, and a body without a CR behind
-- each `data`, and then the first `quit`, on a stream that ends only at its end, and the kernel takes
-- bytes often enough without a refusal but to wait, then the session, with more rounds than requests and
-- more rounds of `get` than bytes, comes to its end with the socket closed, and has sent the greeting and
-- the reply to each request, in order, however the bytes arrive and whatever comes behind the `quit`.
pub smtp_session_entry-Ends :
    (hostname : Bytes) (fuel rounds : ℕ) (requests : List Request) (line rest : Bytes)
    (s : SmtpSession)
    → AreRequests requests
    → IsFreeOf 13 line
    → read_command (line ++ crlf) ≡ quit
    → coming s.stream ≡ requests_text requests ++ (line ++ (crlf ++ rest))
    → length (coming s.stream) < fuel
    → length requests < rounds
    → IsSteady s.stream.answers
    → IsWritable s.write_answers
    → length ((code_250 ++ hostname ++ smtp ++ crlf) ++ replies_text hostname s.env_from requests)
      ≤ takings s.write_answers
    → Ends
        ((code_250 ++ hostname ++ smtp ++ crlf) ++ replies_text hostname s.env_from requests)
        s
        (smtp_session_entry hostname fuel rounds s)
unfolding smtp_session_entry
smtp_session_entry-Ends hostname fuel rounds requests line rest s p free is_quit e h k steady
      writable enough =
    let greeting = code_250 ++ hostname ++ smtp in
    let replies = replies_text hostname s.env_from requests in
    let total = length-append (greeting ++ crlf) replies in
    let i = send_reply-Advances greeting s steady writable (omega (arith, total)) in
    let same_replies = ap (λ t. replies_text hostname t requests) i.sender in
    let j =
      smtp_rounds-Ends hostname fuel rounds requests line rest i.next p free is_quit (i.stays ∙ e)
        (omega (arith, h, ap length i.stays)) k i.steady i.writable
        (omega (arith, total, i.takings_left, ap length same_replies)) in
    subst
      (λ o.
        Ends ((greeting ++ crlf) ++ replies) s (after_round (smtp_rounds hostname fuel rounds) o))
      (sym i.result)
      (Ends-append (greeting ++ crlf) replies s i.next (smtp_rounds hostname fuel rounds i.next)
        i.sent
        (subst (λ t. Ends t i.next (smtp_rounds hostname fuel rounds i.next)) same_replies j))
