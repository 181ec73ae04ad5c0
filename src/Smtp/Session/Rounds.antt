-- ===== src/Smtp/Session/Rounds.antt =====
-- A round of a session, for a client that sends its commands as lines.
use coroplusplus.Common.{
  ℕ, ◌+◌, ◌≤◌, ◌<◌, ◌≡◌, ◌≢◌, refl, ap, ◌∙◌, false, List, [], ◌∷◌, ◌++◌, arith, length,
  length-append, append_assoc,
}
use coroplusplus.File.{Bytes}
use coroplusplus.File.Stream.{IsSteady}
use coroplusplus.File.Write.{IsWritable, takings, write_bytes-Writes}
use coroplusplus.Buffer.{get}
use coroplusplus.Buffer.Get.{coming}
use coroplusplus.Buffer.Lines.{IsFreeOf, get_line}
use coroplusplus.Demo.{crlf, RoundEnd, goes_on, round_of}
use coroplusplus.Smtp.Session.{
  Command, quit, rcpt, helo, ehlo, mail, body, rset, unknown, end_of_body, go_ahead, bye,
  read_command, SmtpSession, send_reply, reply_to, after_send, after_get, answer, handle,
  smtp_round,
}

-- What a client sends: a command in a line, or the line of a `data` command and a body.
pub data Request : Type 0 where
  says : Bytes → Request
  posts : Bytes → Bytes → Request

abbrev pub request_text : Request → Bytes
request_text (says line) = line ++ crlf
request_text (posts line text) = (line ++ crlf) ++ (text ++ end_of_body)

-- No CR in a line or a body, and the command is as announced.
abbrev pub IsRequest : Request → Type 0
IsRequest (says line) =
    IsFreeOf 13 line × (read_command (line ++ crlf) ≢ quit) × (read_command (line ++ crlf) ≢ body)
IsRequest (posts line text) =
    IsFreeOf 13 line × IsFreeOf 13 text × (read_command (line ++ crlf) ≡ body)

abbrev pub requests_text : List Request → Bytes
requests_text [] = []
requests_text (r ∷ rs) = request_text r ++ requests_text rs

abbrev pub AreRequests : List Request → Type 0
AreRequests [] = Unit
AreRequests (r ∷ rs) = IsRequest r × AreRequests rs

-- The reply to a request, and the sender that is known then.
abbrev pub reply_text : Bytes → Bytes → Request → Bytes
reply_text hostname env_from (says line) =
    (reply_to hostname (read_command (line ++ crlf)) (line ++ crlf) env_from).0 ++ crlf
reply_text hostname env_from (posts line text) =
    (go_ahead ++ crlf) ++ ((reply_to hostname body (line ++ crlf) env_from).0 ++ crlf)

abbrev pub sender_after : Bytes → Bytes → Request → Bytes
sender_after hostname env_from (says line) =
    (reply_to hostname (read_command (line ++ crlf)) (line ++ crlf) env_from).1
sender_after hostname env_from (posts line text) = []

abbrev pub replies_text : Bytes → Bytes → List Request → Bytes
replies_text hostname env_from [] = bye ++ crlf
replies_text hostname env_from (r ∷ rs) =
    reply_text hostname env_from r ++ replies_text hostname (sender_after hostname env_from r) rs

-- A round, or a part of one, that went on: it has sent `text`, has taken up to `rest` from the stream,
-- and has used up one taking for each byte at most.
pub record Advances (text rest env_from : Bytes) (s : SmtpSession) (o : RoundEnd × SmtpSession)
    : Type 0 where
  pub next : SmtpSession
  pub result : o ≡ (goes_on, next)
  pub sent : next.sent ≡ s.sent ++ text
  pub sender : next.env_from ≡ env_from
  pub stays : coming next.stream ≡ rest
  pub steady : IsSteady next.stream.answers
  pub writable : IsWritable next.write_answers
  pub takings_left : takings s.write_answers ≤ takings next.write_answers + length text
  pub is_open : next.is_closed ≡ s.is_closed

pub send_reply-Advances :
    (c : Bytes) (s : SmtpSession)
    → IsSteady s.stream.answers
    → IsWritable s.write_answers
    → length (c ++ crlf) ≤ takings s.write_answers
    → Advances (c ++ crlf) (coming s.stream) s.env_from s (send_reply c s)
unfolding send_reply
send_reply-Advances c s steady writable enough =
    let w = write_bytes-Writes (c ++ crlf) s.write_answers s.sent writable enough in
    record {
      next = record s { write_answers = w.left; sent = s.sent ++ (c ++ crlf) };
      result =
          ap (λ o. (round_of o.0 goes_on, record s { write_answers = o.1; sent = o.2 })) w.result;
      sent = refl;
      sender = refl;
      stays = refl;
      steady = steady;
      writable = w.writable;
      takings_left = w.takings_left;
      is_open = refl;
    }

pub answer-Advances :
    (hostname : Bytes) (command : Command) (line : Bytes) (s : SmtpSession)
    → IsSteady s.stream.answers
    → IsWritable s.write_answers
    → length ((reply_to hostname command line s.env_from).0 ++ crlf) ≤ takings s.write_answers
    → Advances
        ((reply_to hostname command line s.env_from).0 ++ crlf)
        (coming s.stream)
        (reply_to hostname command line s.env_from).1
        s
        (answer hostname command line s)
unfolding answer
answer-Advances hostname command line s steady writable enough =
    let (r, env_from) = reply_to hostname command line s.env_from in
    let i = send_reply-Advances r (record s { env_from = env_from }) steady writable enough in
    record {
      next = i.next;
      result = i.result;
      sent = i.sent;
      sender = i.sender;
      stays = i.stays;
      steady = i.steady;
      writable = i.writable;
      takings_left = i.takings_left;
      is_open = i.is_open;
    }

handle_once :
    (hostname : Bytes) (fuel : ℕ) (command : Command) (line : Bytes) (s : SmtpSession)
    → command ≢ quit
    → command ≢ body
    → handle hostname fuel command line s ≡ answer hostname command line s
unfolding handle
handle_once hostname fuel quit line s h k = absurd (h refl)
handle_once hostname fuel body line s h k = absurd (k refl)
handle_once hostname fuel rcpt line s h k = refl
handle_once hostname fuel helo line s h k = refl
handle_once hostname fuel ehlo line s h k = refl
handle_once hostname fuel mail line s h k = refl
handle_once hostname fuel rset line s h k = refl
handle_once hostname fuel unknown line s h k = refl

pub says-Advances :
    (hostname : Bytes) (fuel : ℕ) (line rest : Bytes) (s : SmtpSession)
    → IsRequest (says line)
    → coming s.stream ≡ line ++ (crlf ++ rest)
    → length (coming s.stream) < fuel
    → IsSteady s.stream.answers
    → IsWritable s.write_answers
    → length (reply_text hostname s.env_from (says line)) ≤ takings s.write_answers
    → Advances
        (reply_text hostname s.env_from (says line))
        rest
        (sender_after hostname s.env_from (says line))
        s
        (smtp_round hostname fuel s)
unfolding smtp_round
says-Advances hostname fuel line rest s (free, not_quit, not_body) e h steady writable enough =
    let (left, result, stays, steady') =
      get_line fuel 13 (10 ∷ []) line rest s.stream e free h steady in
    let command = read_command (line ++ crlf) in
    let i =
      answer-Advances hostname command (line ++ crlf) (record s { stream = left }) steady' writable
        enough in
    record {
      next = i.next;
      result =
          ap (after_get (λ text. handle hostname fuel (read_command text) text) s) result
          ∙ handle_once hostname fuel command (line ++ crlf) (record s { stream = left }) not_quit
              not_body
          ∙ i.result;
      sent = i.sent;
      sender = i.sender;
      stays = i.stays ∙ stays;
      steady = i.steady;
      writable = i.writable;
      takings_left = i.takings_left;
      is_open = i.is_open;
    }

-- The branch for `data`, behind the line with the command.
pub body-Advances :
    (hostname : Bytes) (fuel : ℕ) (line text rest : Bytes) (s : SmtpSession)
    → IsFreeOf 13 text
    → coming s.stream ≡ text ++ (end_of_body ++ rest)
    → length (coming s.stream) < fuel
    → IsSteady s.stream.answers
    → IsWritable s.write_answers
    → length (reply_text hostname s.env_from (posts line text)) ≤ takings s.write_answers
    → Advances
        (reply_text hostname s.env_from (posts line text))
        rest
        []
        s
        (handle hostname fuel body (line ++ crlf) s)
unfolding handle reply_to
body-Advances hostname fuel line text rest s free e h steady writable enough =
    let reply = (reply_to hostname body (line ++ crlf) s.env_from).0 ++ crlf in
    let total = length-append (go_ahead ++ crlf) reply in
    let i = send_reply-Advances go_ahead s steady writable (omega (arith, total)) in
    let (left, result, stays, steady') =
      get_line fuel 13 (10 ∷ 46 ∷ 13 ∷ 10 ∷ []) text rest i.next.stream (i.stays ∙ e) free
        (omega (arith, h, ap length i.stays)) i.steady in
    let j =
      answer-Advances hostname body (line ++ crlf) (record i.next { stream = left }) steady'
        i.writable (omega (arith, total, i.takings_left)) in
    let branch : Bytes → SmtpSession → RoundEnd × SmtpSession =
      λ t. answer hostname body (line ++ crlf) in
    record {
      next = j.next;
      result =
          ap (after_send (λ s'. after_get branch s' (get false fuel end_of_body s'.stream)))
            i.result
          ∙ ap (after_get branch i.next) result
          ∙ j.result;
      sent = j.sent ∙ ap (λ t. t ++ reply) i.sent ∙ append_assoc s.sent (go_ahead ++ crlf) reply;
      sender = j.sender;
      stays = j.stays ∙ stays;
      steady = j.steady;
      writable = j.writable;
      takings_left = omega (arith, total, i.takings_left, j.takings_left);
      is_open = j.is_open ∙ i.is_open;
    }
