-- ===== src/Smtp/Session.antt =====
-- demo/smtp_server.cc: a session, `smtp_session::go`. Its list of recipients is left out, since nothing
-- is added to it. `smtp_session_entry` closes the socket after an exception.
pub mod Rounds
pub mod Replies
pub mod Endless
use coroplusplus.Common.{
  ℕ, zero, suc, ◌+◌, Bool, true, false, ◌&&◌, Option, none, some, List, [], ◌∷◌, ◌++◌, map, ◌==◌,
  ltb, leb, if◌then◌else◌, length,
}
use coroplusplus.File.{
  Bytes, Result, ok, os_error, yield_from_main, stuck, out_of_fuel, WriteAnswer, write_bytes,
}
use coroplusplus.Buffer.{Stream, get}
use coroplusplus.Demo.{crlf, RoundEnd, goes_on, breaks, caught, never, round_of}
use coroplusplus.Smtp.{split_first, find_email_addr}

-- The branches of the command loop.
pub data Command : Type 0 where
  quit rcpt helo ehlo mail body rset unknown : Command

-- " \t\r\n"
abbrev pub delim : Bytes
delim = 32 ∷ 9 ∷ 13 ∷ 10 ∷ []

-- "\r\n.\r\n"
abbrev pub end_of_body : Bytes
end_of_body = 13 ∷ 10 ∷ 46 ∷ 13 ∷ 10 ∷ []

-- "221 bye."
abbrev pub bye : Bytes
bye = 50 ∷ 50 ∷ 49 ∷ 32 ∷ 98 ∷ 121 ∷ 101 ∷ 46 ∷ []

-- "250 Ok"
abbrev pub ok_reply : Bytes
ok_reply = 50 ∷ 53 ∷ 48 ∷ 32 ∷ 79 ∷ 107 ∷ []

-- "501 Syntax Error"
abbrev pub syntax_error : Bytes
syntax_error =
    53 ∷ 48 ∷ 49 ∷ 32 ∷ 83 ∷ 121 ∷ 110 ∷ 116 ∷ 97 ∷ 120 ∷ 32 ∷ 69 ∷ 114 ∷ 114 ∷ 111 ∷ 114 ∷ []

-- "503 send MAIL command first"
abbrev pub bad_sequence : Bytes
bad_sequence =
    53 ∷ 48 ∷ 51 ∷ 32 ∷ 115 ∷ 101 ∷ 110 ∷ 100 ∷ 32 ∷ 77 ∷ 65 ∷ 73 ∷ 76 ∷ 32 ∷ 99 ∷ 111 ∷ 109 ∷ 109
    ∷ 97 ∷ 110 ∷ 100 ∷ 32 ∷ 102 ∷ 105 ∷ 114 ∷ 115 ∷ 116 ∷ []

-- "354 Ok"
abbrev pub go_ahead : Bytes
go_ahead = 51 ∷ 53 ∷ 52 ∷ 32 ∷ 79 ∷ 107 ∷ []

-- "502 command not implemented"
abbrev pub not_implemented : Bytes
not_implemented =
    53 ∷ 48 ∷ 50 ∷ 32 ∷ 99 ∷ 111 ∷ 109 ∷ 109 ∷ 97 ∷ 110 ∷ 100 ∷ 32 ∷ 110 ∷ 111 ∷ 116 ∷ 32 ∷ 105
    ∷ 109 ∷ 112 ∷ 108 ∷ 101 ∷ 109 ∷ 101 ∷ 110 ∷ 116 ∷ 101 ∷ 100 ∷ []

-- "250 "
abbrev pub code_250 : Bytes
code_250 = 50 ∷ 53 ∷ 48 ∷ 32 ∷ []

-- "250-"
abbrev pub code_250_more : Bytes
code_250_more = 50 ∷ 53 ∷ 48 ∷ 45 ∷ []

-- "\r\n250-PIPELINING\r\n250 8BITMIME"
abbrev pub extensions : Bytes
extensions =
    13 ∷ 10 ∷ 50 ∷ 53 ∷ 48 ∷ 45 ∷ 80 ∷ 73 ∷ 80 ∷ 69 ∷ 76 ∷ 73 ∷ 78 ∷ 73 ∷ 78 ∷ 71 ∷ 13 ∷ 10 ∷ 50
    ∷ 53 ∷ 48 ∷ 32 ∷ 56 ∷ 66 ∷ 73 ∷ 84 ∷ 77 ∷ 73 ∷ 77 ∷ 69 ∷ []

-- " SMTP"
abbrev pub smtp : Bytes
smtp = 32 ∷ 83 ∷ 77 ∷ 84 ∷ 80 ∷ []

abbrev pub is_same : Bytes → Bytes → Bool
is_same [] [] = true
is_same [] (y ∷ ys) = false
is_same (x ∷ xs) [] = false
is_same (x ∷ xs) (y ∷ ys) = (x == y) && is_same xs ys

-- `tolower`, of a character of ASCII
abbrev pub tolower : ℕ → ℕ
tolower c = if leb 65 c && leb c 90 then c + 32 else c

-- The comparisons of the command with "quit", "rcpt", "helo", "ehlo", "mail", "data" and "rset".
unfoldable pub command_of : Bytes → Command
command_of word =
    if is_same word (113 ∷ 117 ∷ 105 ∷ 116 ∷ [])
    then quit
    else if is_same word (114 ∷ 99 ∷ 112 ∷ 116 ∷ [])
    then rcpt
    else if is_same word (104 ∷ 101 ∷ 108 ∷ 111 ∷ [])
    then helo
    else if is_same word (101 ∷ 104 ∷ 108 ∷ 111 ∷ [])
    then ehlo
    else if is_same word (109 ∷ 97 ∷ 105 ∷ 108 ∷ [])
    then mail
    else if is_same word (100 ∷ 97 ∷ 116 ∷ 97 ∷ [])
    then body
    else if is_same word (114 ∷ 115 ∷ 101 ∷ 116 ∷ [])
    then rset
    else unknown

-- The command of a line.
unfoldable pub read_command : Bytes → Command
unfolding command_of split_first
read_command line = command_of (map tolower (split_first line delim).0)

-- The buffer and the socket of a session, what it has sent, `_env_from`, and whether the socket is
-- closed.
pub record SmtpSession : Type 0 where
  pub stream : Stream
  pub write_answers : List WriteAnswer
  pub sent : Bytes
  pub env_from : Bytes
  pub is_closed : Bool

-- `send_reply`
unfoldable pub send_reply : Bytes → SmtpSession → RoundEnd × SmtpSession
unfolding write_bytes
send_reply c s =
    let (r, ans, sent) = write_bytes false (c ++ crlf) s.write_answers s.sent in
    (round_of r goes_on, record s { write_answers = ans; sent = sent })

-- The last reply to a command, and `_env_from` then.
unfoldable pub reply_to : Bytes → Command → Bytes → Bytes → Bytes × Bytes
unfolding find_email_addr
reply_to hostname quit line env_from = (bye, env_from)
reply_to hostname rcpt line env_from =
    let found = ltb 0 (find_email_addr [] line).1 in
    (
      if ltb 0 (length env_from) then if found then ok_reply else syntax_error else bad_sequence,
      env_from,
    )
reply_to hostname helo line env_from = (code_250 ++ hostname, env_from)
reply_to hostname ehlo line env_from = (code_250_more ++ hostname ++ extensions, env_from)
reply_to hostname mail line env_from =
    let (addr, n) = find_email_addr env_from line in
    (if ltb 0 n then ok_reply else syntax_error, addr)
reply_to hostname body line env_from = (ok_reply, [])
reply_to hostname rset line env_from = (ok_reply, [])
reply_to hostname unknown line env_from = (not_implemented, env_from)

-- What follows a reply that was sent, and what follows a call of `get`, whose result is not looked at.
abbrev pub after_send :
    (SmtpSession → RoundEnd × SmtpSession) → RoundEnd × SmtpSession → RoundEnd × SmtpSession
after_send next (goes_on, s) = next s
after_send next (breaks, s) = (breaks, s)
after_send next (caught, s) = (caught, s)
after_send next (never, s) = (never, s)

abbrev pub after_get :
    (Bytes → SmtpSession → RoundEnd × SmtpSession)
    → SmtpSession
    → Result (Bool × Bytes) × Stream
    → RoundEnd × SmtpSession
after_get next s (ok (closed, text), st) = next text (record s { stream = st })
after_get next s (os_error c n, st) = (caught, record s { stream = st })
after_get next s (yield_from_main, st) = (caught, record s { stream = st })
after_get next s (stuck, st) = (never, record s { stream = st })
after_get next s (out_of_fuel, st) = (never, record s { stream = st })

-- The last reply to a command is sent, with `_env_from` set before.
unfoldable pub answer : Bytes → Command → Bytes → SmtpSession → RoundEnd × SmtpSession
unfolding send_reply reply_to
answer hostname command line s =
    let (r, env_from) = reply_to hostname command line s.env_from in
    send_reply r (record s { env_from = env_from })

unfoldable pub handle : Bytes → ℕ → Command → Bytes → SmtpSession → RoundEnd × SmtpSession
unfolding answer
handle hostname fuel quit line s =
    after_send (λ s'. (breaks, record s' { is_closed = true })) (answer hostname quit line s)
handle hostname fuel body line s =
    after_send
      (λ s'.
        after_get (λ text. answer hostname body line) s' (get false fuel end_of_body s'.stream))
      (send_reply go_ahead s)
handle hostname fuel rcpt line s = answer hostname rcpt line s
handle hostname fuel helo line s = answer hostname helo line s
handle hostname fuel ehlo line s = answer hostname ehlo line s
handle hostname fuel mail line s = answer hostname mail line s
handle hostname fuel rset line s = answer hostname rset line s
handle hostname fuel unknown line s = answer hostname unknown line s

-- The body of the `while` loop.
unfoldable pub smtp_round : Bytes → ℕ → SmtpSession → RoundEnd × SmtpSession
unfolding handle read_command
smtp_round hostname fuel s =
    after_get (λ line. handle hostname fuel (read_command line) line) s
      (get false fuel crlf s.stream)

-- The session has come to its end by the loop or by the handler of `smtp_session_entry`, or goes on.
abbrev pub after_round :
    (SmtpSession → Bool × SmtpSession) → RoundEnd × SmtpSession → Bool × SmtpSession
after_round next (goes_on, s) = next s
after_round next (breaks, s) = (true, s)
after_round next (caught, s) = (true, record s { is_closed = true })
after_round next (never, s) = (false, s)

-- The `while` loop; `rounds` bounds its rounds, and `fuel` those of `get`.
unfoldable pub smtp_rounds : Bytes → ℕ → ℕ → SmtpSession → Bool × SmtpSession
smtp_rounds hostname fuel zero s = (false, s)
smtp_rounds hostname fuel (suc rounds) s =
    after_round (smtp_rounds hostname fuel rounds) (smtp_round hostname fuel s)

-- `smtp_session_entry`, with `go`
unfoldable pub smtp_session_entry : Bytes → ℕ → ℕ → SmtpSession → Bool × SmtpSession
smtp_session_entry hostname fuel rounds s =
    after_round (smtp_rounds hostname fuel rounds) (send_reply (code_250 ++ hostname ++ smtp) s)
