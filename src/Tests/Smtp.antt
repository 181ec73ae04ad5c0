-- ===== src/Tests/Smtp.antt =====
-- Sessions of the SMTP server.
use coroplusplus.Common.{copies, ℕ, zero, suc, ◌≡◌, refl, false, List, [], ◌∷◌, ◌++◌, arith}
use coroplusplus.File.{Bytes, arrives, WriteAnswer, takes}
use coroplusplus.Demo.{crlf}
use coroplusplus.Smtp.{split_first, find_first_of}
use coroplusplus.Smtp.Session.{
  quit, helo, body, command_of, read_command, reply_to, SmtpSession, code_250, smtp,
  not_implemented, smtp_rounds, smtp_session_entry,
}
use coroplusplus.Smtp.Session.Rounds.{Request, says, posts, replies_text}
use coroplusplus.Smtp.Session.Replies.{Ends, smtp_session_entry-Ends}
use coroplusplus.Smtp.Session.Endless.{smtp_rounds_endless}

abbrev many : ℕ → List WriteAnswer
many zero = []
many (suc n) = takes 0 ∷ many n

-- "HELO x", and the name "h" of the server.
abbrev helo_line : Bytes
helo_line = 72 ∷ 69 ∷ 76 ∷ 79 ∷ 32 ∷ 120 ∷ []

abbrev data_line : Bytes
data_line = 100 ∷ 97 ∷ 116 ∷ 97 ∷ []

abbrev quit_line : Bytes
quit_line = 113 ∷ 117 ∷ 105 ∷ 116 ∷ []

abbrev requests : List Request
requests = says helo_line ∷ posts data_line (111 ∷ []) ∷ []

-- A byte is buffered, the rest arrives in two parts, and some more comes behind the end.
abbrev smtp_client : SmtpSession
smtp_client = record {
  stream = record {
    buffer = 72 ∷ [];
    answers =
        arrives (69 ∷ 76 ∷ 79 ∷ 32 ∷ 120 ∷ 13 ∷ 10 ∷ 100 ∷ 97 ∷ 116 ∷ [])
        ∷ arrives (
            97 ∷ 13 ∷ 10 ∷ 111 ∷ 13 ∷ 10 ∷ 46 ∷ 13 ∷ 10 ∷ 113 ∷ 117 ∷ 105 ∷ 116 ∷ 13 ∷ 10 ∷ 120
            ∷ [])
        ∷ [];
  };
  write_answers = many 80;
  sent = [];
  env_from = [];
  is_closed = false;
}

helo_command : read_command (helo_line ++ crlf) ≡ helo
unfolding read_command command_of split_first find_first_of
helo_command = refl

data_command : read_command (data_line ++ crlf) ≡ body
unfolding read_command command_of split_first find_first_of
data_command = refl

quit_command : read_command (quit_line ++ crlf) ≡ quit
unfolding read_command command_of split_first find_first_of
quit_command = refl

smtp_session_entry-Ends_example :
    Ends
      ((code_250 ++ (104 ∷ []) ++ smtp ++ crlf) ++ replies_text (104 ∷ []) [] requests)
      smtp_client
      (smtp_session_entry (104 ∷ []) 40 4 smtp_client)
unfolding read_command command_of split_first find_first_of reply_to
smtp_session_entry-Ends_example =
    smtp_session_entry-Ends (104 ∷ []) 40 4 requests quit_line (120 ∷ []) smtp_client
      (
        (
          (
            λ e. omega arith,
            (
              λ e. omega arith,
              (λ e. omega arith, (λ e. omega arith, (λ e. omega arith, (λ e. omega arith, tt)))),
            ),
          ),
          λ e. cc,
          λ e. cc,
        ),
        (
          (
            (λ e. omega arith, (λ e. omega arith, (λ e. omega arith, (λ e. omega arith, tt)))),
            (λ e. omega arith, tt),
            data_command,
          ),
          tt,
        ),
      )
      (λ e. omega arith, (λ e. omega arith, (λ e. omega arith, (λ e. omega arith, tt))))
      quit_command refl (omega arith) (omega arith) (λ e. cc, (λ e. cc, tt)) tt (omega arith)

abbrev gone_client : SmtpSession
gone_client = record smtp_client { stream = record { buffer = []; answers = [] } }

smtp_rounds_endless_example :
    ((smtp_rounds (104 ∷ []) 1 2 gone_client).0 ≡ false)
    × ((smtp_rounds (104 ∷ []) 1 2 gone_client).1.sent ≡ copies 2 (not_implemented ++ crlf))
    × ((smtp_rounds (104 ∷ []) 1 2 gone_client).1.is_closed ≡ false)
smtp_rounds_endless_example =
    smtp_rounds_endless (104 ∷ []) 1 2 gone_client refl (omega arith) tt tt (omega arith)
