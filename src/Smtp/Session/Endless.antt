-- ===== src/Smtp/Session/Endless.antt =====
-- A session whose client has gone.
use coroplusplus.Common.{
  copies, ℕ, zero, suc, ◌+◌, ◌*◌, ◌≤◌, ◌<◌, ◌≡◌, refl, ap, sym, ◌∙◌, false, [], ◌++◌, arith, length,
  append-nil, append_assoc, subst,
}
use coroplusplus.File.{Bytes}
use coroplusplus.File.Stream.{IsSteady}
use coroplusplus.File.Write.{IsWritable, takings}
use coroplusplus.Buffer.Get.{coming}
use coroplusplus.Buffer.Lines.{get_end}
use coroplusplus.Smtp.{split_first, find_first_of}
use coroplusplus.Demo.{crlf}
use coroplusplus.Smtp.Session.{
  unknown, command_of, not_implemented, read_command, SmtpSession, after_get, handle, reply_to,
  smtp_round, after_round, smtp_rounds,
}
use coroplusplus.Smtp.Session.Rounds.{Advances, answer-Advances}

read_command-nil : read_command [] ≡ unknown
unfolding read_command command_of split_first find_first_of
read_command-nil = refl

end_round-Advances :
    (hostname : Bytes) (fuel : ℕ) (s : SmtpSession)
    → coming s.stream ≡ []
    → 0 < fuel
    → IsSteady s.stream.answers
    → IsWritable s.write_answers
    → length (not_implemented ++ crlf) ≤ takings s.write_answers
    → Advances (not_implemented ++ crlf) [] s.env_from s (smtp_round hostname fuel s)
unfolding smtp_round handle reply_to
end_round-Advances hostname fuel s e h steady writable enough =
    let (left, result, stays, steady') = get_end fuel crlf s.stream e h steady in
    let i =
      answer-Advances hostname unknown [] (record s { stream = left }) steady' writable enough in
    record {
      next = i.next;
      result =
          ap (after_get (λ t. handle hostname fuel (read_command t) t) s) result
          ∙ ap (λ c. handle hostname fuel c [] (record s { stream = left })) read_command-nil
          ∙ i.result;
      sent = i.sent;
      sender = i.sender;
      stays = i.stays ∙ stays;
      steady = i.steady;
      writable = i.writable;
      takings_left = i.takings_left;
      is_open = i.is_open;
    }

-- When the client has closed its side and nothing is left to read, the session does not end, for any
-- number of rounds, as long as the kernel takes bytes without a refusal but to wait: it sends the reply
-- that the command is not implemented in each round, and keeps the socket open.
pub smtp_rounds_endless :
    (hostname : Bytes) (fuel rounds : ℕ) (s : SmtpSession)
    → coming s.stream ≡ []
    → 0 < fuel
    → IsSteady s.stream.answers
    → IsWritable s.write_answers
    → rounds * length (not_implemented ++ crlf) ≤ takings s.write_answers
    → ((smtp_rounds hostname fuel rounds s).0 ≡ false)
      × ((smtp_rounds hostname fuel rounds s).1.sent
          ≡ s.sent ++ copies rounds (not_implemented ++ crlf))
      × ((smtp_rounds hostname fuel rounds s).1.is_closed ≡ s.is_closed)
unfolding smtp_rounds
smtp_rounds_endless hostname fuel zero s e h steady writable enough =
    (refl, sym (append-nil s.sent), refl)
smtp_rounds_endless hostname fuel (suc rounds) s e h steady writable enough =
    let text = not_implemented ++ crlf in
    let more : length text + rounds * length text ≤ takings s.write_answers =
      omega (arith, enough) in
    let i = end_round-Advances hostname fuel s e h steady writable (omega (arith, more)) in
    let j =
      smtp_rounds_endless hostname fuel rounds i.next i.stays h i.steady i.writable
        (omega (arith, more, i.takings_left)) in
    subst
      (λ o.
        ((after_round (smtp_rounds hostname fuel rounds) o).0 ≡ false)
        × ((after_round (smtp_rounds hostname fuel rounds) o).1.sent
            ≡ s.sent ++ copies (suc rounds) text)
        × ((after_round (smtp_rounds hostname fuel rounds) o).1.is_closed ≡ s.is_closed))
      (sym i.result)
      (
        j.0,
        j.1
            ∙ ap (λ t. t ++ copies rounds text) i.sent
            ∙ append_assoc s.sent text (copies rounds text),
        j.2 ∙ i.is_open,
      )
