-- ===== src/Echo/Commands.antt =====
-- A session of the echo server whose client says "!bench", "!shutdown" or "!quit" behind its lines.
use coroplusplus.Common.{
  ℕ, suc, ◌+◌, ◌≤◌, ◌<◌, ◌≡◌, refl, ap, sym, ◌∙◌, Bool, true, Option, none, some, List, [], ◌∷◌,
  ◌++◌, arith, length, length-append, append-nil, append_assoc, subst,
}
use coroplusplus.File.{Bytes}
use coroplusplus.File.Stream.{IsSteady}
use coroplusplus.File.Write.{IsWritable, takings, write_bytes-Writes}
use coroplusplus.Demo.{crlf, goes_on, breaks, caught, round_of}
use coroplusplus.Buffer.{Stream}
use coroplusplus.Buffer.Get.{coming}
use coroplusplus.Buffer.Lines.{IsFreeOf, get_line}
use coroplusplus.Echo.{
  EchoSession, send, shut_down, answer_line, after_get, echo_round, after_round, echo_session,
}
use coroplusplus.Echo.Session.{text_of, IsPlain, ArePlain, answer_plain, sent_line}

-- What a session has done when it has come to `next`: it has sent `text`, `rest` is to come, and it has
-- used up one taking for each byte at most.
pub record Advances (text rest : Bytes) (s next : EchoSession) : Type 0 where
  pub sends : next.sent ≡ s.sent ++ text
  pub stays : coming next.stream ≡ rest
  pub steady : IsSteady next.stream.answers
  pub writable : IsWritable next.write_answers
  pub takings_left : takings s.write_answers ≤ takings next.write_answers + length text
  pub others :
      (next.shutdowns ≡ s.shutdowns)
      × (next.benches ≡ s.benches)
      × (next.calls ≡ s.calls)
      × (next.exits ≡ s.exits)

-- A round for a plain line.
line_round :
    (fuel : ℕ) (line rest : Bytes) (s : EchoSession)
    → coming s.stream ≡ line ++ (crlf ++ rest)
    → IsPlain line
    → length (coming s.stream) < fuel
    → IsSteady s.stream.answers
    → IsWritable s.write_answers
    → length (line ++ crlf) ≤ takings s.write_answers
    → (next : EchoSession) × Advances (line ++ crlf) rest s next
      × (echo_round fuel s ≡ (goes_on, next))
unfolding echo_round
line_round fuel line rest s e plain h steady writable enough =
    let (left, result, stays, steady') =
      get_line fuel 13 (10 ∷ []) line rest s.stream e plain.0 h steady in
    let w = write_bytes-Writes (line ++ crlf) s.write_answers s.sent writable enough in
    let next : EchoSession = record s {
      stream = left;
      write_answers = w.left;
      sent = s.sent ++ (line ++ crlf);
    } in
    (
      next,
      record {
        sends = refl;
        stays = stays;
        steady = steady';
        writable = w.writable;
        takings_left = w.takings_left;
        others = (refl, refl, refl, refl);
      },
      ap (after_get s) result
          ∙ answer_plain (line ++ crlf) (record s { stream = left }) plain.1
          ∙ sent_line line s left w.left w.result,
    )

-- The rounds for plain lines.
pub echo_session-Advances :
    (fuel rounds : ℕ) (lines : List Bytes) (rest : Bytes) (s : EchoSession)
    → coming s.stream ≡ text_of lines ++ rest
    → ArePlain lines
    → length (coming s.stream) < fuel
    → IsSteady s.stream.answers
    → IsWritable s.write_answers
    → length (text_of lines) ≤ takings s.write_answers
    → (next : EchoSession) × Advances (text_of lines) rest s next
      × (echo_session fuel (length lines + rounds) s ≡ echo_session fuel rounds next)
unfolding echo_session
echo_session-Advances fuel rounds [] rest s e plain h steady writable enough = (
  s,
  record {
    sends = sym (append-nil s.sent);
    stays = e;
    steady = steady;
    writable = writable;
    takings_left = omega arith;
    others = (refl, refl, refl, refl);
  },
  ap (λ n. echo_session fuel n s) {x = length {A = Bytes} [] + rounds} (omega arith),
)
echo_session-Advances fuel rounds (line ∷ lines) rest s e plain h steady writable enough =
    let behind = text_of lines ++ rest in
    let e' =
      e
      ∙ append_assoc line (crlf ++ text_of lines) rest
      ∙ ap (λ t. line ++ t) (append_assoc crlf (text_of lines) rest) in
    let total = length-append line (crlf ++ text_of lines) in
    let whole = length-append line crlf in
    let (s', a, round) =
      line_round fuel line behind s e' plain.0 h steady writable (omega (arith, total, whole)) in
    let fewer = length-append line (crlf ++ behind) in
    let (next, b, rounds') =
      echo_session-Advances fuel rounds lines rest s' a.stays plain.1
        (omega (arith, fewer, ap length e', ap length a.stays)) a.steady a.writable
        (omega (arith, total, whole, a.takings_left)) in
    let more : length (line ∷ lines) + rounds ≡ suc (length lines + rounds) = omega arith in
    (
      next,
      record {
        sends =
            b.sends
            ∙ ap (λ t. t ++ text_of lines) a.sends
            ∙ append_assoc s.sent (line ++ crlf) (text_of lines)
            ∙ ap (λ t. s.sent ++ t) (append_assoc line crlf (text_of lines));
        stays = b.stays;
        steady = b.steady;
        writable = b.writable;
        takings_left = omega (arith, total, whole, a.takings_left, b.takings_left);
        others = (
          b.others.0 ∙ a.others.0,
          b.others.1 ∙ a.others.1,
          b.others.2 ∙ a.others.2,
          b.others.3 ∙ a.others.3,
        );
      },
      ap (λ n. echo_session fuel n s) more
          ∙ ap (after_round (echo_session fuel (length lines + rounds))) round
          ∙ rounds',
    )

-- The line of a command is read.
command_round :
    (fuel : ℕ) (line rest : Bytes) (s : EchoSession)
    → coming s.stream ≡ line ++ (crlf ++ rest)
    → IsFreeOf 13 line
    → length (coming s.stream) < fuel
    → IsSteady s.stream.answers
    → (left : Stream) × (echo_round fuel s
        ≡ answer_line (line ++ crlf) (record s { stream = left }))
      × (coming left ≡ rest)
      × IsSteady left.answers
unfolding echo_round
command_round fuel line rest s e free h steady =
    let (left, result, stays, steady') =
      get_line fuel 13 (10 ∷ []) line rest s.stream e free h steady in
    (left, ap (after_get s) result, stays, steady')

-- The session came to its end with the socket closed, and has sent `text`; `exits` tells whether it has
-- called `coro::exit`.
abbrev pub Ends : Bytes → Bool → EchoSession → Bool × EchoSession → Type 0
Ends text exits s o =
    (o.0 ≡ true) × (o.1.sent ≡ s.sent ++ text) × (o.1.is_closed ≡ true) × (o.1.exits ≡ exits)

pub quit-Ends :
    (fuel rounds : ℕ) (more rest : Bytes) (s : EchoSession)
    → coming s.stream ≡ (33 ∷ 113 ∷ more) ++ (crlf ++ rest)
    → IsFreeOf 13 more
    → length (coming s.stream) < fuel
    → IsSteady s.stream.answers
    → s.shutdowns s.calls ≡ none
    → Ends [] s.exits s (echo_session fuel (suc rounds) s)
unfolding echo_session answer_line shut_down
quit-Ends fuel rounds more rest s e free h steady down =
    let (left, round, stays, steady') =
      command_round fuel (33 ∷ 113 ∷ more) rest s e (λ e. omega arith, (λ e. omega arith, free)) h
        steady in
    let s' : EchoSession = record s { stream = left } in
    subst (λ o. Ends [] s.exits s (after_round (echo_session fuel rounds) o))
      (sym (
        round
        ∙ ap
            (λ (d : Option ℕ). elim d [
              | none ↦ (breaks, record s' { is_closed = true; calls = s.calls + 1 })
              | some errno ↦ (caught, record s' { calls = s.calls + 1 })
            ])
            down))
      (refl, sym (append-nil s.sent), refl, refl)

pub shutdown-Ends :
    (fuel rounds : ℕ) (more rest : Bytes) (s : EchoSession)
    → coming s.stream ≡ (33 ∷ 115 ∷ more) ++ (crlf ++ rest)
    → IsFreeOf 13 more
    → length (coming s.stream) < fuel
    → IsSteady s.stream.answers
    → s.shutdowns s.calls ≡ none
    → Ends [] true s (echo_session fuel (suc rounds) s)
unfolding echo_session answer_line shut_down
shutdown-Ends fuel rounds more rest s e free h steady down =
    let (left, round, stays, steady') =
      command_round fuel (33 ∷ 115 ∷ more) rest s e (λ e. omega arith, (λ e. omega arith, free)) h
        steady in
    let s' : EchoSession = record s { stream = left } in
    subst (λ o. Ends [] true s (after_round (echo_session fuel rounds) o))
      (sym (
        round
        ∙ ap
            (λ (d : Option ℕ). elim d [
              | none ↦ (breaks, record s' { is_closed = true; exits = true; calls = s.calls + 1 })
              | some errno ↦ (caught, record s' { calls = s.calls + 1 })
            ])
            down))
      (refl, sym (append-nil s.sent), refl, refl)

-- A round for "!bench", which sends the text of the benchmark.
pub record Benches (text rest : Bytes) (s next : EchoSession) : Type 0 where
  pub sends : next.sent ≡ s.sent ++ text
  pub stays : coming next.stream ≡ rest
  pub steady : IsSteady next.stream.answers
  pub counts : (next.shutdowns ≡ s.shutdowns) × (next.calls ≡ s.calls + 1)

pub bench-Benches :
    (fuel rounds : ℕ) (more rest : Bytes) (s : EchoSession)
    → coming s.stream ≡ (33 ∷ 98 ∷ more) ++ (crlf ++ rest)
    → IsFreeOf 13 more
    → length (coming s.stream) < fuel
    → IsSteady s.stream.answers
    → IsWritable s.write_answers
    → length (s.benches s.calls) ≤ takings s.write_answers
    → (next : EchoSession) × Benches (s.benches s.calls) rest s next
      × (echo_session fuel (suc rounds) s ≡ echo_session fuel rounds next)
unfolding echo_session answer_line send
bench-Benches fuel rounds more rest s e free h steady writable enough =
    let (left, round, stays, steady') =
      command_round fuel (33 ∷ 98 ∷ more) rest s e (λ e. omega arith, (λ e. omega arith, free)) h
        steady in
    let text = s.benches s.calls in
    let w = write_bytes-Writes text s.write_answers s.sent writable enough in
    let s' : EchoSession = record s { stream = left; calls = s.calls + 1 } in
    (
      record s' { write_answers = w.left; sent = s.sent ++ text },
      record { sends = refl; stays = stays; steady = steady'; counts = (refl, refl) },
      ap (after_round (echo_session fuel rounds)) (
          round
          ∙ ap (λ o. (round_of o.0 goes_on, record s' { write_answers = o.1; sent = o.2 }))
              w.result),
    )
