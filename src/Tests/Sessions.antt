-- ===== src/Tests/Sessions.antt =====
-- Sessions of the echo server, and connections behind TLS.
use coroplusplus.Common.{
  read_block, write_block, update, ◌≡◌, ◌≤◌, refl, false, none, some, List, [], ◌∷◌, arith,
}
use coroplusplus.File.{Bytes, arrives, takes, ewouldblock}
use coroplusplus.Buffer.{Stream, get, fill, scan}
use coroplusplus.Echo.{EchoSession, echo_session, echo_round, answer_line}
use coroplusplus.Echo.Session.{Echoes, text_of, echo_session-Echoes}
use coroplusplus.Echo.Message.{IsJunkified, junkify_buffer-IsPlain}
use coroplusplus.Tls.Openssl as Openssl
use coroplusplus.Tls.Openssl.Protocols.{read_protos, read_protos-set_next_protos}
use coroplusplus.Tls.S2n as S2n
use coroplusplus.Tls.S2n.Transfer.{Holds, s2n_read-Reads}

-- "hi" and "a", of which some bytes are buffered.
abbrev lines : List Bytes
lines = (104 ∷ 105 ∷ []) ∷ (97 ∷ []) ∷ []

abbrev echo_stream : Stream
echo_stream = record {
  buffer = 104 ∷ 105 ∷ [];
  answers = arrives (13 ∷ 10 ∷ 97 ∷ []) ∷ arrives (13 ∷ 10 ∷ []) ∷ [];
}

abbrev echo_client : EchoSession
echo_client = record {
  stream = echo_stream;
  write_answers = takes 8 ∷ takes 1 ∷ takes 1 ∷ takes 8 ∷ takes 8 ∷ takes 8 ∷ takes 8 ∷ [];
  sent = [];
  shutdowns = λ n. none;
  benches = λ n. [];
  calls = 0;
  is_closed = false;
  exits = false;
}

echo_session-Echoes_example : Echoes (text_of lines) echo_client (echo_session 8 3 echo_client)
echo_session-Echoes_example =
    echo_session-Echoes 8 3 lines echo_client refl
      (
        ((λ e. omega arith, (λ e. omega arith, tt)), λ e. omega arith),
        (((λ e. omega arith, tt), λ e. omega arith), tt),
      )
      (omega arith) (omega arith) (λ e. cc, (λ e. cc, tt)) tt (omega arith)

junkify_buffer-IsPlain_example : IsJunkified 7
junkify_buffer-IsPlain_example = junkify_buffer-IsPlain 7 (omega arith)

protocols_return :
    read_protos 2 (Openssl.set_next_protos [] ((104 ∷ 50 ∷ []) ∷ (115 ∷ []) ∷ []))
    ≡ some ((104 ∷ 50 ∷ []) ∷ (115 ∷ []) ∷ [])
protocols_return =
    read_protos-set_next_protos ((104 ∷ 50 ∷ []) ∷ (115 ∷ []) ∷ []) (omega arith, (omega arith, tt))

abbrev s2n_peer : S2n.S2nConnection
s2n_peer = record {
  is_negotiated = false;
  answers =
      S2n.fails ewouldblock (S2n.blocked_on_read none)
      ∷ S2n.gives 0 S2n.not_blocked
      ∷ S2n.gives 2 (S2n.blocked_on_write none)
      ∷ S2n.gives 3 S2n.not_blocked
      ∷ [];
  coming = 7 ∷ 8 ∷ 9 ∷ [];
  sent = [];
}

s2n_read-Reads_example :
    let (e, nbytes, buffer, c) = S2n.s2n_read false 3 (λ i. i) s2n_peer in
    (nbytes ≤ 3) × Holds (λ i. i) (7 ∷ 8 ∷ 9 ∷ []) (buffer, c.coming) nbytes × (c.sent ≡ [])
s2n_read-Reads_example = s2n_read-Reads false 3 (λ i. i) s2n_peer

-- The first call of s2n_recv gives two bytes, and the second one gives the third.
s2n_reads :
    let (e, nbytes, buffer, c) = S2n.s2n_read false 3 (λ i. i) s2n_peer in
    (nbytes ≡ 3) × (read_block buffer 0 4 ≡ 7 ∷ 8 ∷ 9 ∷ 3 ∷ [])
unfolding S2n.s2n_read S2n.check_negotiate S2n.s2n_loop S2n.wait_on_event read_block write_block
    update
s2n_reads = (refl, refl)

-- "hi", then "!q" and a line that is not read.
echo_quits :
    (echo_session 9 9 (record echo_client {
      stream = record {
        buffer = 104 ∷ 105 ∷ 13 ∷ 10 ∷ 33 ∷ 113 ∷ 13 ∷ 10 ∷ 97 ∷ 13 ∷ 10 ∷ [];
        answers = [];
      };
    })).1.sent
    ≡ 104 ∷ 105 ∷ 13 ∷ 10 ∷ []
unfolding echo_session echo_round get fill scan answer_line
echo_quits = refl
