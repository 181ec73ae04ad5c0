-- ===== src/Tests/Secure.antt =====
-- The ends of connections over TLS.
use coroplusplus.Common.{
  ◌≡◌, refl, true, false, none, some, List, ◌++◌, [], ◌∷◌, arith, take, inl, inr,
}
use coroplusplus.File.{ewouldblock}
use coroplusplus.File.Descriptor as Descriptor
use coroplusplus.Socket as Socket
use coroplusplus.Tls.Openssl as Openssl
use coroplusplus.Tls.Openssl.Connection as Connection
use coroplusplus.Tls.Openssl.Connection.{NewCalls, accept_connection}
use coroplusplus.Tls.Openssl.Connection.Lifetime.{report, accept_connection-fate}
use coroplusplus.Tls.Openssl.Loops.{ssl_calls_lem}
use coroplusplus.Tls.Openssl.Protocols.{read_protos}
use coroplusplus.Tls.Openssl.Connection.Advertised.{ctx_of, callback-set_ctx_protos}
use coroplusplus.Tls.S2n.Connection as S2nConnection
use coroplusplus.Tls.S2n.Connection.{accept_s2n}
use coroplusplus.Tls.S2n.Connection.Lifetime as S2nLifetime

abbrev calls : NewCalls
calls = record { socket = Descriptor.fails 24; setfl = none; gives_ssl = true; takes_fd = true }

-- The connection 6 behind a wait, and a handshake with a wait that the peer breaks off.
accept_connection-fate_example :
    report (
      accept_connection false
        (Socket.fails ewouldblock none ∷ Socket.gives 6 0 none ∷ [])
        calls
        (Openssl.fails (Openssl.want_read none) ∷ Openssl.gives 0 (Openssl.syscall 104) ∷ []))
    ≡ (Connection.not_shaken (Openssl.os_error Openssl.in_wait_or_error 104), [], 1)
accept_connection-fate_example =
    accept_connection-fate (Socket.fails ewouldblock none ∷ []) 5 0 none [] calls
      (Openssl.fails (Openssl.want_read none) ∷ []) (Openssl.gives 0 (Openssl.syscall 104))
      (Openssl.os_error Openssl.in_wait_or_error 104) [] ((refl, refl), tt) (tt, tt)
      (inr (refl, refl))

-- A handshake that succeeds: the program closes the descriptor when it deletes the connection.
shakes :
    report (
      accept_connection false
        (Socket.gives 6 0 none ∷ [])
        calls
        (Openssl.gives 1 (Openssl.syscall 0) ∷ []))
    ≡ (Connection.accepted, 6 ∷ [], 1)
shakes =
    accept_connection-fate [] 5 0 none [] calls [] (Openssl.gives 1 (Openssl.syscall 0))
      (Openssl.returns 1) [] tt tt (inl (refl, refl))

-- The same over s2n, whose connection is freed, and one with a descriptor that s2n refuses.
abbrev s2n_calls : S2nConnection.NewCalls
s2n_calls = record {
  socket = Descriptor.fails 24;
  setfl = none;
  gives_conn = true;
  takes_config = true;
  takes_fd = true;
}

s2n_accepts :
    S2nLifetime.report (accept_s2n false (Socket.gives 6 0 none ∷ []) s2n_calls)
    ≡ (S2nConnection.accepted, 6 ∷ [], 0)
s2n_accepts = S2nLifetime.accept_s2n-fate [] 5 0 none [] s2n_calls tt

s2n_refuses :
    S2nLifetime.report
      (accept_s2n false (Socket.gives 6 0 none ∷ []) (record s2n_calls { takes_fd = false }))
    ≡ (S2nConnection.not_built S2nConnection.s2n_connection_set_fd, 6 ∷ [], 1)
s2n_refuses = S2nLifetime.accept_s2n-fate [] 5 0 none [] (record s2n_calls { takes_fd = false }) tt

-- "h2", and then "s".
callback-set_ctx_protos_example :
    let c = ctx_of 0 ((104 ∷ 50 ∷ []) ∷ []) ((115 ∷ []) ∷ []) in
    let (out, outlen) = Connection.next_protos_server_callback c in
    (read_protos 2 (take outlen out) ≡ some ((104 ∷ 50 ∷ []) ∷ (115 ∷ []) ∷ []))
    × (c.advertises ≡ true)
unfolding Openssl.set_next_protos Connection.set_ctx_protos
callback-set_ctx_protos_example =
    callback-set_ctx_protos 0 ((104 ∷ 50 ∷ []) ∷ []) ((115 ∷ []) ∷ [])
      (omega arith, (omega arith, tt)) (omega arith)

-- A wait and a 0 with a wait, and an error of the library.
abbrev negative : List Openssl.SslAnswer
negative = Openssl.fails (Openssl.want_read none) ∷ []

abbrev zeros : List Openssl.SslAnswer
zeros = Openssl.gives 0 (Openssl.want_write none) ∷ negative

ssl_calls_lem_example :
    (Openssl.ssl_write false (zeros ++ Openssl.gives 0 (Openssl.syscall 104) ∷ [])
      ≡ (Openssl.os_error Openssl.in_wait_or_error 104, []))
ssl_calls_lem_example =
    (ssl_calls_lem negative zeros [] 7 104 1 336151574 (Openssl.syscall 0) (tt, tt) (tt, (tt, tt))
      (λ e. omega arith)).7.2
