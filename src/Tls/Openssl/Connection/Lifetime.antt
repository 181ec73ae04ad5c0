-- ===== src/Tls/Openssl/Connection/Lifetime.antt =====
-- What `accept` of an OpenSSL socket leaves behind.
use coroplusplus.Common.{
  ℕ, suc, ◌≡◌, refl, ap, ◌∙◌, Bool, true, false, Option, none, some, List, [], ◌∷◌, ◌++◌, All,
  if◌then◌else◌,
}
use coroplusplus.File.Descriptor.{new_socket, destroy, close}
use coroplusplus.File.Descriptor.Lifetime.{closed}
use coroplusplus.Socket as Socket
use coroplusplus.Socket.{AcceptAnswer, SocketEnd, accept}
use coroplusplus.Socket.Accept.{IsNobody, accept-EndsAccept}
use coroplusplus.Tls.Openssl.{
  SslAnswer, SslResult, returns, os_error, ssl_error, yield_from_main, stuck, positive, ssl_accept,
}
use coroplusplus.Tls.Openssl.Retry.{GoesOn, EndsWith, ssl_loop-EndsWith}
use coroplusplus.Tls.Openssl.Connection.{
  ssl_new, ssl_set_fd, SslConnection, NewCalls, with_ssl, new_ssl_connection, delete_ssl, SslAccept,
  accepted, not_accepted, not_built, not_shaken, no_socket, shake, after_accept, accept_connection,
}

-- How a call of `accept` ended, the descriptors that were closed when the program deleted the connection,
-- if it was given one, and how many objects of SSL_new are there then.
abbrev pub Report : Type 0
Report = SslAccept × List ℕ × ℕ

abbrev pub report_of : SslAccept → Option SslConnection → Report
report_of how none = (how, [], 0)
report_of how (some c) = (how, closed c.file.closes, if c.has_ssl then 1 else 0)

abbrev pub report : SslAccept × Option SslConnection → Report
report (accepted, none) = report_of accepted none
report (accepted, some c) = report_of accepted (some (delete_ssl c))
report (not_accepted e, c) = report_of (not_accepted e) c
report (not_built fun, c) = report_of (not_built fun) c
report (not_shaken r, c) = report_of (not_shaken r) c
report (no_socket x, c) = report_of (no_socket x) c

-- What becomes of the descriptor, by the results of SSL_new and SSL_set_fd and the end of the handshake.
abbrev pub fate : Bool → Bool → SslResult → ℕ → Report
fate false takes r d = (not_built ssl_new, d ∷ [], 0)
fate true false r d = (not_built ssl_set_fd, d ∷ [], 1)
fate true true (returns n) d = (accepted, d ∷ [], 1)
fate true true (os_error call e) d = (not_shaken (os_error call e), [], 1)
fate true true (ssl_error e) d = (not_shaken (ssl_error e), [], 1)
fate true true yield_from_main d = (not_shaken yield_from_main, [], 1)
fate true true stuck d = (not_shaken stuck, [], 1)

shake-fate :
    (gives takes : Bool) (d : ℕ) (c : NewCalls) (r : SslResult) (handshake : List SslAnswer)
    → (ssl_accept false handshake).0 ≡ r
    → report (shake false handshake (with_ssl gives takes (new_socket (some d) c.socket c.setfl)))
      ≡ fate gives takes r d
unfolding shake with_ssl new_socket destroy close delete_ssl
shake-fate false takes d c r handshake e = refl
shake-fate true false d c r handshake e = refl
shake-fate true true d c (returns n) handshake e = rw e refl
shake-fate true true d c (os_error call n) handshake e = rw e refl
shake-fate true true d c (ssl_error n) handshake e = rw e refl
shake-fate true true d c yield_from_main handshake e = rw e refl
shake-fate true true d c stuck handshake e = rw e refl

-- Outside the main coroutine, if ::accept gives a positive descriptor, at once or behind waits that end
-- without an error, then `accept` of an OpenSSL socket returns a connection on it exactly if SSL_new and
-- SSL_set_fd succeed and the handshake ends with a positive result, behind waits of its own. The program
-- that deletes this connection closes the descriptor, once. If SSL_new or SSL_set_fd fails, `accept` throws
-- that and has closed the descriptor, once. If the handshake fails, `accept` throws its error, and the
-- descriptor is never closed. The object of SSL_new, if there is one, is never freed.
pub accept_connection-fate :
    (waits : List AcceptAnswer) (fd errno : ℕ) (w : Option ℕ) (others : List AcceptAnswer)
    (c : NewCalls) (handshake : List SslAnswer) (a : SslAnswer) (r : SslResult)
    (rest : List SslAnswer)
    → All IsNobody waits
    → All (GoesOn positive) handshake
    → EndsWith positive a r
    → report (
        accept_connection false
          (waits ++ Socket.gives (suc fd) errno w ∷ others)
          c
          (handshake ++ a ∷ rest))
      ≡ fate c.gives_ssl c.takes_fd r (suc fd)
unfolding accept_connection new_ssl_connection ssl_accept
accept_connection-fate waits fd errno w others c handshake a r rest nobody goes ends =
    ap
      (λ (o : SocketEnd × List AcceptAnswer).
        report (after_accept false c (handshake ++ a ∷ rest) o.0))
      (accept-EndsAccept waits (Socket.gives (suc fd) errno w) (Socket.returns (suc fd)) others
        nobody refl)
    ∙ shake-fate c.gives_ssl c.takes_fd (suc fd) c r (handshake ++ a ∷ rest) (
        ap (λ (o : SslResult × List SslAnswer). o.0)
          (ssl_loop-EndsWith positive handshake a r rest goes ends))
