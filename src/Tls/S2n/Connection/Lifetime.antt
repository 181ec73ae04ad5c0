-- ===== src/Tls/S2n/Connection/Lifetime.antt =====
-- What `accept` of an s2n socket leaves behind.
use coroplusplus.Common.{
  ℕ, suc, ◌-◌, ◌≡◌, refl, ap, ◌∙◌, Bool, true, false, Option, none, some, List, [], ◌∷◌, ◌++◌, All,
  if◌then◌else◌,
}
use coroplusplus.File.Descriptor.{new_socket, destroy, close}
use coroplusplus.File.Descriptor.Lifetime.{closed}
use coroplusplus.Socket as Socket
use coroplusplus.Socket.{AcceptAnswer, SocketEnd, accept}
use coroplusplus.Socket.Accept.{IsNobody, accept-EndsAccept}
use coroplusplus.Tls.S2n.Connection.{
  s2n_connection_new, s2n_connection_set_config, s2n_connection_set_fd, S2nObject, NewCalls,
  with_conn, new_s2n_connection, delete_s2n, S2nAccept, accepted, not_accepted, not_built,
  no_socket, built_accept, after_accept, accept_s2n,
}

-- How a call of `accept` ended, and, when the program has deleted the connection, if it was given one, the
-- descriptors that were closed and how many objects of s2n_connection_new are not freed.
abbrev pub Report : Type 0
Report = S2nAccept × List ℕ × ℕ

abbrev pub report_of : S2nAccept → Option S2nObject → Report
report_of how none = (how, [], 0)
report_of how (some c) = (how, closed c.file.closes, (if c.has_conn then 1 else 0) - c.frees)

abbrev pub report : S2nAccept × Option S2nObject → Report
report (accepted, none) = report_of accepted none
report (accepted, some c) = report_of accepted (some (delete_s2n c))
report (not_accepted e, c) = report_of (not_accepted e) c
report (not_built fun, c) = report_of (not_built fun) c
report (no_socket x, c) = report_of (no_socket x) c

-- What becomes of the descriptor and the object, by the results of the library's three calls.
abbrev pub fate : Bool → Bool → Bool → ℕ → Report
fate false config fd d = (not_built s2n_connection_new, d ∷ [], 0)
fate true false fd d = (not_built s2n_connection_set_config, d ∷ [], 1)
fate true true false d = (not_built s2n_connection_set_fd, d ∷ [], 1)
fate true true true d = (accepted, d ∷ [], 0)

built_accept-fate :
    (gives config fd : Bool) (d : ℕ) (c : NewCalls)
    → report (built_accept (with_conn gives config fd (new_socket (some d) c.socket c.setfl)))
      ≡ fate gives config fd d
unfolding with_conn new_socket destroy close delete_s2n
built_accept-fate false config fd d c = refl
built_accept-fate true false fd d c = refl
built_accept-fate true true false d c = refl
built_accept-fate true true true d c = refl

-- Outside the main coroutine, if ::accept gives a positive descriptor, at once or behind waits that end
-- without an error, then `accept` of an s2n socket returns a connection on it exactly if the three calls of
-- the constructor succeed; else it throws the first that fails. In each case the descriptor is closed once,
-- by the program that deletes the connection or behind the exception. The library's object is freed with
-- the connection, and is never freed if the configuration or the descriptor is refused.
pub accept_s2n-fate :
    (waits : List AcceptAnswer) (fd errno : ℕ) (w : Option ℕ) (others : List AcceptAnswer)
    (c : NewCalls)
    → All IsNobody waits
    → report (accept_s2n false (waits ++ Socket.gives (suc fd) errno w ∷ others) c)
      ≡ fate c.gives_conn c.takes_config c.takes_fd (suc fd)
unfolding accept_s2n new_s2n_connection
accept_s2n-fate waits fd errno w others c nobody =
    ap (λ (o : SocketEnd × List AcceptAnswer). report (after_accept c o.0))
      (accept-EndsAccept waits (Socket.gives (suc fd) errno w) (Socket.returns (suc fd)) others
        nobody refl)
    ∙ built_accept-fate c.gives_conn c.takes_config c.takes_fd (suc fd) c
