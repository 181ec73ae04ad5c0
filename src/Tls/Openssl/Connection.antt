-- ===== src/Tls/Openssl/Connection.antt =====
-- coro_openssl.h: the contexts and the connections of OpenSSL, from their constructors to the end of
-- their life. An object of the library is only whether there is one.
pub mod Advertised
pub mod Lifetime
use Prim.Native.Nat.{bit_or}
use coroplusplus.Common.{
  ◌%◌, ◌^◌, ℕ, Bool, true, false, Option, none, some, List, [], ◌∷◌, ◌++◌, length, take,
  if◌then◌else◌, suc,
}
use coroplusplus.File.{Bytes}
use coroplusplus.File.Descriptor as Descriptor
use coroplusplus.File.Descriptor.{
  FileObject, SocketAnswer, Failure, Built, destroy, new_socket, listen,
}
use coroplusplus.Socket as Socket
use coroplusplus.Socket.{AcceptAnswer, SocketEnd, accept}
use coroplusplus.Tls.Openssl.{
  SslAnswer, SslResult, returns, os_error, ssl_error, yield_from_main, stuck, set_next_protos,
  ssl_accept,
}

-- The function that the `SSL_Error` of a constructor names.
pub data SslFun : Type 0 where
  ssl_ctx_new ssl_ctx_use_certificate_chain_file ssl_ctx_use_private_key_file ssl_new ssl_set_fd :
      SslFun

-- `coro_ssl_ctx`: whether `_ctx` is there, its options, the text of `_next_protos`, whether the library
-- has been told of it, and how often SSL_CTX_free was called.
pub record SslCtx : Type 0 where
  pub has_ctx : Bool
  pub options : ℕ
  pub next_protos : Bytes
  pub advertises : Bool
  pub frees : ℕ

-- What a constructor leaves: the object, or an exception, behind which no destructor of its own is called.
pub data CtxBuilt : Type 0 where
  built : SslCtx → CtxBuilt
  thrown : SslFun → SslCtx → CtxBuilt

abbrev pub fresh_ctx : Bool → ℕ → SslCtx
fresh_ctx has_ctx options = record {
  has_ctx = has_ctx;
  options = options;
  next_protos = [];
  advertises = false;
  frees = 0;
}

-- `coro_ssl_ctx (combined_file)`, by which of its three calls succeed and the options of a new context.
unfoldable pub new_ctx : Bool → Bool → Bool → ℕ → CtxBuilt
new_ctx false chain key options = thrown ssl_ctx_new (fresh_ctx false 0)
new_ctx true false key options = thrown ssl_ctx_use_certificate_chain_file (fresh_ctx true options)
new_ctx true true false options = thrown ssl_ctx_use_private_key_file (fresh_ctx true options)
new_ctx true true true options = built (fresh_ctx true options)

-- `~coro_ssl_ctx`
unfoldable pub destroy_ctx : SslCtx → SslCtx
destroy_ctx c = if c.has_ctx then record c { frees = suc c.frees } else c

-- `set_proto`
unfoldable pub set_proto : ℕ → SslCtx → SslCtx
set_proto proto c = record c { options = bit_or c.options proto }

-- `set_next_protos`, with the call that names the callback.
unfoldable pub set_ctx_protos : List Bytes → SslCtx → SslCtx
unfolding set_next_protos
set_ctx_protos ps c = record c { next_protos = set_next_protos c.next_protos ps; advertises = true }

-- `next_protos_server_callback`: what lies behind `*out`, with the NUL of `c_str`, and `*outlen`, an
-- `unsigned int` of 32 bits.
unfoldable pub next_protos_server_callback : SslCtx → Bytes × ℕ
next_protos_server_callback c = (c.next_protos ++ 0 ∷ [], length c.next_protos % 2 ^ 32)

-- `coro_ssl`: the part of `coro_file`, whether `_ssl` is there, and whether it is to accept. No call frees
-- `_ssl`.
pub record SslConnection : Type 0 where
  pub file : FileObject
  pub has_ssl : Bool
  pub accepts : Bool

-- What the calls of the constructor answer: ::socket, ::fcntl, SSL_new and SSL_set_fd.
pub record NewCalls : Type 0 where
  pub socket : SocketAnswer
  pub setfl : Option ℕ
  pub gives_ssl : Bool
  pub takes_fd : Bool

-- Behind an exception, the destructor of the base class has been called.
pub data SslBuilt : Type 0 where
  connected : SslConnection → SslBuilt
  thrown_ssl : SslFun → SslConnection → SslBuilt
  thrown_socket : Failure → FileObject → SslBuilt

-- The body of `coro_ssl (ctx, fd)`, behind the constructor of the base class.
unfoldable pub with_ssl : Bool → Bool → Built → SslBuilt
unfolding destroy
with_ssl gives takes (Descriptor.thrown x o) = thrown_socket x o
with_ssl false takes (Descriptor.built o) =
    thrown_ssl ssl_new (record { file = destroy o; has_ssl = false; accepts = false })
with_ssl true false (Descriptor.built o) =
    thrown_ssl ssl_set_fd (record { file = destroy o; has_ssl = true; accepts = false })
with_ssl true true (Descriptor.built o) =
    connected (record { file = o; has_ssl = true; accepts = false })

-- `coro_ssl (ctx, fd)`, where `none` is -1
unfoldable pub new_ssl_connection : Option ℕ → NewCalls → SslBuilt
unfolding new_socket with_ssl
new_ssl_connection fd c = with_ssl c.gives_ssl c.takes_fd (new_socket fd c.socket c.setfl)

-- `get_next_proto_negotiated`, of what SSL_get0_next_proto_negotiated gives
unfoldable pub get_next_proto_negotiated : Bytes → ℕ → Bytes
get_next_proto_negotiated p len = take len p

-- `delete`; `coro_ssl` has no destructor of its own.
unfoldable pub delete_ssl : SslConnection → SslConnection
unfolding destroy
delete_ssl c = record c { file = destroy c.file }

-- `coro_ssl::listen`, by the errno of ::listen, if it fails
unfoldable pub ssl_listen : Option ℕ → SslConnection → Option Failure × SslConnection
unfolding listen
ssl_listen errno c = elim (listen errno) [
  | none ↦ (none, record c { accepts = true })
  | some x ↦ (some x, c)
]

-- How `coro_ssl::accept` ends: with the new connection, or with what ended ::accept, the constructor or
-- the handshake.
pub data SslAccept : Type 0 where
  accepted : SslAccept
  not_accepted : SocketEnd → SslAccept
  not_built : SslFun → SslAccept
  not_shaken : SslResult → SslAccept
  no_socket : Failure → SslAccept

abbrev pub accept_of : SslResult → SslAccept
accept_of (returns n) = accepted
accept_of (os_error call e) = not_shaken (os_error call e)
accept_of (ssl_error e) = not_shaken (ssl_error e)
accept_of yield_from_main = not_shaken yield_from_main
accept_of stuck = not_shaken stuck

-- The new connection, and `ssl_accept` on it.
unfoldable pub shake : Bool → List SslAnswer → SslBuilt → SslAccept × Option SslConnection
unfolding ssl_accept
shake main handshake (connected c) = (accept_of (ssl_accept main handshake).0, some c)
shake main handshake (thrown_ssl fun c) = (not_built fun, some c)
shake main handshake (thrown_socket x o) = (no_socket x, none)

-- `coro_ssl::accept`, whose loop is that of `coro_socket::_accept`, by the answers of ::accept, of the
-- constructor's calls and of SSL_accept. With its end comes the connection that it made, also one that it
-- does not return.
abbrev pub after_accept :
    Bool → NewCalls → List SslAnswer → SocketEnd → SslAccept × Option SslConnection
after_accept main c handshake (Socket.returns fd) =
    shake main handshake (new_ssl_connection (some fd) c)
after_accept main c handshake (Socket.os_error call e) =
    (not_accepted (Socket.os_error call e), none)
after_accept main c handshake Socket.yield_from_main = (not_accepted Socket.yield_from_main, none)
after_accept main c handshake Socket.stuck = (not_accepted Socket.stuck, none)

unfoldable pub accept_connection :
    Bool → List AcceptAnswer → NewCalls → List SslAnswer → SslAccept × Option SslConnection
unfolding accept new_ssl_connection shake
accept_connection main ans c handshake = after_accept main c handshake (accept main ans).0
