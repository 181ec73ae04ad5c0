-- ===== src/Tls/S2n/Connection.antt =====
-- coro_s2n.h: the configurations and the connections of s2n, from their constructors to their destructors.
pub mod Lifetime
use coroplusplus.Common.{ℕ, Bool, true, false, Option, none, some, List, suc, if◌then◌else◌}
use coroplusplus.File.Descriptor as Descriptor
use coroplusplus.File.Descriptor.{FileObject, SocketAnswer, Failure, Built, destroy, new_socket}
use coroplusplus.Socket as Socket
use coroplusplus.Socket.{AcceptAnswer, SocketEnd, accept}

-- The function that the `S2N_Error` of a constructor names.
pub data S2nFun : Type 0 where
  s2n_config_new s2n_config_add_cert_chain_and_key s2n_connection_new s2n_connection_set_config
        s2n_connection_set_fd :
      S2nFun

-- `coro_s2n_cfg`: whether `_cfg` is there, and how often it was freed.
pub record S2nConfig : Type 0 where
  pub has_cfg : Bool
  pub frees : ℕ

-- What a constructor leaves; behind an exception, no destructor of its own is called.
pub data ConfigBuilt : Type 0 where
  configured : S2nConfig → ConfigBuilt
  thrown_config : S2nFun → S2nConfig → ConfigBuilt

-- `coro_s2n_cfg (…)`, by which of its two calls succeed
unfoldable pub new_config : Bool → Bool → ConfigBuilt
new_config false adds = thrown_config s2n_config_new (record { has_cfg = false; frees = 0 })
new_config true false =
    thrown_config s2n_config_add_cert_chain_and_key (record { has_cfg = true; frees = 0 })
new_config true true = configured (record { has_cfg = true; frees = 0 })

-- `~coro_s2n_cfg`
unfoldable pub destroy_config : S2nConfig → S2nConfig
destroy_config c = if c.has_cfg then record c { frees = suc c.frees } else c

-- `coro_s2n`: the part of `coro_file`, whether `_conn` is there, how often it was freed, and `_negotiated`.
pub record S2nObject : Type 0 where
  pub file : FileObject
  pub has_conn : Bool
  pub frees : ℕ
  pub negotiated : Bool

-- What the calls of the constructor answer: ::socket, ::fcntl, and those of the library.
pub record NewCalls : Type 0 where
  pub socket : SocketAnswer
  pub setfl : Option ℕ
  pub gives_conn : Bool
  pub takes_config : Bool
  pub takes_fd : Bool

-- Behind an exception, the destructor of the base class has been called.
pub data S2nBuilt : Type 0 where
  connected : S2nObject → S2nBuilt
  thrown_s2n : S2nFun → S2nObject → S2nBuilt
  thrown_socket : Failure → FileObject → S2nBuilt

abbrev pub new_object : FileObject → Bool → S2nObject
new_object o has_conn = record { file = o; has_conn = has_conn; frees = 0; negotiated = false }

-- The body of `coro_s2n (cfg, fd, mode)`, behind the constructor of the base class.
unfoldable pub with_conn : Bool → Bool → Bool → Built → S2nBuilt
unfolding destroy
with_conn gives config fd (Descriptor.thrown x o) = thrown_socket x o
with_conn false config fd (Descriptor.built o) =
    thrown_s2n s2n_connection_new (new_object (destroy o) false)
with_conn true false fd (Descriptor.built o) =
    thrown_s2n s2n_connection_set_config (new_object (destroy o) true)
with_conn true true false (Descriptor.built o) =
    thrown_s2n s2n_connection_set_fd (new_object (destroy o) true)
with_conn true true true (Descriptor.built o) = connected (new_object o true)

-- `coro_s2n (cfg, fd, mode)`, where the descriptor `none` is -1
unfoldable pub new_s2n_connection : Option ℕ → NewCalls → S2nBuilt
unfolding new_socket with_conn
new_s2n_connection fd c =
    with_conn c.gives_conn c.takes_config c.takes_fd (new_socket fd c.socket c.setfl)

-- `~coro_s2n`, and behind it that of the base class
unfoldable pub delete_s2n : S2nObject → S2nObject
unfolding destroy
delete_s2n c =
    if c.has_conn
    then record c { file = destroy c.file; frees = suc c.frees }
    else record c { file = destroy c.file }

-- How `coro_s2n::accept` ends: with the new connection, or with what ended ::accept or the constructor.
pub data S2nAccept : Type 0 where
  accepted : S2nAccept
  not_accepted : SocketEnd → S2nAccept
  not_built : S2nFun → S2nAccept
  no_socket : Failure → S2nAccept

abbrev pub built_accept : S2nBuilt → S2nAccept × Option S2nObject
built_accept (connected c) = (accepted, some c)
built_accept (thrown_s2n fun c) = (not_built fun, some c)
built_accept (thrown_socket x o) = (no_socket x, none)

-- `coro_s2n::accept`, behind `_accept`. With its end comes the connection that it made, also one that it
-- does not return.
abbrev pub after_accept : NewCalls → SocketEnd → S2nAccept × Option S2nObject
after_accept c (Socket.returns fd) = built_accept (new_s2n_connection (some fd) c)
after_accept c (Socket.os_error call e) = (not_accepted (Socket.os_error call e), none)
after_accept c Socket.yield_from_main = (not_accepted Socket.yield_from_main, none)
after_accept c Socket.stuck = (not_accepted Socket.stuck, none)

unfoldable pub accept_s2n : Bool → List AcceptAnswer → NewCalls → S2nAccept × Option S2nObject
unfolding accept new_s2n_connection
accept_s2n main ans c = after_accept c (accept main ans).0
