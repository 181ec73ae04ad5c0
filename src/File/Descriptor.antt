-- ===== src/File/Descriptor.antt =====
-- coro_file.h and coro_socket.h: the descriptor of a `coro_file`, from the constructor of a `coro_socket` to
-- the destructor.
pub mod Lifetime
use Prim.Native.Nat.{bit_or}
use coroplusplus.Common.{ℕ, Bool, true, false, not, Option, none, some, List, [], ◌∷◌, ◌++◌}

-- `_fd`, where `none` is -1, the calls of ::close so far, and the flag O_NDELAY of the descriptor, if
-- `set_blocking` has set it.
pub record FileObject : Type 0 where
  pub fd : Option ℕ
  pub closes : List (Option ℕ)
  pub ndelay : Option Bool

-- `coro_file ()`, whose descriptor is 0, and `coro_file (fd)`
abbrev pub default_file : FileObject
default_file = record { fd = some 0; closes = []; ndelay = none }

unfoldable pub new_file : Option ℕ → FileObject
new_file fd = record { fd = fd; closes = []; ndelay = none }

-- `close`, which does not look at the result of ::close
unfoldable pub close : FileObject → FileObject
close o = record o { fd = none; closes = o.closes ++ o.fd ∷ [] }

-- `~coro_file`
unfoldable pub destroy : FileObject → FileObject
unfolding close
destroy o = elim o.fd [ none ↦ o | some d ↦ close o ]

-- The method whose `OS_Error` ends a call.
pub data Failure : Type 0 where
  fcntl_failed socket_failed getsockopt_failed setsockopt_failed bind_failed listen_failed
        shutdown_failed :
      ℕ → Failure

-- `set_blocking`; the argument is the errno of the second call of ::fcntl, if it fails.
unfoldable pub set_blocking : Bool → Option ℕ → FileObject → Option Failure × FileObject
set_blocking blocking setfl o = elim setfl [
  | none ↦ (none, record o { ndelay = some (not blocking) })
  | some errno ↦ (some (fcntl_failed errno), o)
]

-- What ::socket answers: a descriptor, or an errno.
pub data SocketAnswer : Type 0 where
  opens : ℕ → SocketAnswer
  fails : ℕ → SocketAnswer

-- What a constructor leaves: the object, or an exception, behind which the destructor of the base class
-- has been called.
pub data Built : Type 0 where
  built : FileObject → Built
  thrown : Failure → FileObject → Built

abbrev pub built_or_thrown : Option Failure × FileObject → Built
built_or_thrown (none, o) = built o
built_or_thrown (some x, o) = thrown x (destroy o)

-- `coro_socket (fd, …)`, where `none` is -1
unfoldable pub new_socket : Option ℕ → SocketAnswer → Option ℕ → Built
unfolding set_blocking destroy
new_socket (some d) answer setfl = built (record default_file { fd = some d })
new_socket none (opens d) setfl =
    built_or_thrown (set_blocking false setfl (record default_file { fd = some d }))
new_socket none (fails errno) setfl = built_or_thrown (some (socket_failed errno), default_file)

-- `set_reuse_addr`: the option that it sets, or its exception
unfoldable pub set_reuse_addr : Option ℕ → ℕ → Option ℕ → Option Failure × Option ℕ
set_reuse_addr (some errno) old set = (some (getsockopt_failed errno), none)
set_reuse_addr none old (some errno) = (some (setsockopt_failed errno), some (bit_or old 1))
set_reuse_addr none old none = (none, some (bit_or old 1))

-- `bind`, `listen` and `shutdown`, by the errno of the system call, if it fails
abbrev pub failure_of : (ℕ → Failure) → Option ℕ → Option Failure
failure_of fun none = none
failure_of fun (some errno) = some (fun errno)

unfoldable pub bind : Option ℕ → Option Failure
bind = failure_of bind_failed

unfoldable pub listen : Option ℕ → Option Failure
listen = failure_of listen_failed

unfoldable pub shutdown : Option ℕ → Option Failure
shutdown = failure_of shutdown_failed
