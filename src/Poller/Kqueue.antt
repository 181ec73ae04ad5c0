-- ===== src/Poller/Kqueue.antt =====
-- event_kqueue.h: the class `kqueue_poller`.
-- The scheduler is a parameter, and so is the kernel: what `kevent` answers to the changes, the number
-- of events that there is room for, and the time to wait.
pub mod Changes
pub mod Delivery
use coroplusplus.Common.{
  ℕ, zero, suc, ◌+◌, ◌-◌, ◌*◌, ◌/◌, ◌%◌, ◌^◌, Bool, true, false, not, ◌&&◌, Option, none, some,
  List, [], ◌∷◌, ◌++◌, ltb, ◌==◌, if◌then◌else◌, length,
}
use coroplusplus.Timeval.{ℤ, pos, negsuc}
use coroplusplus.Coro.State.{Stop, os_error, Outcome, ◌>>=◌}

pub data Filter : Type 0 where
  evfilt_read evfilt_write evfilt_signal : Filter

-- `struct kevent`, of whose flags only EV_EOF is read, and `data` is not.
pub record KEvent : Type 0 where
  pub ident : ℕ
  pub filter : Filter
  pub eof : Bool
  pub fflags : ℕ
  pub udata : ℕ

-- `_change_list` up to `_change_index`; `output_max` is the length of the array. The counters are those
-- of the class `poller`.
pub record KqueuePoller : Type 0 where
  pub changes : List KEvent
  pub output_max : ℕ
  pub rb : ℕ
  pub wb : ℕ

unfoldable pub new_kqueue_poller : ℕ → KqueuePoller
new_kqueue_poller output_max = record { changes = []; output_max = output_max; rb = 0; wb = 0 }

-- `none` is a write outside the change list.
unfoldable pub add_change : KEvent → KqueuePoller → Option KqueuePoller
add_change e k =
    if ltb (length k.changes) k.output_max
    then some (record k { changes = k.changes ++ e ∷ [] })
    else none

unfoldable pub set_wait_for : ℕ → ℕ → Filter → KqueuePoller → Option KqueuePoller
unfolding add_change
set_wait_for fd c filter =
    add_change (record { ident = fd; filter = filter; eof = false; fflags = 0; udata = c })

unfoldable pub set_signal_handler : ℕ → ℕ → KqueuePoller → Option KqueuePoller
unfolding add_change
set_signal_handler signum fun =
    add_change
      (record { ident = signum; filter = evfilt_signal; eof = false; fflags = 0; udata = fun })

abbrev pub map_some : {A B : Type 0} → (A → B) → Option A → Option B
map_some f none = none
map_some f (some a) = some (f a)

-- `_rb++` and `_wb++`
abbrev pub count_read : KqueuePoller → KqueuePoller
count_read k = record k { rb = k.rb + 1 }

abbrev pub count_write : KqueuePoller → KqueuePoller
count_write k = record k { wb = k.wb + 1 }

unfoldable pub set_wait_for_read : ℕ → ℕ → KqueuePoller → Option KqueuePoller
unfolding set_wait_for
set_wait_for_read fd c k = map_some count_read (set_wait_for fd c evfilt_read k)

unfoldable pub set_wait_for_write : ℕ → ℕ → KqueuePoller → Option KqueuePoller
unfolding set_wait_for
set_wait_for_write fd c k = map_some count_write (set_wait_for fd c evfilt_write k)

-- The end of `wait_for_read` and `wait_for_write`: the errno of the `OS_Error`, by what `yield` returns.
unfoldable pub wait_error : ℕ → Option ℕ
wait_error zero = none
wait_error (suc n) = some (suc n)

-- The time to wait, for which a negative number stands as 0: seconds and nanoseconds.
abbrev pub timespec : ℤ → ℕ × ℕ
timespec (pos t) = (t / 1000000, t % 1000000 * 1000)
timespec (negsuc t) = (0, 0)

-- `none` is a failure of `kevent`.
abbrev pub Kernel : Type 0
Kernel = List KEvent → ℕ → ℕ × ℕ → Option (List KEvent)

-- The argument of `schedule` for an event.
unfoldable pub event_error : KEvent → ℕ
event_error e = if e.eof && not (e.fflags == 0) then e.fflags else 0

module _ {W : Type 0} (schedule : ℕ → ℕ → W → Outcome W) where
  -- The `for` loop over the events.
  unfoldable pub deliver : List KEvent → W → Outcome W
  unfolding event_error
  deliver [] w = (none, w)
  deliver (e ∷ es) w = schedule e.udata (event_error e) w >>= deliver es

  -- What follows the system call; the number in the exception is the result of `kevent`, -1, as an
  -- `int`.
  abbrev pub after_kevent : KqueuePoller → W → Option (List KEvent) → Outcome (KqueuePoller × W)
  after_kevent k w none = (some (os_error (2 ^ 32 - 1)), (k, w))
  after_kevent k w (some es) = let (stop, w') = deliver es w in (stop, (k, w'))

  unfoldable pub kqueue_poll : Kernel → ℤ → KqueuePoller × W → Outcome (KqueuePoller × W)
  unfolding deliver
  kqueue_poll kernel timeout_usec (k, w) =
      after_kevent (record k { changes = [] }) w
        (kernel k.changes k.output_max (timespec timeout_usec))
