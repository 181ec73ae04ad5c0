-- ===== src/Poller/Poll.antt =====
-- event_poll.h: the class `poll_poller`.
-- The scheduler is a parameter: `schedule` changes a state `W` of its own, or throws. The kernel is one
-- too: what `poll` answers to the poll set, the number of slots and the timeout.
pub mod Moves
pub mod Slots
pub mod Served
pub mod Missed
pub mod Call
pub mod Interface
use coroplusplus.Common.{
  ℕ, zero, suc, ◌+◌, ◌-◌, ◌/◌, Bool, true, false, Option, none, some, List, [], ◌∷◌, ltb,
  if◌then◌else◌, length, update,
}
use coroplusplus.Coro.State.{Outcome, ◌>>=◌}
use coroplusplus.Poller.{FdMap, insert, find, erase}

-- POLLIN, POLLOUT, and any other bit.
pub record Bits : Type 0 where
  pub pollin : Bool
  pub pollout : Bool
  pub others : Bool

-- `struct pollfd` without its `revents`, which the kernel writes.
pub record PollFd : Type 0 where
  pub fd : ℕ
  pub events : Bits

-- `size` is the length of the array `_poll_set`. The constructor leaves its slots as they are.
pub record PollPoller : Type 0 where
  pub read_set : FdMap
  pub write_set : FdMap
  pub poll_set : ℕ → PollFd
  pub size : ℕ

-- `poll` fails with an errno, or gives the number of slots with an answer, and the answers.
pub data Answer : Type 0 where
  fails : ℕ → Answer
  answers : ℕ → (ℕ → Bits) → Answer

abbrev pub Kernel : Type 0
Kernel = (ℕ → PollFd) → ℕ → ℕ → Answer

unfoldable pub set_wait_for_read : ℕ → ℕ → PollPoller → PollPoller
unfolding insert
set_wait_for_read fd c p = record p { read_set = insert fd c p.read_set }

unfoldable pub set_wait_for_write : ℕ → ℕ → PollPoller → PollPoller
unfolding insert
set_wait_for_write fd c p = record p { write_set = insert fd c p.write_set }

-- `_poll_set[j].events |= POLLIN` or `POLLOUT`
abbrev pub want_in : Bits → Bits
want_in b = record b { pollin = true }

abbrev pub want_out : Bits → Bits
want_out b = record b { pollout = true }

-- One of the two loops that fill the poll set from slot `j` down; `none` is a write outside the array.
-- The second component is `j` after the loop.
unfoldable pub fill_slots : (Bits → Bits) → ℕ → FdMap → ℕ → (ℕ → PollFd) → Option ((ℕ → PollFd) × ℕ)
fill_slots want size [] j ps = some (ps, j)
fill_slots want size ((fd, c) ∷ m) j ps =
    let filled = update ps (j - 1) (record { fd = fd; events = want (ps (j - 1)).events }) in
    let rest = fill_slots want size m (j - 1) filled in if ltb (j - 1) size then rest else none

abbrev pub and_then : {A B : Type 0} → Option A → (A → Option B) → Option B
and_then none f = none
and_then (some a) f = f a

-- The erasure behind a call of `schedule` is left out if it throws.
abbrev pub erase_after :
    {W : Type 0} → PollPoller → PollPoller → Outcome W → Outcome (PollPoller × W)
erase_after p erased (some x, w) = (some x, (p, w))
erase_after p erased (none, w) = (none, (erased, w))

module _ {W : Type 0} (schedule : ℕ → ℕ → W → Outcome W) where
  -- What is done with what `find` gives; `erased` is the poller without it.
  abbrev pub wake_found : PollPoller → PollPoller × W → Option ℕ → Outcome (PollPoller × W)
  wake_found erased (p, w) none = (none, (p, w))
  wake_found erased (p, w) (some c) = erase_after p erased (schedule c 0 w)

  -- A ready descriptor whose waiter is in the read set, or in the write set.
  unfoldable pub wake_reader : ℕ → PollPoller × W → Outcome (PollPoller × W)
  wake_reader fd (p, w) =
      wake_found (record p { read_set = erase fd p.read_set }) (p, w) (find fd p.read_set)

  unfoldable pub wake_writer : ℕ → PollPoller × W → Outcome (PollPoller × W)
  wake_writer fd (p, w) =
      wake_found (record p { write_set = erase fd p.write_set }) (p, w) (find fd p.write_set)

  -- The body of the `for` loop, for a slot and its answer.
  unfoldable pub visit : ℕ → Bits → PollPoller × W → Outcome (PollPoller × W)
  unfolding wake_reader wake_writer
  visit fd revents s =
      if revents.pollin
      then wake_reader fd s
      else if revents.pollout
      then wake_writer fd s
      else (none, s)

  -- The `for` loop from slot `j`, with `left` slots to come; `poll_result--` ends it at 0.
  unfoldable pub dispatch : (ℕ → Bits) → ℕ → ℕ → ℕ → PollPoller × W → Outcome (PollPoller × W)
  unfolding visit
  dispatch revents zero j poll_result s = (none, s)
  dispatch revents (suc left) j zero s = (none, s)
  dispatch revents (suc left) j (suc poll_result) s =
      visit (s.0.poll_set j).fd (revents j) s >>= dispatch revents left (suc j) poll_result

  -- What follows the system call.
  abbrev pub answered : ℕ → PollPoller × W → Answer → Outcome (PollPoller × W)
  answered count s (fails errno) = (none, s)
  answered count s (answers poll_result revents) = dispatch revents count 0 poll_result s

  -- `poll`; `none` is a write outside the poll set.
  unfoldable pub poll : Kernel → ℕ → PollPoller × W → Option (Outcome (PollPoller × W))
  poll kernel timeout_usec (p, w) =
      let count = length p.read_set + length p.write_set in
      and_then (fill_slots want_in p.size p.read_set count p.poll_set) λ filled.
        and_then (fill_slots want_out p.size p.write_set filled.1 filled.0) λ filled'. some (
          answered count (record p { poll_set = filled'.0 }, w)
            (kernel filled'.0 count (timeout_usec / 1000)))
