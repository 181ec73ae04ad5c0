-- ===== src/Poller/Select.antt =====
-- event_select.h: the class `select_poller`.
-- The scheduler is a parameter, and so is the kernel: what `select` answers to the two sets, the
-- highest descriptor and one, and the time to wait.
pub mod Ready
use coroplusplus.Common.{
  ℕ, zero, suc, ◌+◌, ◌/◌, ◌%◌, Bool, true, false, ◌||◌, ◌&&◌, Option, none, some, List, [], ◌∷◌,
  ltb, leb, ◌==◌, if◌then◌else◌,
}
use coroplusplus.Coro.State.{Stop, Outcome}
use coroplusplus.Poller.{FdMap, insert}

pub record SelectPoller : Type 0 where
  pub read_set : FdMap
  pub write_set : FdMap

unfoldable pub set_wait_for_read : ℕ → ℕ → SelectPoller → SelectPoller
unfolding insert
set_wait_for_read fd c p = record p { read_set = insert fd c p.read_set }

unfoldable pub set_wait_for_write : ℕ → ℕ → SelectPoller → SelectPoller
unfolding insert
set_wait_for_write fd c p = record p { write_set = insert fd c p.write_set }

-- FD_SETSIZE
abbrev pub fd_setsize : ℕ
fd_setsize = 1024

-- `select` fails with an errno, or gives a number and leaves the ready ones in the two sets.
pub data Answer : Type 0 where
  fails : ℕ → Answer
  answers : ℕ → (ℕ → Bool) → (ℕ → Bool) → Answer

abbrev pub Kernel : Type 0
Kernel = (ℕ → Bool) → (ℕ → Bool) → ℕ → ℕ × ℕ → Answer

-- How `poll` ends: it returns or throws; it goes on from an iterator whose entry is erased, with what it
-- has done up to then, behind which the language leaves everything open; it writes outside an `fd_set`; or
-- its `while` loop goes on for ever.
pub data SelectResult (S : Type 0) : Type 0 where
  returns : S → SelectResult S
  throws : Stop → S → SelectResult S
  uses_erased : S → SelectResult S
  outside_fd_set : SelectResult S
  spins : SelectResult S

-- `FD_SET` of each descriptor
abbrev pub fd_set_of : FdMap → ℕ → Bool
fd_set_of [] j = false
fd_set_of ((fd, c) ∷ m) j = (fd == j) || fd_set_of m j

abbrev pub fits : FdMap → Bool
fits [] = true
fits ((fd, c) ∷ m) = ltb fd fd_setsize && fits m

abbrev pub max_fd : ℕ → FdMap → ℕ
max_fd n [] = n
max_fd n ((fd, c) ∷ m) = max_fd (if ltb n fd then fd else n) m

-- The first entry of a map that is in an `fd_set`, and the map without it.
unfoldable pub first_set : (ℕ → Bool) → FdMap → Option (ℕ × FdMap)
first_set is_set [] = none
first_set is_set ((fd, c) ∷ m) =
    let behind = first_set is_set m in
    if is_set fd
    then some (c, m)
    else elim behind [ none ↦ none | some (c', m') ↦ some (c', (fd, c) ∷ m') ]

module _ {W : Type 0} (schedule : ℕ → ℕ → W → Outcome W) where
  -- A ready entry of a poller, which is then the second one: `schedule`, `n--` and the erasure, behind which
  -- the loop increments the iterator.
  abbrev pub after_schedule :
      SelectPoller → SelectPoller → Outcome W → SelectResult (SelectPoller × W)
  after_schedule p p' (some x, w) = throws x (p, w)
  after_schedule p p' (none, w) = uses_erased (p', w)

  -- The `while` loop for `n` above 0: the two loops over the sets. If both find nothing, `n` stays.
  abbrev pub scan_sets :
      SelectPoller × W → Option (ℕ × FdMap) → Option (ℕ × FdMap) → SelectResult (SelectPoller × W)
  scan_sets (p, w) (some (c, m)) o = after_schedule p (record p { read_set = m }) (schedule c 0 w)
  scan_sets (p, w) none (some (c, m)) =
      after_schedule p (record p { write_set = m }) (schedule c 0 w)
  scan_sets (p, w) none none = spins

  abbrev pub after_select : SelectPoller × W → Answer → SelectResult (SelectPoller × W)
  after_select s (fails errno) = returns s
  after_select s (answers zero r w) = returns s
  after_select s (answers (suc n) r w) =
      scan_sets s (first_set r s.0.read_set) (first_set w s.0.write_set)

  unfoldable pub select_poll : Kernel → ℕ → SelectPoller × W → SelectResult (SelectPoller × W)
  unfolding first_set
  select_poll kernel timeout_usec (p, w) =
      if fits p.read_set && fits p.write_set
      then after_select (p, w)
          (kernel (fd_set_of p.read_set) (fd_set_of p.write_set)
            (max_fd (max_fd 0 p.read_set) p.write_set + 1)
            (timeout_usec / 1000000, timeout_usec % 1000000))
      else outside_fd_set
