-- ===== src/Poller.antt =====
-- event_poll.h and event_select.h: the maps of the descriptors that are waited for, `fd_map`, and the
-- state that every poller works on. A descriptor is a number, and so is a coroutine.
pub mod Maps
pub mod Poll
pub mod Kqueue
pub mod Select
use coroplusplus.Common.{
  ℕ, ◌+◌, Bool, true, false, Option, none, some, List, [], ◌∷◌, ltb, ◌==◌, if◌then◌else◌,
}

-- `std::map <int, coro *>`, by descriptor.
abbrev pub FdMap : Type 0
FdMap = List (ℕ × ℕ)

-- `m[fd] = c`
unfoldable pub insert : ℕ → ℕ → FdMap → FdMap
insert fd c [] = (fd, c) ∷ []
insert fd c ((k, d) ∷ m) =
    if fd == k
    then (fd, c) ∷ m
    else if ltb fd k
    then (fd, c) ∷ (k, d) ∷ m
    else (k, d) ∷ insert fd c m

-- `m.find (fd)`
unfoldable pub find : ℕ → FdMap → Option ℕ
find fd [] = none
find fd ((k, c) ∷ m) = if fd == k then some c else find fd m

-- `m.erase (i)`, of the entry that `find` gives
unfoldable pub erase : ℕ → FdMap → FdMap
erase fd [] = []
erase fd ((k, c) ∷ m) = if fd == k then m else (k, c) ∷ erase fd m
