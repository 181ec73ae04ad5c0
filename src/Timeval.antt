-- ===== src/Timeval.antt =====
-- `struct timeval` and the macros of <sys/time.h> that coro++.h applies to it.
-- A time since the epoch is not negative; a difference has signed seconds.
pub mod Laws
use coroplusplus.Common.{ℕ, suc, ◌+◌, ◌-◌, ◌*◌, ◌<◌, Bool, ltb, leb, ◌==◌, if◌then◌else◌}

-- `negsuc n` is -(n + 1).
pub data ℤ : Type 0 where
  pos : ℕ → ℤ
  negsuc : ℕ → ℤ

-- a - b, as an integer.
abbrev pub sub_ℕ : ℕ → ℕ → ℤ
sub_ℕ a b = if leb b a then pos (a - b) else negsuc (b - a - 1)

pub record Timeval : Type 0 where
  pub tv_sec : ℕ
  pub tv_usec : ℕ

-- The result of `timersub`.
pub record Interval : Type 0 where
  pub tv_sec : ℤ
  pub tv_usec : ℕ

abbrev pub IsNormal : Timeval → Type 0
IsNormal t = t.tv_usec < 1000000

-- `timercmp (a, b, <)`
unfoldable pub timer_lt : Timeval → Timeval → Bool
timer_lt a b = if a.tv_sec == b.tv_sec then ltb a.tv_usec b.tv_usec else ltb a.tv_sec b.tv_sec

unfoldable pub timeradd : Timeval → Timeval → Timeval
timeradd a b =
    if leb 1000000 (a.tv_usec + b.tv_usec)
    then record { tv_sec = a.tv_sec + b.tv_sec + 1; tv_usec = a.tv_usec + b.tv_usec - 1000000 }
    else record { tv_sec = a.tv_sec + b.tv_sec; tv_usec = a.tv_usec + b.tv_usec }

-- A borrow takes one second more away.
unfoldable pub timersub : Timeval → Timeval → Interval
timersub a b =
    if ltb a.tv_usec b.tv_usec
    then record {
      tv_sec = sub_ℕ a.tv_sec (b.tv_sec + 1);
      tv_usec = a.tv_usec + 1000000 - b.tv_usec;
    }
    else record { tv_sec = sub_ℕ a.tv_sec b.tv_sec; tv_usec = a.tv_usec - b.tv_usec }

-- The time in microseconds.
abbrev pub micros : Timeval → ℕ
micros t = t.tv_sec * 1000000 + t.tv_usec
