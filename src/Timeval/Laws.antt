-- ===== src/Timeval/Laws.antt =====
-- The macros agree with arithmetic on microseconds, for normal times.
use coroplusplus.Common.{ℕ, ◌+◌, ◌*◌, ◌<◌, ◌≤◌, ◌≡◌, true, false, arith}
use coroplusplus.Timeval.{Timeval, pos, negsuc, IsNormal, micros, timer_lt, timeradd, timersub}

pub timer_lt→lt :
    (a b : Timeval) → IsNormal a → IsNormal b → timer_lt a b ≡ true → micros a < micros b
unfolding timer_lt
timer_lt→lt a b ha hb h = ground arith

pub timer_lt→le :
    (a b : Timeval) → IsNormal a → IsNormal b → timer_lt a b ≡ false → micros b ≤ micros a
unfolding timer_lt
timer_lt→le a b ha hb h = ground arith

pub timeradd-IsNormal : (a b : Timeval) → IsNormal a → IsNormal b → IsNormal (timeradd a b)
unfolding timeradd
timeradd-IsNormal a b ha hb = ground arith

pub micros-timeradd : (a b : Timeval) → micros (timeradd a b) ≡ micros a + micros b
unfolding timeradd
micros-timeradd a b = ground arith

-- A difference with no negative seconds is the difference in microseconds.
pub micros-timersub :
    (a b : Timeval) (s : ℕ)
    → IsNormal a
    → IsNormal b
    → (timersub a b).tv_sec ≡ pos s
    → s * 1000000 + (timersub a b).tv_usec + micros b ≡ micros a
unfolding timersub
micros-timersub a b s ha hb h = ground arith

-- Negative seconds stand for an earlier time.
pub timersub_negative :
    (a b : Timeval) (s : ℕ)
    → IsNormal a
    → IsNormal b
    → (timersub a b).tv_sec ≡ negsuc s
    → micros a < micros b
unfolding timersub
timersub_negative a b s ha hb h = ground arith
