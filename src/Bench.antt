-- ===== src/Bench.antt =====
-- coro_bench.h: the class `bench`, which measures a time and the use of resources.
-- The fields of a `long` are integers; ::gettimeofday and ::getrusage enter by what they say.
pub mod Dump
use coroplusplus.Common.{
  ℕ, zero, suc, ◌+◌, ◌-◌, ◌/◌, ◌%◌, ◌==◌, ltb, leb, if◌then◌else◌, Bool, Option, none, some, List,
  [], ◌∷◌, ◌++◌, codes, length, take,
}
use coroplusplus.File.{Bytes}
use coroplusplus.Timeval.{ℤ, pos, negsuc, sub_ℕ, Timeval, Interval, timersub}
use coroplusplus.Demo.{crlf}

-- `struct rusage`
pub record Rusage (Time Count : Type 0) : Type 0 where
  pub utime : Time
  pub stime : Time
  pub maxrss : Count
  pub ixrss : Count
  pub idrss : Count
  pub isrss : Count
  pub minflt : Count
  pub majflt : Count
  pub nswap : Count
  pub inblock : Count
  pub oublock : Count
  pub msgsnd : Count
  pub msgrcv : Count
  pub nsignals : Count
  pub nvcsw : Count
  pub nivcsw : Count

-- `bench`: a reading, or the difference of two.
pub record Bench (Time Count : Type 0) : Type 0 where
  pub tv : Time
  pub ru : Rusage Time Count

-- `std::max`
abbrev max : ℕ → ℕ → ℕ
max a b = if ltb a b then b else a

-- `diff`, by the reading that it makes
unfoldable pub diff : Bench Timeval ℕ → Bench Timeval ℕ → Bench Interval ℤ
unfolding timersub
diff this o = record {
  tv = timersub o.tv this.tv;
  ru = record {
    utime = timersub o.ru.utime this.ru.utime;
    stime = timersub o.ru.stime this.ru.stime;
    maxrss = pos (max this.ru.maxrss o.ru.maxrss);
    ixrss = pos o.ru.ixrss;
    idrss = pos o.ru.idrss;
    isrss = pos o.ru.isrss;
    minflt = sub_ℕ o.ru.minflt this.ru.minflt;
    majflt = sub_ℕ o.ru.majflt this.ru.majflt;
    nswap = sub_ℕ o.ru.nswap this.ru.nswap;
    inblock = sub_ℕ o.ru.inblock this.ru.inblock;
    oublock = sub_ℕ o.ru.oublock this.ru.oublock;
    msgsnd = sub_ℕ o.ru.msgsnd this.ru.msgsnd;
    msgrcv = sub_ℕ o.ru.msgrcv this.ru.msgrcv;
    nsignals = sub_ℕ o.ru.nsignals this.ru.nsignals;
    nvcsw = sub_ℕ o.ru.nvcsw this.ru.nvcsw;
    nivcsw = sub_ℕ o.ru.nivcsw this.ru.nivcsw;
  };
}

-- The decimal digits of a number before `out`, at most as many as the fuel.
unfoldable pub digits : ℕ → ℕ → Bytes → Bytes
digits zero n out = out
digits (suc fuel) n out =
    let last = (48 + n % 10) ∷ out in
    let more = digits fuel (n / 10) last in if n / 10 == 0 then last else more

-- `%ld`: a `long` has 19 digits at most.
unfoldable pub print_long : ℤ → Bytes
unfolding digits
print_long (pos n) = digits 19 n []
print_long (negsuc n) = 45 ∷ digits 19 (suc n) []

abbrev pub zeros : ℕ → Bytes
zeros zero = []
zeros (suc n) = 48 ∷ zeros n

-- `%06ld` of a number that is not negative.
unfoldable pub print_padded : ℕ → Bytes
unfolding digits
print_padded n = let text = digits 19 n [] in zeros (6 - length text) ++ text

-- "%ld %06ld|"
unfoldable pub print_time : Interval → Bytes
unfolding print_long print_padded
print_time t = print_long t.tv_sec ++ (32 ∷ (print_padded t.tv_usec ++ 124 ∷ []))

-- The other fields with their labels, with a blank between them.
unfoldable pub print_counts : List (Bytes × ℤ) → Bytes
unfolding print_long
print_counts [] = []
print_counts ((label, n) ∷ []) = label ++ print_long n
print_counts ((label, n) ∷ c ∷ cs) = label ++ (print_long n ++ (32 ∷ print_counts (c ∷ cs)))

abbrev pub counts : Rusage Interval ℤ → List (Bytes × ℤ)
counts u =
    (codes "maxrss:", u.maxrss)
    ∷ (codes "ixrss:", u.ixrss)
    ∷ (codes "idrss:", u.idrss)
    ∷ (codes "isrss:", u.isrss)
    ∷ (codes "minflt:", u.minflt)
    ∷ (codes "majflt:", u.majflt)
    ∷ (codes "nswap:", u.nswap)
    ∷ (codes "inblock:", u.inblock)
    ∷ (codes "oublock:", u.oublock)
    ∷ (codes "msgsnd:", u.msgsnd)
    ∷ (codes "msgrcv:", u.msgrcv)
    ∷ (codes "nsignals:", u.nsignals)
    ∷ (codes "nvcsw:", u.nvcsw)
    ∷ (codes "nivcsw:", u.nivcsw)
    ∷ []

-- What ::snprintf would write into a buffer that is large enough.
unfoldable pub print_bench : Bench Interval ℤ → Bytes
unfolding print_time print_counts
print_bench b =
    print_time b.tv
    ++ (print_time b.ru.utime ++ (print_time b.ru.stime ++ (print_counts (counts b.ru) ++ crlf)))

-- `std::string (buffer, n)`, where ::snprintf has written what fits in the 512 bytes of the buffer with a
-- 0 behind it; `none` is a read outside the buffer.
unfoldable pub from_buffer : Bytes → Option Bytes
from_buffer text =
    if ltb (length text) 512
    then some text
    else if length text == 512
    then some (take 511 text ++ 0 ∷ [])
    else none

abbrev pub appended : Bytes → Option Bytes → Option Bytes
appended r none = none
appended r (some text) = some (r ++ text)

-- `dump`
unfoldable pub dump : Bytes → Bench Interval ℤ → Option Bytes
unfolding print_bench from_buffer
dump r b = appended r (from_buffer (print_bench b))
