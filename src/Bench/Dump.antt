-- ===== src/Bench/Dump.antt =====
-- The text of a benchmark.
use coroplusplus.Common.{
  ℕ, zero, suc, ◌+◌, ◌-◌, ◌*◌, ◌/◌, ◌%◌, ◌^◌, ◌≤◌, ◌<◌, ◌≡◌, refl, ap, sym, ◌∙◌, Bool, true, ◌&&◌,
  not, ◌==◌, ltb, some, List, [], ◌∷◌, ◌++◌, arith, length, length-append, append_assoc, All,
  All-append, Bool-cases, inl, inr,
}
use coroplusplus.File.{Bytes}
use coroplusplus.Timeval.{ℤ, pos, negsuc, Timeval, Interval, IsNormal, timersub}
use coroplusplus.Demo.{crlf}
use coroplusplus.Buffer.Lines.{IsFreeOf}
use coroplusplus.Bench.{
  Bench, diff, digits, print_long, zeros, print_padded, print_time, print_counts, counts,
  print_bench, from_buffer, appended, dump,
}

abbrev pub value : ℕ → Bytes → ℕ
value n [] = n
value n (c ∷ cs) = value (n * 10 + (c - 48)) cs

-- The digits spell the number, if there is fuel for all of them.
pub value-digits :
    (fuel n : ℕ) (out : Bytes) → n < 10 ^ fuel → value 0 (digits fuel n out) ≡ value n out
unfolding digits
value-digits zero n out h = ap (λ k. value k out) {x = 0} {y = n} (omega arith)
value-digits (suc fuel) n out h = elim (Bool-cases (n / 10 == 0)) [
  | inl e ↦ rw e (ap (λ k. value k out) {y = n} (ground arith))
  | inr e ↦ rw e (
      value-digits fuel (n / 10) ((48 + n % 10) ∷ out) (grind arith)
      ∙ ap (λ k. value k out) {y = n} (omega arith))
]

-- Text without a CR, of a length at most.
record IsShort (n : ℕ) (text : Bytes) : Type 0 where
  bounded : length text ≤ n
  free : IsFreeOf 13 text

IsShort-append : {n m : ℕ} (a b : Bytes) → IsShort n a → IsShort m b → IsShort (n + m) (a ++ b)
IsShort-append a b h k = record {
  bounded = omega (arith, length-append a b, h.bounded, k.bounded);
  free = All-append _ a b h.free k.free;
}

digits-IsShort :
    (fuel n k : ℕ) (out : Bytes) → IsShort k out → IsShort (fuel + k) (digits fuel n out)
unfolding digits
digits-IsShort zero n k out h = record { bounded = omega (arith, h.bounded); free = h.free }
digits-IsShort (suc fuel) n k out h =
    let last = (48 + n % 10) ∷ out in
    let h' : IsShort (suc k) last = record {
      bounded = omega (arith, h.bounded);
      free = (λ e. omega arith, h.free);
    } in
    elim (Bool-cases (n / 10 == 0)) [
      | inl e ↦ rw e (record { bounded = omega (arith, h'.bounded); free = h'.free })
      | inr e ↦ rw e (
          let i = digits-IsShort fuel (n / 10) (suc k) last h' in
          record { bounded = omega (arith, i.bounded); free = i.free })
    ]

print_long-IsShort : (z : ℤ) → IsShort 20 (print_long z)
unfolding print_long
print_long-IsShort (pos n) =
    let i = digits-IsShort 19 n 0 [] (record { bounded = omega arith; free = tt }) in
    record { bounded = omega (arith, i.bounded); free = i.free }
print_long-IsShort (negsuc n) =
    let i = digits-IsShort 19 (suc n) 0 [] (record { bounded = omega arith; free = tt }) in
    record { bounded = omega (arith, i.bounded); free = (λ e. omega arith, i.free) }

length-digits :
    (fuel k n : ℕ) (out : Bytes) → n < 10 ^ suc k → length (digits fuel n out) ≤ suc k + length out
unfolding digits
length-digits zero k n out h = omega arith
length-digits (suc fuel) zero n out h =
    let e : (n / 10 == 0) ≡ true = ground arith in rw e (omega arith)
length-digits (suc fuel) (suc k) n out h = elim (Bool-cases (n / 10 == 0)) [
  | inl e ↦ rw e (omega arith)
  | inr e ↦ rw e (omega (arith, length-digits fuel k (n / 10) ((48 + n % 10) ∷ out) (grind arith)))
]

zeros-IsShort : (n : ℕ) → IsShort n (zeros n)
zeros-IsShort zero = record { bounded = omega arith; free = tt }
zeros-IsShort (suc n) =
    let i = zeros-IsShort n in
    record { bounded = omega (arith, i.bounded); free = (λ e. omega arith, i.free) }

print_padded-IsShort : (n : ℕ) → n < 1000000 → IsShort 6 (print_padded n)
unfolding print_padded
print_padded-IsShort n h =
    let text = digits 19 n [] in
    let i = digits-IsShort 19 n 0 [] (record { bounded = omega arith; free = tt }) in
    let few : length text ≤ 6 = omega (arith, length-digits 19 5 n [] (omega arith)) in
    let short : IsShort (length text) text = record { bounded = omega arith; free = i.free } in
    let all =
      IsShort-append (zeros (6 - length text)) text (zeros-IsShort (6 - length text)) short in
    record { bounded = omega (arith, all.bounded, few); free = all.free }

print_time-IsShort : (t : Interval) → t.tv_usec < 1000000 → IsShort 28 (print_time t)
unfolding print_time
print_time-IsShort t h =
    let i = print_padded-IsShort t.tv_usec h in
    let all =
      IsShort-append {n = 20} {m = 8} (print_long t.tv_sec)
        (32 ∷ (print_padded t.tv_usec ++ 124 ∷ [])) (print_long-IsShort t.tv_sec)
        (IsShort-append {n = 7} {m = 1} (32 ∷ print_padded t.tv_usec) (124 ∷ [])
          (record { bounded = omega (arith, i.bounded); free = (λ e. omega arith, i.free) })
          (record { bounded = omega arith; free = (λ e. omega arith, tt) })) in
    record { bounded = omega (arith, all.bounded); free = all.free }

abbrev labels_length : List (Bytes × ℤ) → ℕ
labels_length [] = 0
labels_length ((label, n) ∷ cs) = length label + 21 + labels_length cs

print_counts-IsShort :
    (cs : List (Bytes × ℤ))
    → All (λ c. IsFreeOf 13 c.0) cs
    → IsShort (labels_length cs) (print_counts cs)
unfolding print_counts
print_counts-IsShort [] h = record { bounded = omega arith; free = tt }
print_counts-IsShort ((label, n) ∷ []) h =
    let all =
      IsShort-append {n = length label} {m = 20} label (print_long n)
        (record { bounded = omega arith; free = h.0 }) (print_long-IsShort n) in
    record { bounded = omega (arith, all.bounded); free = all.free }
print_counts-IsShort ((label, n) ∷ c ∷ cs) h =
    let i = print_counts-IsShort (c ∷ cs) h.1 in
    let all =
      IsShort-append {n = length label} {m = 21 + labels_length (c ∷ cs)} label
        (print_long n ++ (32 ∷ print_counts (c ∷ cs)))
        (record { bounded = omega arith; free = h.0 })
        (let behind =
            IsShort-append {n = 20} {m = suc (labels_length (c ∷ cs))} (print_long n)
              (32 ∷ print_counts (c ∷ cs)) (print_long-IsShort n)
              (record { bounded = omega (arith, i.bounded); free = (λ e. omega arith, i.free) }) in
          record { bounded = omega (arith, behind.bounded); free = behind.free }) in
    record { bounded = omega (arith, all.bounded); free = all.free }

-- A test that a label has no CR.
abbrev no_cr : Bytes → Bool
no_cr [] = true
no_cr (c ∷ cs) = not (c == 13) && no_cr cs

no_cr-IsFreeOf : (bs : Bytes) → no_cr bs ≡ true → IsFreeOf 13 bs
no_cr-IsFreeOf [] h = tt
no_cr-IsFreeOf (c ∷ cs) h = ground (arith, no_cr-IsFreeOf cs)

abbrev labels_no_cr : List (Bytes × ℤ) → Bool
labels_no_cr [] = true
labels_no_cr ((label, n) ∷ cs) = no_cr label && labels_no_cr cs

labels_no_cr-All : (cs : List (Bytes × ℤ)) → labels_no_cr cs ≡ true → All (λ c. IsFreeOf 13 c.0) cs
labels_no_cr-All [] h = tt
labels_no_cr-All ((label, n) ∷ cs) h =
    (no_cr-IsFreeOf label (ground arith), labels_no_cr-All cs (ground arith))

usec_lem : (a b : Timeval) → IsNormal a → IsNormal b → (timersub a b).tv_usec < 1000000
unfolding timersub
usec_lem a b ha hb = ground arith

diff_usec :
    (a b : Bench Timeval ℕ)
    → IsNormal a.tv
    → IsNormal a.ru.utime
    → IsNormal a.ru.stime
    → IsNormal b.tv
    → IsNormal b.ru.utime
    → IsNormal b.ru.stime
    → let d = diff a b in
      (d.tv.tv_usec < 1000000) × (d.ru.utime.tv_usec < 1000000) × (d.ru.stime.tv_usec < 1000000)
unfolding diff
diff_usec a b na nu ns nb nu' ns' = (
  usec_lem b.tv a.tv nb na,
  usec_lem b.ru.utime a.ru.utime nu' nu,
  usec_lem b.ru.stime a.ru.stime ns' ns,
)

abbrev bench_line : Bench Interval ℤ → Bytes
bench_line d =
    print_time d.tv
    ++ (print_time d.ru.utime ++ (print_time d.ru.stime ++ print_counts (counts d.ru)))

print_bench_lem : (d : Bench Interval ℤ) → print_bench d ≡ bench_line d ++ crlf
unfolding print_bench
print_bench_lem d =
    let wall = print_time d.tv in
    let user = print_time d.ru.utime in
    let system = print_time d.ru.stime in
    let rest = print_counts (counts d.ru) in
    sym (
      append_assoc wall (user ++ (system ++ rest)) crlf
      ∙ ap (λ t. wall ++ t) (append_assoc user (system ++ rest) crlf)
      ∙ ap (λ t. wall ++ (user ++ t)) (append_assoc system rest crlf))

bench_line-IsShort :
    (d : Bench Interval ℤ)
    → d.tv.tv_usec < 1000000
    → d.ru.utime.tv_usec < 1000000
    → d.ru.stime.tv_usec < 1000000
    → IsShort 475 (bench_line d)
bench_line-IsShort d h k l =
    let rest = print_counts-IsShort (counts d.ru) (labels_no_cr-All (counts d.ru) refl) in
    let all =
      IsShort-append (print_time d.tv)
        (print_time d.ru.utime ++ (print_time d.ru.stime ++ print_counts (counts d.ru)))
        (print_time-IsShort d.tv h)
        (IsShort-append (print_time d.ru.utime)
          (print_time d.ru.stime ++ print_counts (counts d.ru)) (print_time-IsShort d.ru.utime k)
          (IsShort-append (print_time d.ru.stime) (print_counts (counts d.ru))
            (print_time-IsShort d.ru.stime l) rest)) in
    record { bounded = omega (arith, all.bounded); free = all.free }

from_buffer_lem : (text : Bytes) → length text < 512 → from_buffer text ≡ some text
unfolding from_buffer
from_buffer_lem text h = let e : ltb (length text) 512 ≡ true = ground arith in rw e refl

-- Whatever two readings of the clock and of the resources a benchmark compares, with normal times, the text
-- of their difference fits in the buffer of `dump`, which appends all of it, with no byte from behind the
-- buffer: one line that ends in CR LF, without a CR before that, of at most 478 bytes.
pub dump-diff :
    (r : Bytes) (a b : Bench Timeval ℕ)
    → IsNormal a.tv
    → IsNormal a.ru.utime
    → IsNormal a.ru.stime
    → IsNormal b.tv
    → IsNormal b.ru.utime
    → IsNormal b.ru.stime
    → (line : Bytes) × (dump r (diff a b) ≡ some (r ++ (line ++ crlf)))
      × IsFreeOf 13 line
      × (length (line ++ crlf) ≤ 478)
unfolding dump
dump-diff r a b na nu ns nb nu' ns' =
    let d = diff a b in
    let (h, k, l) = diff_usec a b na nu ns nb nu' ns' in
    let short = bench_line-IsShort d h k l in
    let total = length-append (bench_line d) crlf in
    (
      bench_line d,
      ap (λ t. appended r (from_buffer t)) (print_bench_lem d)
          ∙ ap (appended r)
              (from_buffer_lem (bench_line d ++ crlf) (omega (arith, total, short.bounded))),
      short.free,
      omega (arith, total, short.bounded),
    )
