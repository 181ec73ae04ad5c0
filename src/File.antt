-- ===== src/File.antt =====
-- coro_file.h: the class `coro_file`, its read and write loops.
-- The kernel is the list of its coming answers: what has arrived on the descriptor, which `read`
-- hands out up to the length asked for, or a refusal with an errno. After the last answer the stream is
-- closed. A refusal also carries how a wait for it ends: with no error, or with the one that the
-- poller throws. Bytes are numbers.
pub mod Descriptor
pub mod Stream
pub mod Exact
pub mod Write
use coroplusplus.Common.{
  ℕ, zero, suc, ◌+◌, ◌-◌, Bool, true, false, Option, none, some, List, [], ◌∷◌, ◌++◌, leb, ◌==◌,
  if◌then◌else◌, length, take, drop, min,
}

abbrev pub Bytes : Type 0
Bytes = List ℕ

-- The call named in an `OS_Error`.
pub data Call : Type 0 where
  read write wait_for_read wait_for_write : Call

-- How a method ends: by its result, or by an exception. `stuck` is a wait without an end, and
-- `out_of_fuel` a loop that was cut off.
pub data Result {ℓ} (A : Type ℓ) : Type ℓ where
  ok : A → Result A
  os_error : Call → ℕ → Result A
  yield_from_main : Result A
  stuck : Result A
  out_of_fuel : Result A

abbrev pub map_result {ℓ κ} : {A : Type ℓ} {B : Type κ} → (A → B) → Result A → Result B
map_result f (ok a) = ok (f a)
map_result f (os_error c e) = os_error c e
map_result f yield_from_main = yield_from_main
map_result f stuck = stuck
map_result f out_of_fuel = out_of_fuel

pub data Answer : Type 0 where
  arrives : Bytes → Answer
  refuses : ℕ → Option ℕ → Answer

pub data WriteAnswer : Type 0 where
  -- The kernel takes so many bytes and one more, if there are.
  takes : ℕ → WriteAnswer
  refuses_write : ℕ → Option ℕ → WriteAnswer

abbrev pub ewouldblock : ℕ
ewouldblock = 11

-- What `read` leaves of the bytes that have arrived.
unfoldable pub after_take : ℕ → Bytes → List Answer → List Answer
after_take n bs ans = if leb (length bs) n then ans else arrives (drop n bs) ∷ ans

-- `coro_file::wait_for_read` and `wait_for_write`, and then the rest of the caller's loop. In the main
-- coroutine `coro::current ()` is null.
unfoldable pub wait_then {ℓ} :
    {A : Type ℓ}
    → Bool
    → Call
    → Option ℕ
    → Result A × List Answer
    → List Answer
    → Result A × List Answer
wait_then main call w rest ans =
    if main
    then (yield_from_main, ans)
    else elim w [ none ↦ rest | some e ↦ (os_error call e, ans) ]

-- `coro_file::read (void *, size_t)`
unfoldable pub read_bytes : Bool → ℕ → List Answer → Result Bytes × List Answer
unfolding after_take wait_then
read_bytes main n [] = (ok [], [])
read_bytes main n (arrives bs ∷ ans) = (ok (take n bs), after_take n bs ans)
read_bytes main n (refuses e w ∷ ans) =
    let rest = wait_then main wait_for_read w (read_bytes main n ans) ans in
    if e == ewouldblock then rest else (os_error read e, ans)

infixl 5 ◌>>=◌
-- The next step of a loop, on the answers that are left.
abbrev pub ◌>>=◌ {ℓ κ} :
    {A : Type ℓ} {B : Type κ}
    → Result A × List Answer
    → (A → List Answer → Result B × List Answer)
    → Result B × List Answer
(ok a, ans) >>= f = f a ans
(os_error c e, ans) >>= f = (os_error c e, ans)
(yield_from_main, ans) >>= f = (yield_from_main, ans)
(stuck, ans) >>= f = (stuck, ans)
(out_of_fuel, ans) >>= f = (out_of_fuel, ans)

-- `read_exact (size_t, consumer &, unsigned int)`, and the same with a `string_list`: the strings that
-- the consumer has been given, in order. The fuel bounds the rounds.
unfoldable pub read_exact_chunks :
    Bool → ℕ → ℕ → ℕ → List Bytes → List Answer → Result (List Bytes) × List Answer
unfolding read_bytes
read_exact_chunks main fuel block zero given ans = (ok given, ans)
read_exact_chunks main zero block (suc n) given ans = (out_of_fuel, ans)
read_exact_chunks main (suc fuel) block (suc n) given ans =
    read_bytes main (min (suc n) block) ans >>= λ s rest.
    read_exact_chunks main fuel block (suc n - length s) (given ++ s ∷ []) rest

-- `read_exact (size_t, std::string &)`, which gives up at the end of the stream.
unfoldable pub read_exact : Bool → ℕ → ℕ → Bytes → List Answer → Result Bytes × List Answer
unfolding read_bytes
read_exact main fuel zero dst ans = (ok dst, ans)
read_exact main zero (suc n) dst ans = (out_of_fuel, ans)
read_exact main (suc fuel) (suc n) dst ans = read_bytes main (suc n) ans >>= λ buf rest. elim buf [
  | [] ↦ (ok dst, rest)
  | b ∷ bs ↦ read_exact main fuel (suc n - length (b ∷ bs)) (dst ++ b ∷ bs) rest
]

-- `coro_file::write (const void *, size_t)`: what is left to write, the kernel's answers, and what it
-- has taken so far; the answers that are left, and what it has taken.
unfoldable pub write_bytes :
    Bool → Bytes → List WriteAnswer → Bytes → Result (Unit {0}) × List WriteAnswer × Bytes
write_bytes main [] ans sent = (ok tt, ans, sent)
write_bytes main (b ∷ bs) [] sent = (stuck, [], sent)
write_bytes main (b ∷ bs) (takes k ∷ ans) sent =
    let r = min (suc k) (length (b ∷ bs)) in
    write_bytes main (drop r (b ∷ bs)) ans (sent ++ take r (b ∷ bs))
write_bytes main (b ∷ bs) (refuses_write e w ∷ ans) sent =
    let rest = write_bytes main (b ∷ bs) ans sent in
    if e == ewouldblock
    then if main
      then (yield_from_main, ans, sent)
      else elim w [ none ↦ rest | some x ↦ (os_error wait_for_write x, ans, sent) ]
    else (os_error write e, ans, sent)
