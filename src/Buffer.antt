-- ===== src/Buffer.antt =====
-- coro_buffer.h: the class `coro_buffer`, which reads a file up to a delimiter.
pub mod Matching
pub mod Get
pub mod Lines
pub mod Exact
pub mod Consumer
use coroplusplus.Common.{
  ℕ, zero, suc, ◌+◌, ◌-◌, Bool, true, false, ◌&&◌, Option, none, some, List, [], ◌∷◌, ◌++◌, ltb,
  ◌==◌, if◌then◌else◌, length, take, drop, get_or,
}
use mathlib.Core.List.{flatten}
use coroplusplus.File.{
  Bytes, Result, ok, os_error, yield_from_main, stuck, out_of_fuel, map_result, Answer, read_bytes,
  read_exact, read_exact_chunks, ◌>>=◌,
}

-- `_buffer`, and the coming answers of the file `_f`.
pub record Stream : Type 0 where
  pub buffer : Bytes
  pub answers : List Answer

-- How the `for` loop of `get` ends: by the match of the whole delimiter, with the number of bytes up to
-- its end, or at the end of the buffer, with `matched`.
pub data Scan : Type 0 where
  found : ℕ → Scan
  unfinished : ℕ → Scan

abbrev pub later : Scan → Scan
later (found k) = found (suc k)
later (unfinished m) = unfinished m

-- `delim[matched]`; behind its last byte a string has a 0.
abbrev pub delim_at : Bytes → ℕ → ℕ
delim_at delim m = get_or delim m 0

-- The `for` loop over the buffer.
unfoldable pub scan : Bytes → ℕ → Bytes → Scan
scan delim m [] = unfinished m
scan delim m (c ∷ cs) =
    let next = if c == delim_at delim m then suc m else 0 in
    let rest = later (scan delim next cs) in
    if (c == delim_at delim m) && (suc m == length delim) then found 1 else rest

-- `coro_file::read (std::string &, size_t)`, at its default length, if the buffer is empty.
unfoldable pub fill : Bool → Stream → Result Bytes × List Answer
unfolding read_bytes
fill main st = elim st.buffer [
  | [] ↦ read_bytes main 8192 st.answers
  | c ∷ cs ↦ (ok (c ∷ cs), st.answers)
]

-- What follows a read that returned; an exception leaves the buffer empty.
abbrev pub and_then {ℓ} :
    {B : Type ℓ}
    → Result Bytes × List Answer
    → (Bytes → List Answer → Result B × Stream)
    → Result B × Stream
and_then (ok a, ans) f = f a ans
and_then (os_error c e, ans) f = (os_error c e, record { buffer = []; answers = ans })
and_then (yield_from_main, ans) f = (yield_from_main, record { buffer = []; answers = ans })
and_then (stuck, ans) f = (stuck, record { buffer = []; answers = ans })
and_then (out_of_fuel, ans) f = (out_of_fuel, record { buffer = []; answers = ans })

-- `get (string_list &, std::string)`: whether the stream has closed, and the pieces. The fuel bounds
-- the rounds of the `while` loop.
unfoldable pub get_pieces :
    Bool → ℕ → Bytes → ℕ → List Bytes → Stream → Result (Bool × List Bytes) × Stream
get_pieces main zero delim m sl st = (out_of_fuel, st)
get_pieces main (suc fuel) delim m sl st = and_then (fill main st) λ buf ans. elim buf [
  | [] ↦ (ok (true, sl), record { buffer = []; answers = ans })
  | c ∷ cs ↦ elim (scan delim m (c ∷ cs)) [
    | found k ↦
        (ok (false, sl ++ take k (c ∷ cs) ∷ []), record { buffer = drop k (c ∷ cs); answers = ans })
    | unfinished m' ↦
        get_pieces main fuel delim m' (sl ++ (c ∷ cs) ∷ []) (record { buffer = []; answers = ans })
  ]
]

-- `string_join`: the pieces are appended to the result.
unfoldable pub string_join : Bytes → List Bytes → Bytes
string_join result [] = result
string_join result (s ∷ sl) = string_join (result ++ s) sl

-- `get (std::string &, std::string)`
unfoldable pub get : Bool → ℕ → Bytes → Stream → Result (Bool × Bytes) × Stream
unfolding get_pieces string_join
get main fuel delim st =
    let (r, left) = get_pieces main fuel delim 0 [] st in
    (map_result (λ p. (p.0, string_join [] p.1)) r, left)

-- `flush`
unfoldable pub flush : Stream → Bytes × Stream
flush st = (st.buffer, record st { buffer = [] })

-- `read_exact (size_t, std::string &)`; the result is `s`, appended to.
unfoldable pub read_exact_string : Bool → ℕ → ℕ → Bytes → Stream → Result Bytes × Stream
unfolding read_exact
read_exact_string main fuel nbytes s st =
    let bsize = length st.buffer in
    if ltb nbytes bsize
    then (ok (s ++ take nbytes st.buffer), record st { buffer = drop nbytes st.buffer })
    else if bsize == nbytes
    then (ok (s ++ st.buffer), record st { buffer = [] })
    else let (r, ans) = read_exact main fuel (nbytes - bsize) (s ++ st.buffer) st.answers in
      (r, record { buffer = []; answers = ans })

-- `consume_buffer`: the strings that the consumer has been given, in order; it returns the number of
-- bytes.
unfoldable pub consume_buffer : List Bytes → Stream → ℕ × List Bytes × Stream
consume_buffer given st =
    let bsize = length st.buffer in
    if ltb 0 bsize
    then (bsize, given ++ st.buffer ∷ [], record st { buffer = [] })
    else (bsize, given, st)

-- `read_exact (size_t, consumer &)`; the file's `read_exact` has its default block size.
unfoldable pub read_exact_consumer :
    Bool → ℕ → ℕ → List Bytes → Stream → Result (List Bytes) × Stream
unfolding consume_buffer read_exact_chunks
read_exact_consumer main fuel nbytes given st =
    let bsize = length st.buffer in
    if ltb nbytes bsize
    then (ok (given ++ take nbytes st.buffer ∷ []), record st { buffer = drop nbytes st.buffer })
    else if bsize == nbytes
    then (ok (given ++ st.buffer ∷ []), record st { buffer = [] })
    else let (consumed, given', st') = consume_buffer given st in
      let (r, ans) = read_exact_chunks main fuel 8000 (nbytes - consumed) given' st'.answers in
      (r, record st' { answers = ans })

-- The `while` loop of `read_to_eof`. The fuel bounds its rounds.
unfoldable pub read_blocks :
    Bool → ℕ → ℕ → List Bytes → List Answer → Result (List Bytes) × List Answer
unfolding read_bytes
read_blocks main zero block_size given ans = (out_of_fuel, ans)
read_blocks main (suc fuel) block_size given ans = read_bytes main block_size ans >>= λ block rest.
    elim block [
      | [] ↦ (ok given, rest)
      | b ∷ bs ↦ read_blocks main fuel block_size (given ++ (b ∷ bs) ∷ []) rest
    ]

-- `read_to_eof`
unfoldable pub read_to_eof : Bool → ℕ → ℕ → List Bytes → Stream → Result (List Bytes) × Stream
unfolding consume_buffer read_blocks
read_to_eof main fuel block_size given st =
    let (consumed, given', st') = consume_buffer given st in
    let (r, ans) = read_blocks main fuel block_size given' st'.answers in
    (r, record st' { answers = ans })
