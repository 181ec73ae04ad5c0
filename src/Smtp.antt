-- ===== src/Smtp.antt =====
-- demo/smtp_server.cc: the parsers of a command line, `split_first` and `find_email_addr`.
-- A `size_type` has 64 bits. `npos` is `none`.
pub mod Address
pub mod Session
use coroplusplus.Common.{
  ℕ, suc, ◌+◌, ◌-◌, ◌%◌, ◌^◌, ◌==◌, Bool, true, false, ◌||◌, Option, none, some, List, [], ◌∷◌,
  if◌then◌else◌, take, drop,
}
use coroplusplus.File.{Bytes}

abbrev pub is_any_of : Bytes → ℕ → Bool
is_any_of [] b = false
is_any_of (c ∷ cs) b = (b == c) || is_any_of cs b

abbrev pub next_index : Option ℕ → Option ℕ
next_index none = none
next_index (some i) = some (suc i)

-- `std::string::find_first_of`
unfoldable pub find_first_of : Bytes → Bytes → Option ℕ
find_first_of chars [] = none
find_first_of chars (b ∷ bs) =
    let rest = next_index (find_first_of chars bs) in if is_any_of chars b then some 0 else rest

-- `std::string::find_last_of`
unfoldable pub find_last_of : Bytes → Bytes → Option ℕ
find_last_of chars [] = none
find_last_of chars (b ∷ bs) = elim (find_last_of chars bs) [
  | some i ↦ some (suc i)
  | none ↦ if is_any_of chars b then some 0 else none
]

-- `std::string::substr`, at a position in the string
abbrev pub substr : Bytes → ℕ → ℕ → Bytes
substr s i n = take n (drop i s)

-- `a - b` in a `size_type`
abbrev pub minus : ℕ → ℕ → ℕ
minus a b = (a + 2 ^ 64 - b) % 2 ^ 64

unfoldable pub split_first : Bytes → Bytes → Bytes × ℕ
unfolding find_first_of
split_first source delims = elim (find_first_of delims source) [
  | none ↦ ([], 0)
  | some i ↦ (substr source 0 i, i)
]

-- `<` is 60 and `>` is 62; the `result` of before is kept where one is missing.
unfoldable pub find_email_addr : Bytes → Bytes → Bytes × ℕ
unfolding find_first_of find_last_of
find_email_addr result line = elim (find_first_of (60 ∷ []) line) [
  | none ↦ (result, 0)
  | some i ↦ elim (find_last_of (62 ∷ []) line) [
    | none ↦ (result, 0)
    | some j ↦ (substr line (i + 1) (minus j 1), minus (minus j i) 2)
  ]
]
