-- ===== src/Smtp/Address.antt =====
-- What the parsers find in a line of a known form.
use coroplusplus.Common.{
  ℕ, suc, ◌+◌, ◌-◌, ◌^◌, ◌<◌, ◌≤◌, ◌≡◌, refl, ap, sym, ◌∙◌, true, false, Option, none, some, [],
  ◌∷◌, ◌++◌, arith, length, take, drop, All, length-append, append_assoc, take-length-append,
  take-append_of_le,
}
use coroplusplus.File.{Bytes}
use coroplusplus.Smtp.{
  is_any_of, next_index, find_first_of, find_last_of, substr, minus, split_first, find_email_addr,
}

abbrev pub HasNone : Bytes → Bytes → Type 0
HasNone chars xs = All (λ b. is_any_of chars b ≡ false) xs

find_first_of-append :
    (chars xs : Bytes) (b : ℕ) (ys : Bytes)
    → HasNone chars xs
    → is_any_of chars b ≡ true
    → find_first_of chars (xs ++ b ∷ ys) ≡ some (length xs)
unfolding find_first_of
find_first_of-append chars [] b ys h e = rw e refl
find_first_of-append chars (x ∷ xs) b ys h e =
    rw (h.0) (ap next_index (find_first_of-append chars xs b ys h.1 e))

find_last_of-none : (chars xs : Bytes) → HasNone chars xs → find_last_of chars xs ≡ none
unfolding find_last_of
find_last_of-none chars [] h = refl
find_last_of-none chars (x ∷ xs) h = rw (find_last_of-none chars xs h.1, h.0) refl

find_last_of-append :
    (chars xs : Bytes) (b : ℕ) (ys : Bytes)
    → HasNone chars ys
    → is_any_of chars b ≡ true
    → find_last_of chars (xs ++ b ∷ ys) ≡ some (length xs)
unfolding find_last_of
find_last_of-append chars [] b ys h e = rw (find_last_of-none chars ys h, e) refl
find_last_of-append chars (x ∷ xs) b ys h e = rw (find_last_of-append chars xs b ys h e) refl

minus_eq : (a b : ℕ) → b ≤ a → a < 2 ^ 64 → minus a b ≡ a - b
minus_eq a b h k = omega arith

abbrev split_at : Bytes → Option ℕ → Bytes × ℕ
split_at source none = ([], 0)
split_at source (some i) = (substr source 0 i, i)

-- `split_first` of a word without delimiters, a delimiter and more returns the word and its length.
pub split_first-append :
    (delims word rest : Bytes) (b : ℕ)
    → HasNone delims word
    → is_any_of delims b ≡ true
    → split_first (word ++ b ∷ rest) delims ≡ (word, length word)
unfolding split_first
split_first-append delims word rest b h e =
    ap (split_at (word ++ b ∷ rest)) (find_first_of-append delims word b rest h e)
    ∙ ap (λ w. (w, length word)) (take-length-append word (b ∷ rest))

abbrev address_between : Bytes → Bytes → Option ℕ → Option ℕ → Bytes × ℕ
address_between result line none o = (result, 0)
address_between result line (some i) none = (result, 0)
address_between result line (some i) (some j) =
    (substr line (i + 1) (minus j 1), minus (minus j i) 2)

find_email_addr_eq :
    (result line : Bytes)
    → find_email_addr result line
      ≡ address_between result line (find_first_of (60 ∷ []) line) (find_last_of (62 ∷ []) line)
unfolding find_email_addr
find_email_addr_eq result line = both (find_first_of (60 ∷ []) line) (find_last_of (62 ∷ []) line)
  where
    both :
        (o p : Option ℕ)
        → (elim o [
          | none ↦ (result, 0)
          | some i ↦ elim p [
            | none ↦ (result, 0)
            | some j ↦ (substr line (i + 1) (minus j 1), minus (minus j i) 2)
          ]
        ])
          ≡ address_between result line o p
    both none p = refl
    both (some i) none = refl
    both (some i) (some j) = refl

drop_past : (b : ℕ) (xs ys : Bytes) → drop (length xs + 1) (xs ++ b ∷ ys) ≡ ys
drop_past b [] ys = refl
drop_past b (x ∷ xs) ys =
    ap (λ n. drop n (x ∷ xs ++ b ∷ ys)) {y = suc (length xs + 1)} (omega arith) ∙ drop_past b xs ys

take_address :
    (n m : ℕ) (xs : Bytes) (b : ℕ) (ys : Bytes)
    → n ≡ length xs + suc m
    → take n (xs ++ b ∷ ys) ≡ xs ++ b ∷ take m ys
take_address n m xs b ys e =
    take-append_of_le n xs (b ∷ ys) (omega arith)
    ∙ ap (λ i. xs ++ take i (b ∷ ys)) {y = suc m} (omega arith)

-- On a line of a command that is not empty and has no `<`, an address in brackets and a rest without
-- `>`, shorter than `2 ^ 64`, `find_email_addr` returns the address with the `>` and so many bytes of
-- the rest as the command has less one, and the length of the address less one, in a `size_type`.
pub find_email_addr_lem :
    (result command address rest : Bytes) (c : ℕ)
    → HasNone (60 ∷ []) (c ∷ command)
    → HasNone (62 ∷ []) rest
    → length ((c ∷ command) ++ 60 ∷ (address ++ 62 ∷ rest)) < 2 ^ 64
    → find_email_addr result ((c ∷ command) ++ 60 ∷ (address ++ 62 ∷ rest))
      ≡ (address ++ 62 ∷ take (length command) rest, minus (suc (length address)) 2)
find_email_addr_lem result command address rest c h k short =
    let before = c ∷ command in
    let after = address ++ 62 ∷ rest in
    let line = before ++ 60 ∷ after in
    let i = length before in
    let j = length (before ++ 60 ∷ address) in
    let j_eq : j ≡ i + suc (length address) = length-append before (60 ∷ address) in
    let j_small : j < 2 ^ 64 =
      omega (arith, length-append before (60 ∷ after), length-append address (62 ∷ rest)) in
    let first = find_first_of-append (60 ∷ []) before 60 after h refl in
    let last : find_last_of (62 ∷ []) line ≡ some j =
      ap (find_last_of (62 ∷ [])) (sym (append_assoc before (60 ∷ address) (62 ∷ rest)))
      ∙ find_last_of-append (62 ∷ []) (before ++ 60 ∷ address) 62 rest k refl in
    let j_less : minus j 1 ≡ length address + suc (length command) =
      minus_eq j 1 (omega arith) j_small ∙ omega arith in
    let between : minus j i ≡ suc (length address) =
      minus_eq j i (omega arith) j_small ∙ omega arith in
    find_email_addr_eq result line
    ∙ ap (λ o. address_between result line o (find_last_of (62 ∷ []) line)) first
    ∙ ap (address_between result line (some i)) last
    ∙ ap (λ t. (take (minus j 1) t, minus (minus j i) 2)) (drop_past 60 before after)
    ∙ ap (λ t. (t, minus (minus j i) 2))
        (take_address (minus j 1) (length command) address 62 rest j_less)
    ∙ ap (λ d. (address ++ 62 ∷ take (length command) rest, minus d 2)) between
