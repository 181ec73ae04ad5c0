-- ===== src/File/Write.antt =====
-- `write`: what the kernel has taken when it ends.
use coroplusplus.Common.{
  ℕ, zero, suc, ◌+◌, ◌≤◌, length-drop, ◌≡◌, refl, ap, sym, ◌∙◌, Bool, true, false, none, some, List,
  [], ◌∷◌, ◌++◌, arith, ◌==◌, length, take, drop, min, append-nil, append_assoc, take-append-drop,
  Bool-cases, inl, inr,
}
use coroplusplus.File.{
  Bytes, Result, ok, os_error, yield_from_main, stuck, out_of_fuel, WriteAnswer, takes,
  refuses_write, ewouldblock, write_bytes,
}

-- `write` returned, and has sent all of `bs`, or it ended by an exception or in a wait for ever, and has
-- sent the first `k` bytes.
abbrev pub Sends : Bytes → Bytes → Result (Unit {0}) × List WriteAnswer × Bytes → Type 0
Sends bs sent (ok u, left, after) = after ≡ sent ++ bs
Sends bs sent (r, left, after) = (k : ℕ) × (after ≡ sent ++ take k bs)

take_empty : (n : ℕ) → take {A = ℕ} n [] ≡ []
take_empty zero = refl
take_empty (suc n) = refl

take_more : (n k : ℕ) (xs : Bytes) → take n xs ++ take k (drop n xs) ≡ take (n + k) xs
take_more zero k xs = ap (λ i. take i xs) {y = 0 + k} (omega arith)
take_more (suc n) zero [] = sym (take_empty (suc n + 0))
take_more (suc n) (suc k) [] = sym (take_empty (suc n + suc k))
take_more (suc n) k (x ∷ xs) =
    ap (λ t. x ∷ t) (take_more n k xs)
    ∙ ap (λ i. take i (x ∷ xs)) {x = suc (n + k)} {y = suc n + k} (omega arith)

stop-drop :
    (n : ℕ) (bs sent after : Bytes)
    → (k : ℕ) × (after ≡ (sent ++ take n bs) ++ take k (drop n bs))
    → (k : ℕ) × (after ≡ sent ++ take k bs)
stop-drop n bs sent after (k, h) = (
  n + k,
  h ∙ append_assoc sent (take n bs) (take k (drop n bs)) ∙ ap (λ t. sent ++ t) (take_more n k bs),
)

Sends-drop :
    (n : ℕ) (bs sent : Bytes) (o : Result (Unit {0}) × List WriteAnswer × Bytes)
    → Sends (drop n bs) (sent ++ take n bs) o
    → Sends bs sent o
Sends-drop n bs sent (ok u, left, after) h =
    h ∙ append_assoc sent (take n bs) (drop n bs) ∙ ap (λ t. sent ++ t) (take-append-drop n bs)
Sends-drop n bs sent (os_error c e, left, after) h = stop-drop n bs sent after h
Sends-drop n bs sent (yield_from_main, left, after) h = stop-drop n bs sent after h
Sends-drop n bs sent (stuck, left, after) h = stop-drop n bs sent after h
Sends-drop n bs sent (out_of_fuel, left, after) h = stop-drop n bs sent after h

-- However the kernel takes the bytes, `write` sends each byte once and in order: when it returns, it has
-- sent all of `bs`, and when it ends by an exception or in a wait for ever, a first part of `bs`.
pub write_bytes-Sends :
    (main : Bool) (bs : Bytes) (ans : List WriteAnswer) (sent : Bytes)
    → Sends bs sent (write_bytes main bs ans sent)
unfolding write_bytes
write_bytes-Sends main [] ans sent = sym (append-nil sent)
write_bytes-Sends main (b ∷ bs) [] sent = (0, sym (append-nil sent))
write_bytes-Sends main (b ∷ bs) (takes k ∷ ans) sent =
    let r = min (suc k) (length (b ∷ bs)) in
    Sends-drop r (b ∷ bs) sent (write_bytes main (drop r (b ∷ bs)) ans (sent ++ take r (b ∷ bs)))
      (write_bytes-Sends main (drop r (b ∷ bs)) ans (sent ++ take r (b ∷ bs)))
write_bytes-Sends true (b ∷ bs) (refuses_write e w ∷ ans) sent =
    elim (Bool-cases (e == ewouldblock)) [
      | inl q ↦ rw q (0, sym (append-nil sent))
      | inr q ↦ rw q (0, sym (append-nil sent))
    ]
write_bytes-Sends false (b ∷ bs) (refuses_write e none ∷ ans) sent =
    elim (Bool-cases (e == ewouldblock)) [
      | inl q ↦ rw q (write_bytes-Sends false (b ∷ bs) ans sent)
      | inr q ↦ rw q (0, sym (append-nil sent))
    ]
write_bytes-Sends false (b ∷ bs) (refuses_write e (some x) ∷ ans) sent =
    elim (Bool-cases (e == ewouldblock)) [
      | inl q ↦ rw q (0, sym (append-nil sent))
      | inr q ↦ rw q (0, sym (append-nil sent))
    ]

-- No refusal but those that a wait without an error follows.
abbrev pub IsWritable : List WriteAnswer → Type 0
IsWritable [] = Unit
IsWritable (takes k ∷ ans) = IsWritable ans
IsWritable (refuses_write e w ∷ ans) = (e ≡ ewouldblock) × (w ≡ none) × IsWritable ans

-- How often the kernel takes bytes.
abbrev pub takings : List WriteAnswer → ℕ
takings [] = 0
takings (takes k ∷ ans) = suc (takings ans)
takings (refuses_write e w ∷ ans) = takings ans

-- `write` returned, has sent all of `bs`, and has used up one taking for each byte at most.
pub record Writes (bs : Bytes) (ans : List WriteAnswer) (sent : Bytes)
    (o : Result (Unit {0}) × List WriteAnswer × Bytes) : Type 0 where
  pub left : List WriteAnswer
  pub result : o ≡ (ok tt, left, sent ++ bs)
  pub writable : IsWritable left
  pub takings_left : takings ans ≤ takings left + length bs

pub write_bytes-Writes :
    (bs : Bytes) (ans : List WriteAnswer) (sent : Bytes)
    → IsWritable ans
    → length bs ≤ takings ans
    → Writes bs ans sent (write_bytes false bs ans sent)
unfolding write_bytes
write_bytes-Writes [] ans sent s h = record {
  left = ans;
  result = ap (λ t. (ok tt, ans, t)) (sym (append-nil sent));
  writable = s;
  takings_left = omega arith;
}
write_bytes-Writes (b ∷ bs) [] sent s h = absurd (omega arith)
write_bytes-Writes (b ∷ bs) (takes k ∷ ans) sent s h =
    let r = min (suc k) (length (b ∷ bs)) in
    let fewer = length-drop r (b ∷ bs) in
    let i =
      write_bytes-Writes (drop r (b ∷ bs)) ans (sent ++ take r (b ∷ bs)) s (omega (arith, fewer)) in
    record {
      left = i.left;
      result =
          i.result
          ∙ ap (λ t. (ok tt, i.left, t))
              (append_assoc sent (take r (b ∷ bs)) (drop r (b ∷ bs))
                ∙ ap (λ t. sent ++ t) (take-append-drop r (b ∷ bs)));
      writable = i.writable;
      takings_left = omega (arith, fewer, i.takings_left);
    }
write_bytes-Writes (b ∷ bs) (refuses_write e w ∷ ans) sent s h =
    let i = write_bytes-Writes (b ∷ bs) ans sent s.2 h in
    rw (s.0, s.1)
      (record {
        left = i.left;
        result = i.result;
        writable = i.writable;
        takings_left = i.takings_left;
      })
