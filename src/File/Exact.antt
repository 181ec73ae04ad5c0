-- ===== src/File/Exact.antt =====
-- `read_exact` on a stream that ends only at its end.
use coroplusplus.Common.{
  ℕ, zero, suc, ◌-◌, ◌≤◌, ◌<◌, ◌≡◌, refl, ap, sym, ◌∙◌, false, List, [], ◌∷◌, ◌++◌, arith, length,
  take, drop, min, append-nil, append_assoc, take-append_of_le, drop-append_of_le, length-pos, All,
  length-append, subst,
}
use mathlib.Core.List.{flatten}
use coroplusplus.File.{Bytes, Result, ok, out_of_fuel, Answer, read_exact, read_exact_chunks, ◌>>=◌}
use coroplusplus.File.Stream.{content, IsSteady, read_bytes-Reads}

-- The next `n` bytes are appended to `dst`, or all that are left, and the rest stays.
abbrev pub TakesExactly : ℕ → Bytes → List Answer → Result Bytes × List Answer → Type 0
TakesExactly n dst ans o =
    (left : List Answer) × (o ≡ (ok (dst ++ take n (content ans)), left))
    × (content left ≡ drop n (content ans))

take_nothing : (n : ℕ) (dst : Bytes) (xs : Bytes) → xs ≡ [] → dst ++ take n xs ≡ dst
take_nothing zero dst xs e = append-nil dst
take_nothing (suc n) dst xs e = ap (λ ys. dst ++ take (suc n) ys) e ∙ append-nil dst

drop_nothing : (n : ℕ) (xs : Bytes) → xs ≡ [] → drop n xs ≡ []
drop_nothing zero xs e = e
drop_nothing (suc n) xs e = ap (drop (suc n)) e

-- What one round makes of the bytes that it got.
exact_round :
    (fuel n : ℕ) (dst : Bytes) (ans : List Answer) (got : Bytes) (left : List Answer)
    → got ++ content left ≡ content ans
    → length got ≤ suc n
    → (got ≡ [] → content ans ≡ [])
    → ((m : ℕ) (dst' : Bytes)
        → m ≤ fuel
        → TakesExactly m dst' left (read_exact false fuel m dst' left))
    → n ≤ fuel
    → TakesExactly (suc n) dst ans (elim got [
      | [] ↦ (ok dst, left)
      | b ∷ bs ↦ read_exact false fuel (suc n - length (b ∷ bs)) (dst ++ b ∷ bs) left
    ])
exact_round fuel n dst ans [] left joins bounded live rest h = (
  left,
  ap (λ d. (ok d, left)) (sym (take_nothing (suc n) dst (content ans) (live refl))),
  joins ∙ live refl ∙ sym (drop_nothing (suc n) (content ans) (live refl)),
)
exact_round fuel n dst ans (b ∷ bs) left joins bounded live rest h =
    let got = b ∷ bs in
    let (left', result, stays) = rest (suc n - length got) (dst ++ got) (omega arith) in
    (
      left',
      result
          ∙ ap (λ d. (ok d, left'))
              (append_assoc dst got (take (suc n - length got) (content left))
                ∙ ap (λ t. dst ++ t)
                    (sym (take-append_of_le (suc n) got (content left) bounded)
                      ∙ ap (take (suc n)) joins)),
      stays ∙ sym (drop-append_of_le (suc n) got (content left) bounded) ∙ ap (drop (suc n)) joins,
    )

-- With at least as many rounds as bytes asked for, `read_exact` into a string appends exactly the next
-- `nbytes` bytes of the stream, or all that are left if it ends before, and leaves the others.
pub read_exact-TakesExactly :
    (fuel n : ℕ) (dst : Bytes) (ans : List Answer)
    → n ≤ fuel
    → IsSteady ans
    → TakesExactly n dst ans (read_exact false fuel n dst ans)
unfolding read_exact
read_exact-TakesExactly fuel zero dst ans h s =
    (ans, ap (λ d. (ok d, ans)) (sym (append-nil dst)), refl)
read_exact-TakesExactly zero (suc n) dst ans h s = absurd (omega arith)
read_exact-TakesExactly (suc fuel) (suc n) dst ans h s =
    let r = read_bytes-Reads (suc n) ans (omega arith) s in
    let round = λ (buf : Bytes) (rest : List Answer).
      let o : Result Bytes × List Answer = elim buf [
        | [] ↦ (ok dst, rest)
        | b ∷ bs ↦ read_exact false fuel (suc n - length (b ∷ bs)) (dst ++ b ∷ bs) rest
      ] in
      o in
    subst (λ o. TakesExactly (suc n) dst ans (o >>= round)) (sym r.result)
      (exact_round fuel n dst ans r.got r.left r.joins r.bounded r.live
        (λ m d le. read_exact-TakesExactly fuel m d r.left le r.steady) (omega arith))

-- The strings given to a consumer: they are what was given before and then, in pieces of at most
-- `block` bytes, the next `n` bytes of the stream.
pub record GivesChunks (n block : ℕ) (given : List Bytes) (ans : List Answer)
    (o : Result (List Bytes) × List Answer) : Type 0 where
  pub chunks : List Bytes
  pub left : List Answer
  pub result : o ≡ (ok (given ++ chunks), left)
  pub joined : flatten chunks ≡ take n (content ans)
  pub small : All (λ c. length c ≤ block) chunks
  pub stays : content left ≡ drop n (content ans)

-- The consumer's version, on a stream that still has the `n` bytes: with at least as many rounds as
-- bytes, it gives the consumer exactly those bytes, in pieces of at most `block` bytes.
pub read_exact_chunks-GivesChunks :
    (fuel n block : ℕ) (given : List Bytes) (ans : List Answer)
    → n ≤ fuel
    → 0 < block
    → n ≤ length (content ans)
    → IsSteady ans
    → GivesChunks n block given ans (read_exact_chunks false fuel block n given ans)
unfolding read_exact_chunks flatten
read_exact_chunks-GivesChunks fuel zero block given ans h pos enough s = record {
  chunks = [];
  left = ans;
  result = ap (λ d. (ok d, ans)) (sym (append-nil given));
  joined = refl;
  small = tt;
  stays = refl;
}
read_exact_chunks-GivesChunks zero (suc n) block given ans h pos enough s = absurd (omega arith)
read_exact_chunks-GivesChunks (suc fuel) (suc n) block given ans h pos enough s =
    let r = read_bytes-Reads (min (suc n) block) ans (omega arith) s in
    let some_got = length-pos r.got (λ e. absurd (omega (arith, ap length (r.live e)))) in
    let ih =
      read_exact_chunks-GivesChunks fuel (suc n - length r.got) block (given ++ r.got ∷ []) r.left
        (omega arith) pos (omega (arith, length-append r.got (content r.left), ap length r.joins))
        r.steady in
    subst
      (λ o. GivesChunks (suc n) block given ans (
        o >>= λ s rest.
        read_exact_chunks false fuel block (suc n - length s) (given ++ s ∷ []) rest))
      (sym r.result)
      (record {
        chunks = r.got ∷ ih.chunks;
        left = ih.left;
        result = ih.result ∙ ap (λ d. (ok d, ih.left)) (append_assoc given (r.got ∷ []) ih.chunks);
        joined =
            ap (λ t. r.got ++ t) ih.joined
            ∙ sym (take-append_of_le (suc n) r.got (content r.left) (omega (arith, r.bounded)))
            ∙ ap (take (suc n)) r.joins;
        small = (omega (arith, r.bounded), ih.small);
        stays =
            ih.stays
            ∙ sym (drop-append_of_le (suc n) r.got (content r.left) (omega (arith, r.bounded)))
            ∙ ap (drop (suc n)) r.joins;
      })

-- On a stream that ends before the `n` bytes, the consumer's version never returns: every bound on
-- the rounds is used up.
pub read_exact_chunks-spins :
    (fuel n block : ℕ) (given : List Bytes) (ans : List Answer)
    → 0 < block
    → length (content ans) < n
    → IsSteady ans
    → (read_exact_chunks false fuel block n given ans).0 ≡ out_of_fuel
unfolding read_exact_chunks flatten
read_exact_chunks-spins fuel zero block given ans pos short s = absurd (omega arith)
read_exact_chunks-spins zero (suc n) block given ans pos short s = refl
read_exact_chunks-spins (suc fuel) (suc n) block given ans pos short s =
    let r = read_bytes-Reads (min (suc n) block) ans (omega arith) s in
    subst
      (λ o.
        (o >>= λ s rest.
        read_exact_chunks false fuel block (suc n - length s) (given ++ s ∷ []) rest).0
        ≡ out_of_fuel)
      (sym r.result)
      (read_exact_chunks-spins fuel (suc n - length r.got) block (given ++ r.got ∷ []) r.left pos
        (omega (arith, length-append r.got (content r.left), ap length r.joins)) r.steady)
