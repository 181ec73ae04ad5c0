-- ===== src/Buffer/Consumer.antt =====
-- The methods that give what they read to a consumer.
use coroplusplus.Common.{
  ℕ, zero, suc, ◌-◌, ◌≤◌, ◌<◌, ◌≡◌, refl, ap, sym, ◌∙◌, false, true, inl, inr, List, [], ◌∷◌, ◌++◌,
  arith, ltb, ◌==◌, length, take, drop, append-nil, append_assoc, Bool-cases, subst,
  take-length-append, drop-length-append, take-append_of_le, drop-append_of_le, length-append,
}
use mathlib.Core.List.{flatten}
use coroplusplus.File.{Bytes, Result, ok, Answer, read_exact_chunks, ◌>>=◌}
use coroplusplus.File.Stream.{content, IsSteady, read_bytes-Reads}
use coroplusplus.File.Exact.{read_exact_chunks-GivesChunks}
use coroplusplus.Buffer.{Stream, consume_buffer, read_exact_consumer, read_blocks, read_to_eof}
use coroplusplus.Buffer.Get.{coming, take_within, drop_within}

-- What the consumer is given after `given`, and what is left.
abbrev pub Gives : List Bytes → Bytes → Bytes → Result (List Bytes) × Stream → Type 0
Gives given text after o =
    (chunks : List Bytes) × (left : Stream) × (o ≡ (ok (given ++ chunks), left))
    × (flatten chunks ≡ text)
    × (coming left ≡ after)

record Consumes (given : List Bytes) (st : Stream) : Type 0 where
  chunks : List Bytes
  result :
      consume_buffer given st
      ≡ (length st.buffer, given ++ chunks, record { buffer = []; answers = st.answers })
  joined : flatten chunks ≡ st.buffer

consume_buffer-Consumes :
    (given : List Bytes) (buf : Bytes) (ans : List Answer)
    → Consumes given (record { buffer = buf; answers = ans })
unfolding consume_buffer flatten
consume_buffer-Consumes given [] ans = record {
  chunks = [];
  result = ap (λ g. (0, g, record { buffer = []; answers = ans })) (sym (append-nil given));
  joined = refl;
}
consume_buffer-Consumes given (c ∷ cs) ans =
    let some_left : ltb 0 (suc (length cs)) ≡ true = ground arith in
    record { chunks = (c ∷ cs) ∷ []; result = rw some_left refl; joined = append-nil (c ∷ cs) }

-- The blocks that the loop of `read_to_eof` gives the consumer are the whole stream.
abbrev GivesAll : List Bytes → List Answer → Result (List Bytes) × List Answer → Type 0
GivesAll given ans o =
    (chunks : List Bytes) × (left : List Answer) × (o ≡ (ok (given ++ chunks), left))
    × (flatten chunks ≡ content ans)
    × (content left ≡ [])

blocks_round :
    (fuel block_size : ℕ) (given : List Bytes) (ans : List Answer) (got : Bytes)
    (left : List Answer)
    → got ++ content left ≡ content ans
    → (got ≡ [] → content ans ≡ [])
    → (0 < length got
        → GivesAll
            (given ++ got ∷ [])
            left
            (read_blocks false fuel block_size (given ++ got ∷ []) left))
    → GivesAll given ans (elim got [
      | [] ↦ (ok given, left)
      | b ∷ bs ↦ read_blocks false fuel block_size (given ++ (b ∷ bs) ∷ []) left
    ])
unfolding flatten
blocks_round fuel block_size given ans [] left joins live rest =
    ([], left, ap (λ g. (ok g, left)) (sym (append-nil given)), sym (live refl), joins ∙ live refl)
blocks_round fuel block_size given ans (b ∷ bs) left joins live rest =
    let (chunks, left', e, j, c) = rest (omega arith) in
    (
      (b ∷ bs) ∷ chunks,
      left',
      e ∙ ap (λ g. (ok g, left')) (append_assoc given ((b ∷ bs) ∷ []) chunks),
      ap (λ t. (b ∷ bs) ++ t) j ∙ joins,
      c,
    )

read_blocks-GivesAll :
    (fuel block_size : ℕ) (given : List Bytes) (ans : List Answer)
    → length (content ans) < fuel
    → 0 < block_size
    → IsSteady ans
    → GivesAll given ans (read_blocks false fuel block_size given ans)
unfolding read_blocks
read_blocks-GivesAll zero block_size given ans h pos s = absurd (omega arith)
read_blocks-GivesAll (suc fuel) block_size given ans h pos s =
    let r = read_bytes-Reads block_size ans pos s in
    let round = λ (buf : Bytes) (rest : List Answer).
      let o : Result (List Bytes) × List Answer = elim buf [
        | [] ↦ (ok given, rest)
        | b ∷ bs ↦ read_blocks false fuel block_size (given ++ (b ∷ bs) ∷ []) rest
      ] in
      o in
    subst (λ o. GivesAll given ans (o >>= round)) (sym r.result)
      (blocks_round fuel block_size given ans r.got r.left r.joins r.live (λ pos'.
        read_blocks-GivesAll fuel block_size (given ++ r.got ∷ []) r.left
          (omega (arith, ap length r.joins, length-append r.got (content r.left))) pos r.steady))

flatten-append : (xs ys : List Bytes) → flatten (xs ++ ys) ≡ flatten xs ++ flatten ys
unfolding flatten
flatten-append [] ys = refl
flatten-append (x ∷ xs) ys =
    ap (λ t. x ++ t) (flatten-append xs ys) ∙ sym (append_assoc x (flatten xs) (flatten ys))

-- Outside the main coroutine, on a stream that ends only at its end, with more rounds than bytes and
-- blocks of a positive size, `read_to_eof` gives the consumer all bytes that are buffered and to come,
-- in order, and leaves none.
pub read_to_eof-Gives :
    (fuel block_size : ℕ) (given : List Bytes) (st : Stream)
    → length (coming st) < fuel
    → 0 < block_size
    → IsSteady st.answers
    → Gives given (coming st) [] (read_to_eof false fuel block_size given st)
unfolding read_to_eof
read_to_eof-Gives fuel block_size given st h pos s =
    let c = consume_buffer-Consumes given st.buffer st.answers in
    let (chunks, left, e, j, ended) =
      read_blocks-GivesAll fuel block_size (given ++ c.chunks) st.answers
        (omega (arith, length-append st.buffer (content st.answers))) pos s in
    let finish = λ (o : ℕ × List Bytes × Stream).
      let p = read_blocks false fuel block_size o.1 o.2.answers in
      let out : Result (List Bytes) × Stream = (p.0, record o.2 { answers = p.1 }) in out in
    (
      c.chunks ++ chunks,
      record { buffer = []; answers = left },
      ap finish c.result
          ∙ ap (λ o. (o.0, record { buffer = []; answers = o.1 })) e
          ∙ ap (λ g. (ok g, record { buffer = []; answers = left }))
              (append_assoc given c.chunks chunks),
      flatten-append c.chunks chunks
          ∙ ap (λ t. t ++ flatten chunks) c.joined
          ∙ ap (λ t. st.buffer ++ t) j,
      ended,
    )

-- What the buffer's `read_exact` does once the buffer is consumed.
abbrev chunked : ℕ → ℕ → ℕ × List Bytes × Stream → Result (List Bytes) × Stream
chunked n fuel o =
    let p = read_exact_chunks false fuel 8000 (n - o.0) o.1 o.2.answers in
    (p.0, record o.2 { answers = p.1 })

one_piece : (xs : Bytes) → flatten (xs ∷ []) ≡ xs
unfolding flatten
one_piece xs = append-nil xs

-- Outside the main coroutine, on a stream that still has the `n` bytes and with at least as many rounds,
-- the consumer's `read_exact` gives it the next `n` bytes, in order, and leaves the others.
pub read_exact_consumer-Gives :
    (fuel n : ℕ) (given : List Bytes) (st : Stream)
    → n ≤ fuel
    → n ≤ length (coming st)
    → IsSteady st.answers
    → Gives given
        (take n (coming st))
        (drop n (coming st))
        (read_exact_consumer false fuel n given st)
unfolding read_exact_consumer
read_exact_consumer-Gives fuel n given st h enough s =
    let buf = st.buffer in
    let later = content st.answers in
    elim (Bool-cases (ltb n (length buf))) [
      | inl e ↦
          let le : n ≤ length buf = ground arith in
          rw e (
            take n buf ∷ [],
            record st { buffer = drop n buf },
            refl,
            one_piece (take n buf) ∙ take_within n buf later le,
            drop_within n buf later le,
          )
      | inr e ↦ elim (Bool-cases (length buf == n)) [
        | inl e' ↦
            let all : n ≡ length buf = ground arith in
            rw (e, e')
              (
                buf ∷ [],
                record { buffer = []; answers = st.answers },
                refl,
                one_piece buf
                    ∙ sym (ap (λ i. take i (buf ++ later)) all ∙ take-length-append buf later),
                sym (ap (λ i. drop i (buf ++ later)) all ∙ drop-length-append buf later),
              )
        | inr e' ↦ rw (e, e') (from_both e)
      ]
    ]
  where
    from_both :
        ltb n (length st.buffer) ≡ false
        → Gives given
            (take n (coming st))
            (drop n (coming st))
            (chunked n fuel (consume_buffer given st))
    from_both e =
        let buf = st.buffer in
        let later = content st.answers in
        let le : length buf ≤ n = ground arith in
        let c = consume_buffer-Consumes given buf st.answers in
        let g =
          read_exact_chunks-GivesChunks fuel (n - length buf) 8000 (given ++ c.chunks) st.answers
            (omega arith) (omega arith) (omega (arith, length-append buf later)) s in
        (
          c.chunks ++ g.chunks,
          record { buffer = []; answers = g.left },
          ap (chunked n fuel) c.result
              ∙ ap (λ o. (o.0, record { buffer = []; answers = o.1 })) g.result
              ∙ ap (λ t. (ok t, record { buffer = []; answers = g.left }))
                  (append_assoc given c.chunks g.chunks),
          flatten-append c.chunks g.chunks
              ∙ ap (λ t. t ++ flatten g.chunks) c.joined
              ∙ ap (λ t. buf ++ t) g.joined
              ∙ sym (take-append_of_le n buf later le),
          g.stays ∙ sym (drop-append_of_le n buf later le),
        )
