-- ===== src/Buffer/Exact.antt =====
-- `read_exact` into a string, of the buffer and then of the file.
use coroplusplus.Common.{
  ℕ, ◌-◌, ◌≤◌, ◌≡◌, refl, ap, sym, ◌∙◌, inl, inr, zero, suc, [], ◌++◌, arith, ltb, ◌==◌, ==_iff,
  length, take, drop, append-nil, append_assoc, Bool-cases, false, take-append_of_le,
  drop-append_of_le,
}
use coroplusplus.File.{Bytes, ok, read_exact}
use coroplusplus.File.Stream.{content, IsSteady}
use coroplusplus.File.Exact.{read_exact-TakesExactly, TakesExactly}
use coroplusplus.Buffer.{Stream, read_exact_string}
use coroplusplus.Buffer.Get.{coming, take_within, drop_within}

take_none : (n : ℕ) (xs : Bytes) → n ≡ 0 → take n xs ≡ []
take_none zero xs h = refl
take_none (suc n) xs h = absurd (omega arith)

-- Outside the main coroutine, on a stream that ends only at its end and with at least as many rounds as
-- bytes, `read_exact` appends the next `n` bytes to `s`, or all that are coming if they are fewer, and
-- leaves the others, whichever part of them is buffered.
pub read_exact_string_lem :
    (fuel n : ℕ) (s : Bytes) (st : Stream)
    → n ≤ fuel
    → IsSteady st.answers
    → (left : Stream) × (read_exact_string false fuel n s st ≡ (ok (s ++ take n (coming st)), left))
      × (coming left ≡ drop n (coming st))
unfolding read_exact_string
read_exact_string_lem fuel n s st h steady =
    let buf = st.buffer in
    let later = content st.answers in
    elim (Bool-cases (ltb n (length buf))) [
      | inl e ↦
          let le : n ≤ length buf = ground arith in
          rw e (
            record st { buffer = drop n buf },
            ap (λ t. (ok (s ++ t), record st { buffer = drop n buf })) (take_within n buf later le),
            drop_within n buf later le,
          )
      | inr e ↦
          let le : length buf ≤ n = ground arith in
          let (left, result, stays) : TakesExactly (n - length buf) (s ++ buf) st.answers
              (read_exact false fuel (n - length buf) (s ++ buf) st.answers) =
            read_exact-TakesExactly fuel (n - length buf) (s ++ buf) st.answers (omega arith)
              steady in
          elim (Bool-cases (length buf == n)) [
            | inl e' ↦
                rw (e, e')
                  (
                    record { buffer = []; answers = st.answers },
                    ap (λ t. (ok t, record { buffer = []; answers = st.answers }))
                        (ap (λ t. s ++ t)
                            (sym (append-nil buf)
                              ∙ ap (λ t. buf ++ t)
                                  (sym (
                                    take_none (n - length buf) later
                                      (omega (arith, (==_iff (length buf) n).0 e')))))
                          ∙ ap (λ t. s ++ t) (sym (take-append_of_le n buf later le))),
                    ap (λ i. drop i later) {x = 0} (omega (arith, ((==_iff (length buf) n).0 e')))
                        ∙ sym (drop-append_of_le n buf later le),
                  )
            | inr e' ↦
                rw (e, e')
                  (
                    record { buffer = []; answers = left },
                    ap (λ o. (o.0, record { buffer = []; answers = o.1 })) result
                        ∙ ap (λ t. (ok t, record { buffer = []; answers = left }))
                            (append_assoc s buf (take (n - length buf) later)
                              ∙ ap (λ t. s ++ t) (sym (take-append_of_le n buf later le))),
                    stays ∙ sym (drop-append_of_le n buf later le),
                  )
          ]
    ]
