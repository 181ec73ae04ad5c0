-- ===== src/File/Stream.antt =====
-- Reading a stream that ends only at its end: what one `read` takes from it.
use coroplusplus.Common.{
  ℕ, ◌≤◌, ◌<◌, ◌≡◌, ◌≢◌, refl, ap, sym, ◌∙◌, false, none, List, [], ◌∷◌, ◌++◌, arith, leb, length,
  take, drop, take-append-drop, take-eq_of_le, length-take, length-drop, length-pos, inl, inr,
  append_assoc, Bool-cases,
}
use coroplusplus.File.{
  Bytes, Result, ok, Answer, arrives, refuses, ewouldblock, after_take, read_bytes,
}

-- All bytes that are to come.
abbrev pub content : List Answer → Bytes
content [] = []
content (arrives bs ∷ ans) = bs ++ content ans
content (refuses e w ∷ ans) = content ans

-- No answer is empty, an error, or a wait that fails.
abbrev pub IsSteady : List Answer → Type 0
IsSteady [] = Unit
IsSteady (arrives bs ∷ ans) = (bs ≢ []) × IsSteady ans
IsSteady (refuses e w ∷ ans) = (e ≡ ewouldblock) × (w ≡ none) × IsSteady ans

-- One read takes a first part of the stream, of `n` bytes at most, and none only at its end.
pub record Reads (n : ℕ) (ans : List Answer) (o : Result Bytes × List Answer) : Type 0 where
  pub got : Bytes
  pub left : List Answer
  pub result : o ≡ (ok got, left)
  pub joins : got ++ content left ≡ content ans
  pub bounded : length got ≤ n
  pub steady : IsSteady left
  pub live : got ≡ [] → content ans ≡ []

after_take-content :
    (n : ℕ) (bs : Bytes) (ans : List Answer)
    → take n bs ++ content (after_take n bs ans) ≡ bs ++ content ans
unfolding after_take
after_take-content n bs ans = elim (Bool-cases (leb (length bs) n)) [
  | inl e ↦ rw e (ap (λ t. t ++ content ans) (take-eq_of_le n bs (ground arith)))
  | inr e ↦ rw e (
      sym (append_assoc (take n bs) (drop n bs) (content ans))
      ∙ ap (λ t. t ++ content ans) (take-append-drop n bs))
]

after_take-IsSteady :
    (n : ℕ) (bs : Bytes) (ans : List Answer) → IsSteady ans → IsSteady (after_take n bs ans)
unfolding after_take
after_take-IsSteady n bs ans s = elim (Bool-cases (leb (length bs) n)) [
  | inl e ↦ rw e s
  | inr e ↦ rw e (more e, s)
]
  where
    more : leb (length bs) n ≡ false → drop n bs ≢ []
    more e none_left = let short = ap length none_left in absurd (ground (arith, length-drop n bs))

pub read_bytes-Reads :
    (n : ℕ) (ans : List Answer) → 0 < n → IsSteady ans → Reads n ans (read_bytes false n ans)
unfolding read_bytes
read_bytes-Reads n [] pos s = record {
  got = [];
  left = [];
  result = refl;
  joins = refl;
  bounded = omega arith;
  steady = tt;
  live = λ e. refl;
}
read_bytes-Reads n (arrives bs ∷ ans) pos s = record {
  got = take n bs;
  left = after_take n bs ans;
  result = refl;
  joins = after_take-content n bs ans;
  bounded = omega (arith, length-take n bs);
  steady = after_take-IsSteady n bs ans s.1;
  live = λ e. absurd (omega (arith, ap length e, length-take n bs, length-pos bs s.0));
}
read_bytes-Reads n (refuses e w ∷ ans) pos s =
    let r = read_bytes-Reads n ans pos s.2 in
    rw (s.0, s.1)
      (record {
        got = r.got;
        left = r.left;
        result = r.result;
        joins = r.joins;
        bounded = r.bounded;
        steady = r.steady;
        live = r.live;
      })
