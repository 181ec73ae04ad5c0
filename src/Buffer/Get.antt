-- ===== src/Buffer/Get.antt =====
-- `get` on a stream that ends only at its end: what it reads does not depend on how the stream arrives.
use coroplusplus.Common.{
  ℕ, zero, suc, ◌+◌, ◌≤◌, ◌<◌, ◌≡◌, refl, ap, sym, ◌∙◌, Bool, true, false, List, [], ◌∷◌, ◌++◌,
  arith, length, take, drop, append-nil, append_assoc, subst, length-append,
}
use mathlib.Core.List.{flatten}
use coroplusplus.File.{Bytes, Result, ok, Answer, map_result}
use coroplusplus.File.Stream.{content, IsSteady, read_bytes-Reads}
use coroplusplus.Buffer.{
  Scan, found, unfinished, scan, Stream, fill, and_then, get_pieces, string_join, get,
}
use coroplusplus.Buffer.Matching.{behind, go_on, scan-append, scan-Within, Within}

-- The bytes that the buffer has and that are to come.
abbrev pub coming : Stream → Bytes
coming st = st.buffer ++ content st.answers

record Fills (st : Stream) : Type 0 where
  got : Bytes
  left : List Answer
  result : fill false st ≡ (ok got, left)
  joins : got ++ content left ≡ coming st
  steady : IsSteady left
  live : got ≡ [] → coming st ≡ []

fill_lem :
    (buf : Bytes) (ans : List Answer)
    → IsSteady ans
    → Fills (record { buffer = buf; answers = ans })
unfolding fill
fill_lem [] ans s =
    let r = read_bytes-Reads 8192 ans (omega arith) s in
    record {
      got = r.got;
      left = r.left;
      result = r.result;
      joins = r.joins;
      steady = r.steady;
      live = r.live;
    }
fill_lem (c ∷ cs) ans s = record {
  got = c ∷ cs;
  left = ans;
  result = refl;
  joins = refl;
  steady = s;
  live = λ e. absurd (omega (arith, ap length e));
}

-- The pieces that are added to `sl`, and what is left, if the scan of the whole text ends so.
abbrev Gets : List Bytes → Bytes → Scan → Result (Bool × List Bytes) × Stream → Type 0
Gets sl text (found k) o =
    (ps : List Bytes) × (left : Stream) × (o ≡ (ok (false, sl ++ ps), left))
    × (flatten ps ≡ take k text)
    × (coming left ≡ drop k text)
    × IsSteady left.answers
Gets sl text (unfinished m) o =
    (ps : List Bytes) × (left : Stream) × (o ≡ (ok (true, sl ++ ps), left))
    × (flatten ps ≡ text)
    × (coming left ≡ [])
    × IsSteady left.answers

pub take_within : (k : ℕ) (xs ys : Bytes) → k ≤ length xs → take k xs ≡ take k (xs ++ ys)
take_within zero xs ys h = refl
take_within (suc k) [] ys h = absurd (omega arith)
take_within (suc k) (x ∷ xs) ys h = ap (λ t. x ∷ t) (take_within k xs ys (omega arith))

pub drop_within : (k : ℕ) (xs ys : Bytes) → k ≤ length xs → drop k xs ++ ys ≡ drop k (xs ++ ys)
drop_within zero xs ys h = refl
drop_within (suc k) [] ys h = absurd (omega arith)
drop_within (suc k) (x ∷ xs) ys h = drop_within k xs ys (omega arith)

take_beyond : (k : ℕ) (xs ys : Bytes) → xs ++ take k ys ≡ take (length xs + k) (xs ++ ys)
take_beyond k [] ys = ap (λ i. take i ys) {y = 0 + k} (omega arith)
take_beyond k (x ∷ xs) ys =
    ap (λ t. x ∷ t) (take_beyond k xs ys)
    ∙ ap (λ i. take i (x ∷ xs ++ ys)) {x = suc (length xs + k)} {y = suc (length xs) + k}
        (omega arith)

drop_beyond : (k : ℕ) (xs ys : Bytes) → drop k ys ≡ drop (length xs + k) (xs ++ ys)
drop_beyond k [] ys = ap (λ i. drop i ys) {y = 0 + k} (omega arith)
drop_beyond k (x ∷ xs) ys =
    drop_beyond k xs ys
    ∙ ap (λ i. drop i (x ∷ xs ++ ys)) {x = suc (length xs + k)} {y = suc (length xs) + k}
        (omega arith)

-- One piece without the end of the delimiter, then the others.
Gets-cons :
    (sl : List Bytes) (buf rest : Bytes) (r : Scan) (o : Result (Bool × List Bytes) × Stream)
    → Gets (sl ++ buf ∷ []) rest r o
    → Gets sl (buf ++ rest) (behind (length buf) r) o
unfolding flatten
Gets-cons sl buf rest (found k) o (ps, left, e, j, c, s) = (
  buf ∷ ps,
  left,
  e ∙ ap (λ t. (ok (false, t), left)) (append_assoc sl (buf ∷ []) ps),
  ap (λ t. buf ++ t) j ∙ take_beyond k buf rest,
  c ∙ drop_beyond k buf rest,
  s,
)
Gets-cons sl buf rest (unfinished m) o (ps, left, e, j, c, s) = (
  buf ∷ ps,
  left,
  e ∙ ap (λ t. (ok (true, t), left)) (append_assoc sl (buf ∷ []) ps),
  ap (λ t. buf ++ t) j,
  c,
  s,
)

-- The rest of a round, when the buffer is filled.
abbrev after_scan :
    ℕ → Bytes → List Bytes → Bytes → List Answer → Scan → Result (Bool × List Bytes) × Stream
after_scan fuel delim sl buf ans (found k) =
    (ok (false, sl ++ take k buf ∷ []), record { buffer = drop k buf; answers = ans })
after_scan fuel delim sl buf ans (unfinished m) =
    get_pieces false fuel delim m (sl ++ buf ∷ []) (record { buffer = []; answers = ans })

after_scan-Gets :
    (fuel : ℕ) (delim : Bytes) (sl : List Bytes) (buf : Bytes) (ans : List Answer) (r : Scan)
    → IsSteady ans
    → ((m : ℕ)
        → Gets (sl ++ buf ∷ []) (content ans) (scan delim m (content ans)) (
            get_pieces false fuel delim m (sl ++ buf ∷ []) (record { buffer = []; answers = ans })))
    → Within (length buf) r
    → Gets sl
        (buf ++ content ans)
        (go_on delim (content ans) (length buf) r)
        (after_scan fuel delim sl buf ans r)
unfolding flatten
after_scan-Gets fuel delim sl buf ans (found k) s ih w = (
  take k buf ∷ [],
  record { buffer = drop k buf; answers = ans },
  refl,
  append-nil (take k buf) ∙ take_within k buf (content ans) w,
  drop_within k buf (content ans) w,
  s,
)
after_scan-Gets fuel delim sl buf ans (unfinished m) s ih w =
    Gets-cons sl buf (content ans) (scan delim m (content ans))
      (get_pieces false fuel delim m (sl ++ buf ∷ []) (record { buffer = []; answers = ans }))
      (ih m)

abbrev after_fill :
    ℕ → Bytes → ℕ → List Bytes → Bytes → List Answer → Result (Bool × List Bytes) × Stream
after_fill fuel delim m sl buf ans = elim buf [
  | [] ↦ (ok (true, sl), record { buffer = []; answers = ans })
  | c ∷ cs ↦ elim (scan delim m (c ∷ cs)) [
    | found k ↦
        (ok (false, sl ++ take k (c ∷ cs) ∷ []), record { buffer = drop k (c ∷ cs); answers = ans })
    | unfinished m' ↦
        get_pieces false fuel delim m' (sl ++ (c ∷ cs) ∷ []) (record { buffer = []; answers = ans })
  ]
]

after_fill_eq :
    (fuel : ℕ) (delim : Bytes) (m : ℕ) (sl : List Bytes) (c : ℕ) (cs : Bytes) (ans : List Answer)
    → after_scan fuel delim sl (c ∷ cs) ans (scan delim m (c ∷ cs))
      ≡ after_fill fuel delim m sl (c ∷ cs) ans
after_fill_eq fuel delim m sl c cs ans = elim (scan delim m (c ∷ cs)) [
  | found k ↦ refl
  | unfinished m' ↦ refl
]

at_end-Gets :
    (delim : Bytes) (m : ℕ) (sl : List Bytes) (ans : List Answer)
    → IsSteady ans
    → content ans ≡ []
    → Gets sl [] (scan delim m []) (ok (true, sl), record { buffer = []; answers = ans })
unfolding flatten scan
at_end-Gets delim m sl ans s none_left = (
  [],
  record { buffer = []; answers = ans },
  ap (λ t. (ok (true, t), record { buffer = []; answers = ans })) (sym (append-nil sl)),
  refl,
  none_left,
  s,
)

after_fill-Gets :
    (fuel : ℕ) (delim : Bytes) (m : ℕ) (sl : List Bytes) (buf : Bytes) (ans : List Answer)
    → IsSteady ans
    → ((m' : ℕ)
        → 0 < length buf
        → Gets (sl ++ buf ∷ []) (content ans) (scan delim m' (content ans)) (
            get_pieces false fuel delim m'
              (sl ++ buf ∷ [])
              (record { buffer = []; answers = ans })))
    → (buf ≡ [] → content ans ≡ [])
    → Gets sl
        (buf ++ content ans)
        (scan delim m (buf ++ content ans))
        (after_fill fuel delim m sl buf ans)
after_fill-Gets fuel delim m sl [] ans s ih live =
    subst
      (λ xs. Gets sl xs (scan delim m xs) (ok (true, sl), record { buffer = []; answers = ans }))
      (sym (live refl)) (at_end-Gets delim m sl ans s (live refl))
after_fill-Gets fuel delim m sl (c ∷ cs) ans s ih live =
    let buf = c ∷ cs in
    subst (λ r. Gets sl (buf ++ content ans) r (after_fill fuel delim m sl buf ans))
      (sym (scan-append delim m buf (content ans)))
      (subst
        (Gets sl (buf ++ content ans) (go_on delim (content ans) (length buf) (scan delim m buf)))
        (after_fill_eq fuel delim m sl c cs ans)
        (after_scan-Gets fuel delim sl buf ans (scan delim m buf) s (λ m'. ih m' (omega arith))
          (scan-Within delim m buf)))

get_pieces-Gets :
    (fuel : ℕ) (delim : Bytes) (m : ℕ) (sl : List Bytes) (buf : Bytes) (ans : List Answer)
    → length (buf ++ content ans) < fuel
    → IsSteady ans
    → Gets sl
        (buf ++ content ans)
        (scan delim m (buf ++ content ans))
        (get_pieces false fuel delim m sl (record { buffer = buf; answers = ans }))
unfolding get_pieces
get_pieces-Gets zero delim m sl buf ans h s = absurd (omega arith)
get_pieces-Gets (suc fuel) delim m sl buf ans h s =
    let f = fill_lem buf ans s in
    subst
      (λ o.
        Gets sl (buf ++ content ans) (scan delim m (buf ++ content ans))
          (and_then o (after_fill fuel delim m sl)))
      (sym f.result)
      (subst (λ t. Gets sl t (scan delim m t) (after_fill fuel delim m sl f.got f.left)) f.joins
        (after_fill-Gets fuel delim m sl f.got f.left f.steady
          (λ m' pos.
            get_pieces-Gets fuel delim m' (sl ++ f.got ∷ []) [] f.left
              (omega (arith, ap length f.joins, length-append f.got (content f.left))) f.steady)
          (λ e. ap (λ b. b ++ content f.left) (sym e) ∙ f.joins ∙ f.live e)))

string_join_eq : (xs : Bytes) (ps : List Bytes) → string_join xs ps ≡ xs ++ flatten ps
unfolding string_join flatten
string_join_eq xs [] = sym (append-nil xs)
string_join_eq xs (p ∷ ps) = string_join_eq (xs ++ p) ps ∙ append_assoc xs p (flatten ps)

-- What `get` returns and leaves, if the scan of the whole text ends so.
abbrev pub GetsUpTo : Bytes → Scan → Result (Bool × Bytes) × Stream → Type 0
GetsUpTo text (found k) o =
    (left : Stream) × (o ≡ (ok (false, take k text), left))
    × (coming left ≡ drop k text)
    × IsSteady left.answers
GetsUpTo text (unfinished m) o =
    (left : Stream) × (o ≡ (ok (true, text), left)) × (coming left ≡ []) × IsSteady left.answers

join_pieces :
    (text : Bytes) (r : Scan) (o : Result (Bool × List Bytes) × Stream)
    → Gets [] text r o
    → GetsUpTo text r (map_result (λ p. (p.0, string_join [] p.1)) o.0, o.1)
join_pieces text (found k) o (ps, left, e, j, c, s) = (
  left,
  ap (λ o. (map_result (λ p. (p.0, string_join [] p.1)) o.0, o.1)) e
      ∙ ap (λ t. (ok (false, t), left)) (string_join_eq [] ps ∙ j),
  c,
  s,
)
join_pieces text (unfinished m) o (ps, left, e, j, c, s) = (
  left,
  ap (λ o. (map_result (λ p. (p.0, string_join [] p.1)) o.0, o.1)) e
      ∙ ap (λ t. (ok (true, t), left)) (string_join_eq [] ps ∙ j),
  c,
  s,
)

-- With more rounds than bytes, `get` outside the main coroutine depends only on the bytes that are
-- buffered and to come, on a stream that ends only at its end: if the scan of them all finds the
-- delimiter after `k` bytes, it returns those and that the stream has not closed, and leaves the others;
-- if not, it returns them all and that the stream has closed.
pub get-GetsUpTo :
    (fuel : ℕ) (delim : Bytes) (st : Stream)
    → length (coming st) < fuel
    → IsSteady st.answers
    → GetsUpTo (coming st) (scan delim 0 (coming st)) (get false fuel delim st)
unfolding get
get-GetsUpTo fuel delim st h s =
    join_pieces (coming st) (scan delim 0 (coming st)) (get_pieces false fuel delim 0 [] st)
      (get_pieces-Gets fuel delim 0 [] st.buffer st.answers h s)
