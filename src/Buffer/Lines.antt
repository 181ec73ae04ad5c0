-- ===== src/Buffer/Lines.antt =====
-- `get` on a text with one line in it: the line it returns, and the line it misses.
use coroplusplus.Common.{
  ℕ, zero, suc, ◌+◌, ◌<◌, ◌≡◌, ◌≢◌, refl, ap, sym, ◌∙◌, Bool, true, false, [], ◌∷◌, ◌++◌, arith,
  ◌==◌, ==_iff, ==_refl, length, take, drop, get_or, All, subst, length-append, take-length-append,
  drop-length-append, take-append-drop, append_assoc,
}
use coroplusplus.File.{Bytes, Result, ok}
use coroplusplus.File.Stream.{IsSteady}
use coroplusplus.Buffer.{Scan, found, unfinished, later, delim_at, scan, Stream, get}
use coroplusplus.Buffer.Matching.{behind, go_on, scan-append, EndsIn, scan-EndsIn}
use coroplusplus.Buffer.Get.{coming, GetsUpTo, get-GetsUpTo}

abbrev pub IsFreeOf : ℕ → Bytes → Type 0
IsFreeOf c xs = All (λ b. b ≢ c) xs

==_ne : (a b : ℕ) → a ≢ b → (a == b) ≡ false
==_ne a b h = ground arith

scan_free : (c : ℕ) (ds : Bytes) (xs : Bytes) → IsFreeOf c xs → scan (c ∷ ds) 0 xs ≡ unfinished 0
unfolding scan
scan_free c ds [] h = refl
scan_free c ds (x ∷ xs) h = rw (==_ne x c h.0) (ap later (scan_free c ds xs h.1))

-- Bytes without the first of the delimiter are passed.
scan_past :
    (c : ℕ) (ds : Bytes) (xs ys : Bytes)
    → IsFreeOf c xs
    → scan (c ∷ ds) 0 (xs ++ ys) ≡ behind (length xs) (scan (c ∷ ds) 0 ys)
scan_past c ds xs ys h =
    scan-append (c ∷ ds) 0 xs ys ∙ ap (go_on (c ∷ ds) ys (length xs)) (scan_free c ds xs h)

drop-suc : (m : ℕ) (xs : Bytes) → m < length xs → drop m xs ≡ get_or xs m 0 ∷ drop (suc m) xs
drop-suc m [] h = absurd (omega arith)
drop-suc zero (x ∷ xs) h = refl
drop-suc (suc m) (x ∷ xs) h = drop-suc m xs (omega arith)

scan_match :
    (n : ℕ) (delim : Bytes) (m : ℕ) (rest : Bytes)
    → m + suc n ≡ length delim
    → scan delim m (drop m delim ++ rest) ≡ found (suc n)
unfolding scan
scan_match zero delim m rest h =
    ap (λ t. scan delim m (t ++ rest)) (drop-suc m delim (omega arith))
    ∙ rw (==_refl (delim_at delim m), (==_iff (suc m) (length delim)).1 (omega arith)) refl
scan_match (suc n) delim m rest h =
    ap (λ t. scan delim m (t ++ rest)) (drop-suc m delim (omega arith))
    ∙ rw (==_refl (delim_at delim m), ==_ne (suc m) (length delim) (omega arith))
        (ap later (scan_match n delim (suc m) rest (omega arith)))

-- The second `c` is not the `d` that is expected, and is not taken for the first byte either.
scan_misses :
    (c d : ℕ) (rest : Bytes)
    → c ≢ d
    → IsFreeOf c rest
    → scan (c ∷ d ∷ []) 0 (c ∷ c ∷ d ∷ rest) ≡ unfinished 0
unfolding scan
scan_misses c d rest ne free =
    rw (==_refl c, ==_ne c d ne, ==_ne d c (λ e. ne (sym e)))
      (ap (λ r. later (later (later r))) (scan_free c (d ∷ []) rest free))

take_line :
    (n : ℕ) (xs ys zs : Bytes) → n ≡ length xs + length ys → take n (xs ++ (ys ++ zs)) ≡ xs ++ ys
take_line n xs ys zs h =
    ap (λ t. take n t) (sym (append_assoc xs ys zs))
    ∙ ap (λ i. take i ((xs ++ ys) ++ zs)) (omega (arith, h, length-append xs ys))
    ∙ take-length-append (xs ++ ys) zs

drop_line : (n : ℕ) (xs ys zs : Bytes) → n ≡ length xs + length ys → drop n (xs ++ (ys ++ zs)) ≡ zs
drop_line n xs ys zs h =
    ap (λ t. drop n t) (sym (append_assoc xs ys zs))
    ∙ ap (λ i. drop i ((xs ++ ys) ++ zs)) (omega (arith, h, length-append xs ys))
    ∙ drop-length-append (xs ++ ys) zs

pub get_end :
    (fuel : ℕ) (delim : Bytes) (st : Stream)
    → coming st ≡ []
    → 0 < fuel
    → IsSteady st.answers
    → (left : Stream) × (get false fuel delim st ≡ (ok (true, []), left))
      × (coming left ≡ [])
      × IsSteady left.answers
unfolding scan
get_end fuel delim st e h s =
    subst (λ t. GetsUpTo t (scan delim 0 t) (get false fuel delim st)) e
      (get-GetsUpTo fuel delim st (omega (arith, ap length e)) s)

-- A line is read from a stream that ends only at its end: if the coming bytes are `line`, the delimiter
-- and `rest`, and the delimiter's first byte is not in `line`, then `get`, with more rounds than bytes
-- and outside the main coroutine, returns `line` with the delimiter and that the stream has not closed,
-- and leaves `rest`, however the bytes arrive.
pub get_line :
    (fuel c : ℕ) (ds line rest : Bytes) (st : Stream)
    → coming st ≡ line ++ ((c ∷ ds) ++ rest)
    → IsFreeOf c line
    → length (coming st) < fuel
    → IsSteady st.answers
    → (left : Stream) × (get false fuel (c ∷ ds) st ≡ (ok (false, line ++ c ∷ ds), left))
      × (coming left ≡ rest)
      × IsSteady left.answers
get_line fuel c ds line rest st e free h s =
    let text = line ++ ((c ∷ ds) ++ rest) in
    let n = length line + suc (length ds) in
    let (left, result, stays, steady) : GetsUpTo text (found n) (get false fuel (c ∷ ds) st) =
      subst (λ r. GetsUpTo text r (get false fuel (c ∷ ds) st))
        (scan_past c ds line ((c ∷ ds) ++ rest) free
          ∙ ap (behind (length line)) (scan_match (length ds) (c ∷ ds) 0 rest (omega arith)))
        (subst (λ t. GetsUpTo t (scan (c ∷ ds) 0 t) (get false fuel (c ∷ ds) st)) e
          (get-GetsUpTo fuel (c ∷ ds) st h s)) in
    (
      left,
      result ∙ ap (λ t. (ok (false, t), left)) (take_line n line (c ∷ ds) rest (omega arith)),
      stays ∙ drop_line n line (c ∷ ds) rest (omega arith),
      steady,
    )

-- A delimiter of two different bytes is missed behind one more of its first: where that byte is neither
-- in `line` nor in `rest`, `get` reads the whole stream, which has the delimiter between the two, and
-- returns it all and that the stream has closed.
pub get_misses :
    (fuel c d : ℕ) (line rest : Bytes) (st : Stream)
    → c ≢ d
    → coming st ≡ line ++ c ∷ c ∷ d ∷ rest
    → IsFreeOf c line
    → IsFreeOf c rest
    → length (coming st) < fuel
    → IsSteady st.answers
    → (get false fuel (c ∷ d ∷ []) st).0 ≡ ok (true, line ++ c ∷ c ∷ d ∷ rest)
get_misses fuel c d line rest st ne e free free' h s =
    let text = line ++ c ∷ c ∷ d ∷ rest in
    let (left, result, stays, steady) : GetsUpTo text (unfinished 0)
        (get false fuel (c ∷ d ∷ []) st) =
      subst (λ r. GetsUpTo text r (get false fuel (c ∷ d ∷ []) st))
        (scan_past c (d ∷ []) line (c ∷ c ∷ d ∷ rest) free
          ∙ ap (behind (length line)) (scan_misses c d rest ne free'))
        (subst (λ t. GetsUpTo t (scan (c ∷ d ∷ []) 0 t) (get false fuel (c ∷ d ∷ []) st)) e
          (get-GetsUpTo fuel (c ∷ d ∷ []) st h s)) in
    ap (λ o. o.0) result

abbrev closed_of : Result (Bool × Bytes) → Bool
closed_of (ok p) = p.0
closed_of r = true

abbrev line_of : Result (Bool × Bytes) → Bytes
line_of (ok p) = p.1
line_of r = []

EndsIn-result :
    (delim text : Bytes) (r : Scan) (o : Result (Bool × Bytes) × Stream)
    → GetsUpTo text r o
    → EndsIn delim [] text r
    → closed_of o.0 ≡ false
    → ((q : Bytes) × (line_of o.0 ≡ q ++ delim)) × (line_of o.0 ++ coming o.1 ≡ text)
EndsIn-result delim text (found k) o (left, e, c, s) (q, h) open_still = (
  (q, ap (λ o. line_of o.0) e ∙ h),
  ap (λ o. line_of o.0 ++ coming o.1) e ∙ ap (λ t. take k text ++ t) c ∙ take-append-drop k text,
)
EndsIn-result delim text (unfinished m) o (left, e, c, s) h open_still =
    absurd (cc (ap (λ o. closed_of o.0) e, open_still))

-- Outside the main coroutine, on a stream that ends only at its end and with more rounds than bytes:
-- if `get` returns that the stream has not closed, what it returns ends in the delimiter, where that
-- is not empty, and what it returns and what it leaves are together the bytes that were coming.
pub get-EndsIn :
    (fuel : ℕ) (delim : Bytes) (st left : Stream) (line : Bytes)
    → 0 < length delim
    → length (coming st) < fuel
    → IsSteady st.answers
    → get false fuel delim st ≡ (ok (false, line), left)
    → ((q : Bytes) × (line ≡ q ++ delim)) × (line ++ coming left ≡ coming st)
get-EndsIn fuel delim st left line pos h s e =
    subst
      (λ o. ((q : Bytes) × (line_of o.0 ≡ q ++ delim)) × (line_of o.0 ++ coming o.1 ≡ coming st)) e
      (EndsIn-result delim (coming st) (scan delim 0 (coming st)) (get false fuel delim st)
        (get-GetsUpTo fuel delim st h s) (scan-EndsIn delim 0 (coming st) pos)
        (ap (λ o. closed_of o.0) e))
