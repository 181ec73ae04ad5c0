-- ===== src/Buffer/Matching.antt =====
-- What the scan for the delimiter finds.
use coroplusplus.Common.{
  ℕ, zero, suc, ◌+◌, ◌≤◌, ◌<◌, ◌≡◌, refl, ap, sym, ◌∙◌, ◌&&◌, inl, inr, [], ◌∷◌, ◌++◌, arith, ◌==◌,
  ==_iff, if◌then◌else◌, length, take, get_or, append-nil, append_assoc, Bool-cases,
}
use coroplusplus.File.{Bytes}
use coroplusplus.Buffer.{Scan, found, unfinished, later, delim_at, scan}

-- The scan of what follows `n` bytes, counted from before them.
abbrev pub behind : ℕ → Scan → Scan
behind n (found k) = found (n + k)
behind n (unfinished m) = unfinished m

-- The scan of a text in two parts: the second goes on where the first has ended.
abbrev pub go_on : Bytes → Bytes → ℕ → Scan → Scan
go_on delim ys n (found k) = found k
go_on delim ys n (unfinished m) = behind n (scan delim m ys)

behind_zero : (r : Scan) → r ≡ behind 0 r
behind_zero (found k) = ap found {y = 0 + k} (omega arith)
behind_zero (unfinished m) = refl

later-behind : (n : ℕ) (r : Scan) → later (behind n r) ≡ behind (suc n) r
later-behind n (found k) = ap found {y = suc n + k} (omega arith)
later-behind n (unfinished m) = refl

later-go_on :
    (delim ys : Bytes) (n : ℕ) (r : Scan)
    → later (go_on delim ys n r) ≡ go_on delim ys (suc n) (later r)
later-go_on delim ys n (found k) = refl
later-go_on delim ys n (unfinished m) = later-behind n (scan delim m ys)

pub scan-append :
    (delim : Bytes) (m : ℕ) (xs ys : Bytes)
    → scan delim m (xs ++ ys) ≡ go_on delim ys (length xs) (scan delim m xs)
unfolding scan
scan-append delim m [] ys = behind_zero (scan delim m ys)
scan-append delim m (c ∷ cs) ys =
    let next = if c == delim_at delim m then suc m else 0 in
    elim (Bool-cases ((c == delim_at delim m) && (suc m == length delim))) [
      | inl e ↦ rw e refl
      | inr e ↦ rw e (
          ap later (scan-append delim next cs ys)
          ∙ later-go_on delim ys (length cs) (scan delim next cs))
    ]

abbrev pub Within : ℕ → Scan → Type 0
Within n (found k) = k ≤ n
Within n (unfinished m) = Unit

later-Within : (n : ℕ) (r : Scan) → Within n r → Within (suc n) (later r)
later-Within n (found k) h = omega arith
later-Within n (unfinished m) h = tt

pub scan-Within : (delim : Bytes) (m : ℕ) (xs : Bytes) → Within (length xs) (scan delim m xs)
unfolding scan
scan-Within delim m [] = tt
scan-Within delim m (c ∷ cs) =
    let next = if c == delim_at delim m then suc m else 0 in
    elim (Bool-cases ((c == delim_at delim m) && (suc m == length delim))) [
      | inl e ↦ rw e (omega arith)
      | inr e ↦ rw e (later-Within (length cs) (scan delim next cs) (scan-Within delim next cs))
    ]

-- Where the scan stops, the bytes matched before it and those it has passed end in the delimiter.
abbrev pub EndsIn : Bytes → Bytes → Bytes → Scan → Type 0
EndsIn delim p xs (found k) = (q : Bytes) × (p ++ take k xs ≡ q ++ delim)
EndsIn delim p xs (unfinished m) = Unit

later-EndsIn :
    (delim p p' : Bytes) (c : ℕ) (q : Bytes) (xs : Bytes) (r : Scan)
    → q ++ p' ≡ p ++ c ∷ []
    → EndsIn delim p' xs r
    → EndsIn delim p (c ∷ xs) (later r)
later-EndsIn delim p p' c q xs (found k) e h = (
  q ++ h.0,
  sym (append_assoc p (c ∷ []) (take k xs))
      ∙ ap (λ t. t ++ take k xs) (sym e)
      ∙ append_assoc q p' (take k xs)
      ∙ ap (λ t. q ++ t) h.1
      ∙ sym (append_assoc q h.0 delim),
)
later-EndsIn delim p p' c q xs (unfinished m) e h = tt

take-suc : (m : ℕ) (xs : Bytes) → m < length xs → take (suc m) xs ≡ take m xs ++ get_or xs m 0 ∷ []
take-suc m [] h = absurd (omega arith)
take-suc zero (x ∷ xs) h = refl
take-suc (suc m) (x ∷ xs) h = ap (λ t. x ∷ t) (take-suc m xs (omega arith))

take_all : (n : ℕ) (xs : Bytes) → n ≡ length xs → take n xs ≡ xs
take_all zero [] h = refl
take_all zero (x ∷ xs) h = absurd (omega arith)
take_all (suc n) [] h = refl
take_all (suc n) (x ∷ xs) h = ap (λ t. x ∷ t) (take_all n xs (omega arith))

pub scan-EndsIn :
    (delim : Bytes) (m : ℕ) (xs : Bytes)
    → m < length delim
    → EndsIn delim (take m delim) xs (scan delim m xs)
unfolding scan
scan-EndsIn delim m [] h = tt
scan-EndsIn delim m (c ∷ cs) h = elim (Bool-cases (c == delim_at delim m)) [
  | inr e ↦ rw e (
      later-EndsIn delim (take m delim) [] c (take m delim ++ c ∷ []) cs (scan delim 0 cs)
        (append-nil (take m delim ++ c ∷ [])) (scan-EndsIn delim 0 cs (omega arith)))
  | inl e ↦
      let here : take (suc m) delim ≡ take m delim ++ c ∷ [] =
        take-suc m delim h
        ∙ ap (λ b. take m delim ++ b ∷ []) (sym ((==_iff c (delim_at delim m)).0 e)) in
      elim (Bool-cases (suc m == length delim)) [
        | inl l ↦
            rw (e, l) ([], sym here ∙ take_all (suc m) delim ((==_iff (suc m) (length delim)).0 l))
        | inr l ↦
            rw (e, l)
              (later-EndsIn delim (take m delim) (take (suc m) delim) c [] cs
                (scan delim (suc m) cs) here (scan-EndsIn delim (suc m) cs (ground arith)))
      ]
]
