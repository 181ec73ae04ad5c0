-- ===== src/Common/Memory.antt =====
-- Functions as stores: one cell updated, and the block copies of `memcpy`.
use Prim.Native.Nat.{ℕ, zero, suc, ◌+◌, ◌≤◌, ◌<◌}
use mathlib.Core.Path.{◌≡◌, refl, ap, ◌∙◌, fun_ext}
use mathlib.Core.Logic.{◌≢◌, inl, inr}
use mathlib.Core.List.{List, [], ◌∷◌, ◌++◌}
use mathlib.Core.Logic.{inl, inr}
use native.Mathlib.Omega.{arith}
use coroplusplus.Common.Tests.{◌==◌, if◌then◌else◌, ==_iff, Bool-cases}
use coroplusplus.Common.Lists.{length}

module _ {ℓ} {A : Type ℓ} where
  unfoldable pub update : (ℕ → A) → ℕ → A → ℕ → A
  update f i v j = if i == j then v else f j

  pub update_self : (f : ℕ → A) (i : ℕ) (v : A) → update f i v i ≡ v
  unfolding update
  update_self f i v = ground arith

  pub update_ne : (f : ℕ → A) (i j : ℕ) (v : A) → i ≢ j → update f i v j ≡ f j
  unfolding update
  update_ne f i j v h = ground arith

  pub update-update : (f : ℕ → A) (i : ℕ) (v w : A) → update (update f i v) i w ≡ update f i w
  unfolding update
  update-update f i v w =
      fun_ext λ j. elim (Bool-cases (i == j)) [ inl e ↦ rw e refl | inr e ↦ rw e refl ]

  -- Writing what is there changes nothing.
  pub update_same : (f : ℕ → A) (i : ℕ) → update f i (f i) ≡ f
  unfolding update
  update_same f i =
      fun_ext λ j. elim (Bool-cases (i == j)) [
        | inl e ↦ rw e (ap f ((==_iff i j).0 e))
        | inr e ↦ rw e refl
      ]

  -- The `n` cells from address `a` up.
  unfoldable pub read_block : (ℕ → A) → ℕ → ℕ → List A
  read_block m a zero = []
  read_block m a (suc n) = m a ∷ read_block m (suc a) n

  unfoldable pub write_block : (ℕ → A) → ℕ → List A → ℕ → A
  write_block m a [] = m
  write_block m a (x ∷ xs) = update (write_block m (suc a) xs) a x

  pub read_block-update_below :
      (m : ℕ → A) (i a n : ℕ) (v : A) → i < a → read_block (update m i v) a n ≡ read_block m a n
  unfolding read_block
  read_block-update_below m i a zero v h = refl
  read_block-update_below m i a (suc n) v h =
      ground (arith, update_ne m i a v, read_block-update_below m i (suc a) n v)

  pub read_block-update_above :
      (m : ℕ → A) (i a n : ℕ) (v : A) → a + n ≤ i → read_block (update m i v) a n ≡ read_block m a n
  unfolding read_block
  read_block-update_above m i a zero v h = refl
  read_block-update_above m i a (suc n) v h =
      ground (arith, update_ne m i a v, read_block-update_above m i (suc a) n v)

  -- What was copied in is what is copied out.
  pub read_block-write_block :
      (m : ℕ → A) (a : ℕ) (xs : List A) → read_block (write_block m a xs) a (length xs) ≡ xs
  unfolding read_block write_block
  read_block-write_block m a [] = refl
  read_block-write_block m a (x ∷ xs) = ground (
    arith,
    update_self (write_block m (suc a) xs) a x,
    read_block-update_below (write_block m (suc a) xs) a (suc a) (length xs) x,
    read_block-write_block m (suc a) xs,
  )

  pub length-read_block : (m : ℕ → A) (a n : ℕ) → length (read_block m a n) ≡ n
  unfolding read_block
  length-read_block m a zero = refl
  length-read_block m a (suc n) = ap suc (length-read_block m (suc a) n)

  pub read_block-write_block_below :
      (m : ℕ → A) (b n a : ℕ) (xs : List A)
      → b + n ≤ a
      → read_block (write_block m a xs) b n ≡ read_block m b n
  unfolding write_block
  read_block-write_block_below m b n a [] h = refl
  read_block-write_block_below m b n a (x ∷ xs) h =
      read_block-update_above (write_block m (suc a) xs) a b n x h
      ∙ read_block-write_block_below m b n (suc a) xs (omega arith)

  pub write_block_above :
      (m : ℕ → A) (a : ℕ) (xs : List A) (i : ℕ) → a + length xs ≤ i → write_block m a xs i ≡ m i
  unfolding write_block
  write_block_above m a [] i h = refl
  write_block_above m a (x ∷ xs) i h =
      update_ne (write_block m (suc a) xs) a i x (λ e. absurd (omega (arith, e)))
      ∙ write_block_above m (suc a) xs i (omega arith)

  pub read_block-add :
      (m : ℕ → A) (a n k : ℕ) → read_block m a (n + k) ≡ read_block m a n ++ read_block m (a + n) k
  unfolding read_block
  read_block-add m a zero k =
      let e : a ≡ a + 0 = omega arith in
      ap (λ n. read_block m a n) zero_add ∙ ap (λ b. read_block m b k) e
    where
      zero_add : 0 + k ≡ k
      zero_add = omega arith
  read_block-add m a (suc n) k =
      let e : suc n + k ≡ suc (n + k) = omega arith in
      let e' : suc a + n ≡ a + suc n = omega arith in
      ap (λ n. read_block m a n) e
      ∙ ap (λ ys. m a ∷ ys) (read_block-add m (suc a) n k)
      ∙ ap (λ b. m a ∷ (read_block m (suc a) n ++ read_block m b k)) e'
