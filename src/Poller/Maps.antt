-- ===== src/Poller/Maps.antt =====
-- The laws of `fd_map`, whose keys ascend.
use coroplusplus.Common.{
  ℕ, suc, ◌≤◌, ◌<◌, ◌≡◌, refl, none, some, [], ◌∷◌, arith, ◌==◌, if◌then◌else◌,
}
use coroplusplus.Poller.{FdMap, insert, find, erase}

-- The keys ascend from `n` at least.
abbrev pub IsAbove : ℕ → FdMap → Type 0
IsAbove n [] = Unit
IsAbove n ((k, c) ∷ m) = (n ≤ k) × IsAbove (suc k) m

abbrev pub IsOrdered : FdMap → Type 0
IsOrdered = IsAbove 0

IsAbove-mono : (n n' : ℕ) (m : FdMap) → n' ≤ n → IsAbove n m → IsAbove n' m
IsAbove-mono n n' [] h a = tt
IsAbove-mono n n' ((k, c) ∷ m) h a = (omega arith, a.1)

pub insert-IsAbove : (n fd c : ℕ) (m : FdMap) → n ≤ fd → IsAbove n m → IsAbove n (insert fd c m)
unfolding insert
insert-IsAbove n fd c [] h a = (h, tt)
insert-IsAbove n fd c ((k, d) ∷ m) h a = ground (arith, insert-IsAbove (suc k) fd c m)

find_below : (n fd : ℕ) (m : FdMap) → fd < n → IsAbove n m → find fd m ≡ none
unfolding find
find_below n fd [] h a = refl
find_below n fd ((k, d) ∷ m) h a = ground (arith, find_below (suc k) fd m)

pub find-insert :
    (fd k c : ℕ) (m : FdMap) → find fd (insert k c m) ≡ (if fd == k then some c else find fd m)
unfolding find insert
find-insert fd k c [] = refl
find-insert fd k c ((j, d) ∷ m) = ground (arith, find-insert fd k c m)

pub erase-IsAbove : (n fd : ℕ) (m : FdMap) → IsAbove n m → IsAbove n (erase fd m)
unfolding erase
erase-IsAbove n fd [] a = tt
erase-IsAbove n fd ((k, d) ∷ m) a =
    ground (arith, erase-IsAbove (suc k) fd m, IsAbove-mono (suc k) n m)

pub find-erase :
    (n fd k : ℕ) (m : FdMap)
    → IsAbove n m
    → find fd (erase k m) ≡ (if fd == k then none else find fd m)
unfolding find erase
find-erase n fd k [] a = ground arith
find-erase n fd k ((j, d) ∷ m) a =
    ground (arith, find-erase (suc j) fd k m, find_below (suc j) fd m)
