-- ===== src/Poller/Poll/Slots.antt =====
-- What the two loops over the sets write into the poll set.
use coroplusplus.Common.{
  ℕ, suc, ◌-◌, ◌≤◌, ◌<◌, ◌≡◌, refl, ap, sym, ◌∙◌, true, false, none, some, [], ◌∷◌, arith, ltb,
  length, update, update_self, update_ne, Bool-cases, inl, inr, ◌==◌, ==_iff,
}
use coroplusplus.Poller.{FdMap, find}
use coroplusplus.Poller.Poll.{Bits, PollFd, fill_slots}

-- The slots below `j`, downwards, stand for the entries of a map: each has the descriptor, and the bits
-- that it had before with the wanted one.
abbrev pub Stands : (Bits → Bits) → FdMap → ℕ → (ℕ → PollFd) → (ℕ → PollFd) → Type 0
Stands want [] j before after = Unit
Stands want ((fd, c) ∷ m) j before after =
    (after (j - 1) ≡ record { fd = fd; events = want (before (j - 1)).events })
    × Stands want m (j - 1) before after

pub record Filled (want : Bits → Bits) (size : ℕ) (m : FdMap) (j : ℕ) (before : ℕ → PollFd)
    : Type 0 where
  pub after : ℕ → PollFd
  pub result : fill_slots want size m j before ≡ some (after, j - length m)
  pub stands : Stands want m j before after
  pub above : (k : ℕ) → j ≤ k → after k ≡ before k
  pub below : (k : ℕ) → k < j - length m → after k ≡ before k

-- What was written below `j` does not matter.
pub Stands-from :
    (want : Bits → Bits) (m : FdMap) (j : ℕ) (before before' after : ℕ → PollFd)
    → length m ≤ j
    → ((k : ℕ) → k < j → before k ≡ before' k)
    → Stands want m j before after
    → Stands want m j before' after
Stands-from want [] j before before' after h same s = tt
Stands-from want ((fd, c) ∷ m) j before before' after h same s = (
  s.0
      ∙ ap (λ (b : PollFd). record { fd = fd; events = want b.events })
          (same (j - 1) (omega arith)),
  Stands-from want m (j - 1) before before' after (omega arith) (λ k lt. same k (omega arith)) s.1,
)

pub fill_slots-Filled :
    (want : Bits → Bits) (size : ℕ) (m : FdMap) (j : ℕ) (before : ℕ → PollFd)
    → length m ≤ j
    → j ≤ size
    → Filled want size m j before
unfolding fill_slots
fill_slots-Filled want size [] j before h k = record {
  after = before;
  result = ap (λ i. some (before, i)) {y = j - 0} (omega arith);
  stands = tt;
  above = λ i le. refl;
  below = λ i lt. refl;
}
fill_slots-Filled want size ((fd, c) ∷ m) j before h k =
    let slot : PollFd = record { fd = fd; events = want (before (j - 1)).events } in
    let r =
      fill_slots-Filled want size m (j - 1) (update before (j - 1) slot) (omega arith)
        (omega arith) in
    let inside : ltb (j - 1) size ≡ true = ground arith in
    record {
      after = r.after;
      result =
          rw inside (r.result ∙ ap (λ i. some (r.after, i)) {y = j - suc (length m)} (omega arith));
      stands = (
        r.above (j - 1) (omega arith) ∙ update_self before (j - 1) slot,
        Stands-from want m (j - 1) (update before (j - 1) slot) before r.after (omega arith)
            (λ i lt. update_ne before (j - 1) i slot (λ e. absurd (omega arith))) r.stands,
      );
      above = λ i le.
          r.above i (omega arith) ∙ update_ne before (j - 1) i slot (λ e. absurd (omega arith));
      below = λ i lt.
          r.below i (omega arith) ∙ update_ne before (j - 1) i slot (λ e. absurd (omega arith));
    }

pub fill_slots_outside :
    (want : Bits → Bits) (size : ℕ) (m : FdMap) (j : ℕ) (before : ℕ → PollFd)
    → size < j
    → 0 < length m
    → fill_slots want size m j before ≡ none
unfolding fill_slots
fill_slots_outside want size [] j before h k = absurd (omega arith)
fill_slots_outside want size ((fd, c) ∷ m) j before h k =
    let outside : ltb (j - 1) size ≡ false = ground arith in rw outside refl

pub fill_slots_empty :
    (want : Bits → Bits) (size : ℕ) (m : FdMap) (j : ℕ) (before : ℕ → PollFd)
    → length m ≡ 0
    → fill_slots want size m j before ≡ some (before, j)
unfolding fill_slots
fill_slots_empty want size [] j before h = refl
fill_slots_empty want size ((fd, c) ∷ m) j before h = absurd (omega arith)

-- The slots above the ones that are written later.
pub Stands-to :
    (want : Bits → Bits) (m : FdMap) (j : ℕ) (before after after' : ℕ → PollFd)
    → length m ≤ j
    → ((k : ℕ) → j - length m ≤ k → after' k ≡ after k)
    → Stands want m j before after
    → Stands want m j before after'
Stands-to want [] j before after after' h same s = tt
Stands-to want ((fd, c) ∷ m) j before after after' h same s = (
  same (j - 1) (omega arith) ∙ s.0,
  Stands-to want m (j - 1) before after after' (omega arith) (λ k le. same k (omega arith)) s.1,
)

-- The slot of a descriptor in the map.
pub slot_of :
    (want : Bits → Bits) (m : FdMap) (j : ℕ) (before after : ℕ → PollFd) (fd c : ℕ)
    → length m ≤ j
    → find fd m ≡ some c
    → Stands want m j before after
    → (k : ℕ) × (k < j) × (after k ≡ record { fd = fd; events = want (before k).events })
unfolding find
slot_of want [] j before after fd c h e s = absurd (cc e)
slot_of want ((i, d) ∷ m) j before after fd c h e s = elim (Bool-cases (fd == i)) [
  | inl same ↦ (
    j - 1,
    omega arith,
    s.0
        ∙ ap (λ x. record { fd = x; events = want (before (j - 1)).events })
            (sym ((==_iff fd i).0 same)),
  )
  | inr other ↦
      let e' : find fd m ≡ some c = rw other at e in
      let (k, below, eq) = slot_of want m (j - 1) before after fd c (omega arith) e' s.1 in
      (k, omega arith, eq)
]
