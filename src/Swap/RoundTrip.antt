-- ===== src/Swap/RoundTrip.antt =====
-- `__swap` away and back: what the thread that called it finds when it returns.
use coroplusplus.Common.{ℕ, ◌≡◌, ◌≢◌, arith, update_self, update_ne}
use coroplusplus.Swap.{Machine, save_registers, ret, swap}

module _ (to from : ℕ) (m n : Machine) where
  -- Two coroutines swap away and, whatever ran in between, back. If the saved state of the first
  -- was left alone, then the swap back returns from its call of `__swap` with every kept register and
  -- the return address as at the call; of the memory it writes the return address at most, and of the
  -- saved states that of the second coroutine at most.
  pub swap-swap :
      to ≢ from
      → n.states from ≡ (swap to from m).states from
      → ((swap from to n).cpu ≡ ret m.cpu m.mem)
        × ((swap from to n).mem m.cpu.rsp ≡ m.mem m.cpu.rsp)
        × ((a : ℕ) → a ≢ m.cpu.rsp → (swap from to n).mem a ≡ n.mem a)
        × ((p : ℕ) → p ≢ to → (swap from to n).states p ≡ n.states p)
  unfolding swap
  swap-swap h e = (
    ground (
      arith,
      update_self m.states from (save_registers m.cpu m.mem),
      update_ne n.states to from (save_registers n.cpu n.mem),
      update_self n.mem m.cpu.rsp (m.mem m.cpu.rsp),
    ),
    ground (
      arith,
      update_self m.states from (save_registers m.cpu m.mem),
      update_ne n.states to from (save_registers n.cpu n.mem),
      update_self n.mem m.cpu.rsp (m.mem m.cpu.rsp),
    ),
    λ a k. ground (
      arith,
      update_self m.states from (save_registers m.cpu m.mem),
      update_ne n.states to from (save_registers n.cpu n.mem),
      update_ne n.mem m.cpu.rsp a (m.mem m.cpu.rsp),
    ),
    λ p k. ground (arith, update_ne n.states to p (save_registers n.cpu n.mem)),
  )
