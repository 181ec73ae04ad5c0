-- ===== src/Poller/Select/Ready.antt =====
-- What a call of `poll` does, by what `select` reports.
use coroplusplus.Common.{
  ℕ, suc, ◌+◌, ◌/◌, ◌%◌, ◌≡◌, Bool, true, false, ◌&&◌, Option, none, some, ◌∷◌, ◌++◌, All,
}
use coroplusplus.Coro.State.{Stop, Outcome}
use coroplusplus.Poller.{FdMap}
use coroplusplus.Poller.Select.{
  SelectPoller, Answer, fails, answers, Kernel, SelectResult, returns, throws, uses_erased,
  outside_fd_set, spins, fits, fd_set_of, max_fd,
}

-- What `select` answers to `poll`.
abbrev pub reply : Kernel → ℕ → SelectPoller → Answer
reply kernel t p =
    kernel (fd_set_of p.read_set) (fd_set_of p.write_set)
      (max_fd (max_fd 0 p.read_set) p.write_set + 1) (t / 1000000, t % 1000000)

-- No descriptor of the map is reported.
abbrev pub IsUnset : (ℕ → Bool) → FdMap → Type 0
IsUnset is_set m = All (λ (e : ℕ × ℕ). is_set e.0 ≡ false) m

-- The first entry that is reported is that of the coroutine `c`, and the others are `rest`.
pub record IsFirst (is_set : ℕ → Bool) (m : FdMap) (c : ℕ) (rest : FdMap) : Type 0 where
  pub fd : ℕ
  pub before : FdMap
  pub behind : FdMap
  pub splits : m ≡ before ++ (fd, c) ∷ behind
  pub unset : IsUnset is_set before
  pub set : is_set fd ≡ true
  pub joins : rest ≡ before ++ behind

module _ {W : Type 0} (schedule : ℕ → ℕ → W → Outcome W) (p : SelectPoller) (w : W) where
  -- The ends of `poll`, by the answer of `select`.
  pub data Polls (a : Answer) : SelectResult (SelectPoller × W) → Type 0 where
    too_high : (fits p.read_set && fits p.write_set) ≡ false → Polls a outside_fd_set
    failed : (errno : ℕ) → a ≡ fails errno → Polls a (returns (p, w))
    quiet : (r s : ℕ → Bool) → a ≡ answers 0 r s → Polls a (returns (p, w))
    reads :
        (n : ℕ) (r s : ℕ → Bool) (c : ℕ) (rest : FdMap) (w' : W)
        → a ≡ answers (suc n) r s
        → IsFirst r p.read_set c rest
        → schedule c 0 w ≡ (none, w')
        → Polls a (uses_erased (record p { read_set = rest }, w'))
    writes :
        (n : ℕ) (r s : ℕ → Bool) (c : ℕ) (rest : FdMap) (w' : W)
        → a ≡ answers (suc n) r s
        → IsUnset r p.read_set
        → IsFirst s p.write_set c rest
        → schedule c 0 w ≡ (none, w')
        → Polls a (uses_erased (record p { write_set = rest }, w'))
    dead_reader :
        (n : ℕ) (r s : ℕ → Bool) (c : ℕ) (rest : FdMap) (x : Stop) (w' : W)
        → a ≡ answers (suc n) r s
        → IsFirst r p.read_set c rest
        → schedule c 0 w ≡ (some x, w')
        → Polls a (throws x (p, w'))
    dead_writer :
        (n : ℕ) (r s : ℕ → Bool) (c : ℕ) (rest : FdMap) (x : Stop) (w' : W)
        → a ≡ answers (suc n) r s
        → IsUnset r p.read_set
        → IsFirst s p.write_set c rest
        → schedule c 0 w ≡ (some x, w')
        → Polls a (throws x (p, w'))
    endless :
        (n : ℕ) (r s : ℕ → Bool)
        → a ≡ answers (suc n) r s
        → IsUnset r p.read_set
        → IsUnset s p.write_set
        → Polls a spins

-- What `first_set` finds.
abbrev pub Finds : (ℕ → Bool) → FdMap → Option (ℕ × FdMap) → Type 0
Finds is_set m none = IsUnset is_set m
Finds is_set m (some (c, rest)) = IsFirst is_set m c rest
