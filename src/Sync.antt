-- ===== src/Sync.antt =====
-- sync.h: the classes `condition_variable`, `latch` and `fifo`.
-- The scheduler is a parameter: `schedule` changes a state `W` of its own, or throws. The methods that
-- block are given up to their call of `yield`; what follows it is `pop_round` again, or nothing.
pub mod Handover
use coroplusplus.Common.{ℕ, Bool, true, false, Option, none, some, List, [], ◌∷◌, ◌++◌}
use coroplusplus.Coro.State.{Outcome}

-- `_waiting`
abbrev pub ConditionVariable : Type 0
ConditionVariable = List ℕ

-- How a method that may block goes on: it returns, it yields, or it throws in the main coroutine.
pub data Round (A S : Type 0) : Type 0 where
  returns : A → S → Round A S
  yields : S → Round A S
  throws_in_main : Round A S

-- `condition_variable::wait`, up to `yield`, with the result of `coro::current ()`
unfoldable pub wait : {A : Type 0} → Option ℕ → ConditionVariable → Round A ConditionVariable
wait none waiting = throws_in_main
wait (some me) waiting = yields (waiting ++ me ∷ [])

abbrev pub map_round : {A S T : Type 0} → (S → T) → Round A S → Round A T
map_round f (returns a s) = returns a (f s)
map_round f (yields s) = yields (f s)
map_round f throws_in_main = throws_in_main

pub record Latch : Type 0 where
  pub cv : ConditionVariable
  pub is_done : Bool

pub record Fifo (A : Type 0) : Type 0 where
  pub cv : ConditionVariable
  pub q : List A

module _ {W : Type 0} (schedule : ℕ → ℕ → W → Outcome W) where
  -- `condition_variable::wake_all`; its loop returns in its first round.
  unfoldable pub wake_all : ℕ → ConditionVariable → W → Outcome (Bool × ConditionVariable × W)
  wake_all arg [] w = (none, (false, [], w))
  wake_all arg (co ∷ waiting) w = let (stop, w') = schedule co arg w in (stop, (true, waiting, w'))

  -- `condition_variable::wake_one`
  unfoldable pub wake_one : ℕ → ConditionVariable → W → Outcome (Bool × ConditionVariable × W)
  wake_one arg [] w = (none, (false, [], w))
  wake_one arg (co ∷ waiting) w = let (stop, w') = schedule co arg w in (stop, (true, waiting, w'))

  -- `latch::wake_all`
  unfoldable pub open_latch : Latch → W → Outcome (Latch × W)
  unfolding wake_all
  open_latch l w =
      let (stop, (b, waiting, w')) = wake_all 0 l.cv w in
      (stop, (record { cv = waiting; is_done = true }, w'))

  -- `fifo::push`
  unfoldable pub push : {A : Type 0} → A → Fifo A → W → Outcome (Fifo A × W)
  unfolding wake_one
  push x f w =
      let (stop, (b, waiting, w')) = wake_one 0 f.cv w in
      (stop, (record { cv = waiting; q = f.q ++ x ∷ [] }, w'))

-- `latch::wait`, up to `yield`
unfoldable pub wait_latch : Option ℕ → Latch → Round Unit Latch
unfolding wait
wait_latch current l = elim l.is_done [
  | true ↦ returns tt l
  | false ↦ map_round (λ waiting. record l { cv = waiting }) (wait current l.cv)
]

-- A round of the `while` loop of `fifo::pop`, and what follows the loop.
unfoldable pub pop_round : {A : Type 0} → Option ℕ → Fifo A → Round A (Fifo A)
unfolding wait
pop_round current f = elim f.q [
  | [] ↦ map_round (λ waiting. record f { cv = waiting }) (wait current f.cv)
  | result ∷ rest ↦ returns result (record f { q = rest })
]
