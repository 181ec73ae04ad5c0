-- ===== src/Coro/EventLoop.antt =====
-- coro++.h: `event_loop`, over any way to give a thread its turn and any poller.
pub mod Ends
pub mod Refines
use coroplusplus.Common.{ℕ, zero, suc, true, false, some, none}
use coroplusplus.Timeval.{Timeval}
use coroplusplus.Coro.State.{Outcome, ◌>>=◌, PendingEntry, World, out_of_fuel}
use coroplusplus.Coro.Events.{time_to_next_event}
use coroplusplus.Coro.Loop.{System, on_world, run_pending}

module _ {Heap Wait Stack Extra : Type 0} where
  -- `if (!_exit)`
  unfoldable pub unless_exit :
      (System Heap Wait Stack Extra → Outcome (System Heap Wait Stack Extra))
      → System Heap Wait Stack Extra
      → Outcome (System Heap Wait Stack Extra)
  unless_exit f s = elim s.world.exit [ true ↦ (none, s) | false ↦ f s ]

module _ {Heap Wait Stack Extra : Type 0} (now : ℕ → Timeval)
    (turn : PendingEntry → System Heap Wait Stack Extra → Outcome (System Heap Wait Stack Extra))
    (poll : ℕ → World Heap Wait Stack → Outcome (World Heap Wait Stack)) where
  -- `_poller->poll (time_to_next_event ())`
  unfoldable pub poll_next : System Heap Wait Stack Extra → Outcome (System Heap Wait Stack Extra)
  poll_next s =
      let (until, w) = time_to_next_event now s.world in
      on_world (poll until) (record s { world = w })

  -- The end of the body of the `while` loop, and then the next round.
  unfoldable pub poll_unless_exit :
      (System Heap Wait Stack Extra → Outcome (System Heap Wait Stack Extra))
      → System Heap Wait Stack Extra
      → Outcome (System Heap Wait Stack Extra)
  poll_unless_exit next = unless_exit (λ s. poll_next s >>= next)

  -- The `while` loop. `rounds` bounds its rounds, and `fuel` those of each call of `run_pending`.
  unfoldable pub event_loop :
      ℕ → ℕ → System Heap Wait Stack Extra → Outcome (System Heap Wait Stack Extra)
  event_loop fuel zero s = (some out_of_fuel, s)
  event_loop fuel (suc rounds) s =
      unless_exit (λ u. run_pending now turn fuel u >>= poll_unless_exit (event_loop fuel rounds)) s
