-- ===== src/Coro/Loop.antt =====
-- coro++.h: `run_pending`, over any way to give a thread its turn (`resume`, then `preserve`).
-- `Extra` is the state beside the world: processor and memory, or nothing.
use coroplusplus.Common.{ℕ, zero, suc, none, some, List, [], ◌∷◌}
use coroplusplus.Timeval.{Timeval}
use coroplusplus.Coro.State.{Outcome, ◌>>=◌, PendingEntry, World, out_of_fuel}
use coroplusplus.Coro.Events.{schedule_events}

pub record System (Heap Wait Stack Extra : Type 0) : Type 0 where
  pub world : World Heap Wait Stack
  pub extra : Extra

module _ {Heap Wait Stack Extra : Type 0} where
  abbrev pub on_world :
      (World Heap Wait Stack → Outcome (World Heap Wait Stack))
      → System Heap Wait Stack Extra
      → Outcome (System Heap Wait Stack Extra)
  on_world f s = let (x, w) = f s.world in (x, record s { world = w })

  -- `std::swap (_staging, _pending)` and `_staging->clear ()`
  abbrev pub swap_lists : System Heap Wait Stack Extra → System Heap Wait Stack Extra
  swap_lists s = record s {
    world = record s.world { staging = s.world.pending; pending = s.world.staging };
  }

  abbrev pub clear_staging : System Heap Wait Stack Extra → System Heap Wait Stack Extra
  clear_staging s = record s { world = record s.world { staging = [] } }

module _ {Heap Wait Stack Extra : Type 0} (now : ℕ → Timeval)
    (turn : PendingEntry
      → System Heap Wait Stack Extra
      → Outcome (System Heap Wait Stack Extra)) where
  -- The `for` loop over `_staging`.
  unfoldable pub run_staging :
      List PendingEntry → System Heap Wait Stack Extra → Outcome (System Heap Wait Stack Extra)
  run_staging [] s = (none, s)
  run_staging (e ∷ es) s = turn e s >>= run_staging es

  -- The body of the `while` loop.
  unfoldable pub run_round : System Heap Wait Stack Extra → Outcome (System Heap Wait Stack Extra)
  run_round s =
      let s' = swap_lists s in
      run_staging s'.world.staging s' >>= λ t. on_world (schedule_events now) (clear_staging t)

  -- The `while` loop; the fuel bounds the rounds, since threads may go on for ever.
  unfoldable pub run_rounds :
      ℕ → System Heap Wait Stack Extra → Outcome (System Heap Wait Stack Extra)
  run_rounds zero s = elim s.world.pending [ [] ↦ (none, s) | e ∷ es ↦ (some out_of_fuel, s) ]
  run_rounds (suc fuel) s = elim s.world.pending [
    | [] ↦ (none, s)
    | e ∷ es ↦ run_round s >>= run_rounds fuel
  ]

  unfoldable pub run_pending :
      ℕ → System Heap Wait Stack Extra → Outcome (System Heap Wait Stack Extra)
  run_pending fuel s = on_world (schedule_events now) s >>= run_rounds fuel
