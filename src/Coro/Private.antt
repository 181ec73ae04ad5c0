-- ===== src/Coro/Private.antt =====
-- The specification of the coroutines: every thread has a stack of its own, which is kept while it
-- waits and given back when it goes on. There is no processor, no memory and no copying.
pub mod Exec
use coroplusplus.Common.{ℕ, true, none, some, List, [], if◌then◌else◌}
pub mod Steps
pub mod Enter
pub mod Leave
pub mod Related
pub mod Slice
pub mod Turn
pub mod Refines
use coroplusplus.Coro.State.{dead_coro, Outcome, PendingEntry, World, set_coro}
use coroplusplus.Coro.Threads.{Frame, Program, exec, wrap1}
use coroplusplus.Coro.Loop.{System}

abbrev pub PrivateThreads : Type 0 → Type 0 → Type 0
PrivateThreads Heap Wait = System Heap Wait Frame (Unit {0})

-- The stack of a thread that has not started holds nothing.
abbrev pub blank_frame : Frame
blank_frame = record { rip = 0; rbp = 0; rbx = 0; r12 = 0; r13 = 0; r14 = 0; r15 = 0; words = [] }

module _ {Heap Wait : Type 0} where
  -- A thread that did not end keeps the frame in which it yielded.
  abbrev pub keep_frame : ℕ → Frame × World Heap Wait Frame → World Heap Wait Frame
  keep_frame co (f, w) =
      let c = w.coros co in if c.dead then w else set_coro co (record c { stack = f }) w

module _ {Heap Wait : Type 0} (pr : Program Heap Wait) where
  unfoldable pub private_turn :
      PendingEntry → PrivateThreads Heap Wait → Outcome (PrivateThreads Heap Wait)
  private_turn (co, arg) s =
      let c = s.world.coros co in
      let code = if c.started then pr.resume_at c.stack arg else wrap1 pr c.fun c.meth c.arg0 in
      let w =
        set_coro co (record c { started = true; value = arg })
          (record s.world { current = some co }) in
      if c.dead
      then (some (dead_coro co), s)
      else (none, record s { world = keep_frame co (exec pr blank_frame co code w) })
