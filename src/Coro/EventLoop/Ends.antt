-- ===== src/Coro/EventLoop/Ends.antt =====
-- How `event_loop` ends.
use coroplusplus.Common.{ℕ, zero, suc, ◌≡◌, refl, ap, ◌∙◌, Bool, true, false, some, none}
use coroplusplus.Timeval.{Timeval}
use coroplusplus.Coro.State.{Outcome, ◌>>=◌, PendingEntry, World}
use coroplusplus.Coro.Loop.{System, run_pending}
use coroplusplus.Coro.EventLoop.{unless_exit, poll_next, poll_unless_exit, event_loop}

module _ {Heap Wait Stack Extra : Type 0} (now : ℕ → Timeval)
    (turn : PendingEntry → System Heap Wait Stack Extra → Outcome (System Heap Wait Stack Extra))
    (poll : ℕ → World Heap Wait Stack → Outcome (World Heap Wait Stack)) where
  -- An outcome that is a return has the exit flag.
  abbrev pub EndsByExit : Outcome (System Heap Wait Stack Extra) → Type 0
  EndsByExit (none, s) = s.world.exit ≡ true
  EndsByExit (some x, s) = Unit

  EndsByExit-bind :
      (o : Outcome (System Heap Wait Stack Extra))
      (f : System Heap Wait Stack Extra → Outcome (System Heap Wait Stack Extra))
      → ((s : System Heap Wait Stack Extra) → EndsByExit (f s))
      → EndsByExit (o >>= f)
  EndsByExit-bind (none, s) f h = h s
  EndsByExit-bind (some x, s) f h = tt

  unless_exit-EndsByExit :
      (f : System Heap Wait Stack Extra → Outcome (System Heap Wait Stack Extra))
      (s : System Heap Wait Stack Extra)
      → EndsByExit (f s)
      → EndsByExit (unless_exit f s)
  unfolding unless_exit
  unless_exit-EndsByExit f s h = at_exit s.world.exit refl
    where
      at_exit :
          (b : Bool) → s.world.exit ≡ b → EndsByExit (elim b [ true ↦ (none, s) | false ↦ f s ])
      at_exit true e = e
      at_exit false e = h

  event_loop-EndsByExit :
      (fuel rounds : ℕ) (s : System Heap Wait Stack Extra)
      → EndsByExit (event_loop now turn poll fuel rounds s)
  unfolding event_loop poll_unless_exit
  event_loop-EndsByExit fuel zero s = tt
  event_loop-EndsByExit fuel (suc rounds) s = unless_exit-EndsByExit _ s (
      EndsByExit-bind (run_pending now turn fuel s) _ λ t. unless_exit-EndsByExit _ t (
        EndsByExit-bind (poll_next now turn poll t) (event_loop now turn poll fuel rounds)
          (event_loop-EndsByExit fuel rounds)))

  abbrev by_exit :
      System Heap Wait Stack Extra
      → Outcome (System Heap Wait Stack Extra)
      → Bool
      → Outcome (System Heap Wait Stack Extra)
  by_exit s m b = elim b [ true ↦ (none, s) | false ↦ m ]

  -- When a thread calls `exit` in `run_pending`, and that returns, `event_loop` returns what it left: it
  -- does not ask for the time and calls no poll. Entered once more, it returns at once. And it returns
  -- only with the flag of `exit`, whatever the threads and the poller do.
  pub event_loop_exit :
      (fuel rounds : ℕ) (s t : System Heap Wait Stack Extra)
      → s.world.exit ≡ false
      → run_pending now turn fuel s ≡ (none, t)
      → t.world.exit ≡ true
      → (event_loop now turn poll fuel (suc rounds) s ≡ (none, t))
        × (event_loop now turn poll fuel (suc rounds) t ≡ (none, t))
        × ((n : ℕ) (u : System Heap Wait Stack Extra)
            → EndsByExit (event_loop now turn poll fuel n u))
  unfolding event_loop unless_exit poll_unless_exit
  event_loop_exit fuel rounds s t e run e' = (
    ap (by_exit s _) e
        ∙ ap (λ o. o >>= poll_unless_exit now turn poll (event_loop now turn poll fuel rounds)) run
        ∙ ap (by_exit t _) e',
    ap (by_exit t _) e',
    event_loop-EndsByExit fuel,
  )
