-- ===== src/Coro/Private/Refines.antt =====
-- The scheduler on one shared stack does what the scheduler on private stacks does.
use coroplusplus.Common.{
  ℕ, zero, suc, ◌+◌, ◌≡◌, refl, ap, sym, ◌∙◌, true, false, none, some, List, [], ◌∷◌, inl, inr,
  Bool-cases, subst,
}
use coroplusplus.Timeval.{Timeval, timer_lt}
use coroplusplus.Coro.State.{World, Coro, Event, Outcome, ◌>>=◌, PendingEntry, out_of_fuel}
use coroplusplus.Coro.Events.{fire_events, schedule_events}
use coroplusplus.Coro.Threads.{Frame, Program}
use coroplusplus.Coro.Loop.{
  on_world, swap_lists, clear_staging, run_staging, run_round, run_rounds, run_pending,
}
use coroplusplus.Coro.Stack.{StackCopy, Threads, turn}
use coroplusplus.Coro.Private.{PrivateThreads, private_turn}
use coroplusplus.Coro.Private.Exec.{with_stacks, schedule-with_stacks, coros-schedule}
use coroplusplus.Coro.Private.Enter.{Stored}
use coroplusplus.Coro.Private.Related.{IsSound, Related, Refines, private_view}
use coroplusplus.Coro.Private.Turn.{turn-Refines}

module _ {Heap Wait A B : Type 0} (g : ℕ → B) where
  -- An outcome, and the same with other stacks.
  abbrev pub Views : Outcome (World Heap Wait A) → Outcome (World Heap Wait B) → Type 0
  Views o o' = o' ≡ (o.0, with_stacks g o.1)

  Views-bind :
      (o : Outcome (World Heap Wait A)) (o' : Outcome (World Heap Wait B))
      (f : World Heap Wait A → Outcome (World Heap Wait A))
      (f' : World Heap Wait B → Outcome (World Heap Wait B))
      → Views o o'
      → ((w : World Heap Wait A) → Views (f w) (f' (with_stacks g w)))
      → Views (o >>= f) (o' >>= f')
  Views-bind (none, w) o' f f' e h = ap (λ o. o >>= f') e ∙ h w
  Views-bind (some x, w) o' f f' e h = ap (λ o. o >>= f') e

  fire_events-Views :
      (tv : Timeval) (es : List Event) (w : World Heap Wait A)
      → Views (fire_events tv es w) (fire_events tv es (with_stacks g w))
  unfolding fire_events
  fire_events-Views tv [] w = refl
  fire_events-Views tv (e ∷ es) w = elim (Bool-cases (timer_lt e.t tv)) [
    | inl due ↦ rw due (
        Views-bind _ _ (fire_events tv es) (fire_events tv es)
          (schedule-with_stacks g (record w { events = es }) e.coro e.args)
          (fire_events-Views tv es))
    | inr later ↦ rw later refl
  ]

  schedule_events-Views :
      (now : ℕ → Timeval) (w : World Heap Wait A)
      → Views (schedule_events now w) (schedule_events now (with_stacks g w))
  unfolding schedule_events
  schedule_events-Views now w =
      fire_events-Views (now w.ticks) w.events (record w { ticks = w.ticks + 1 })

module _ {Heap Wait A : Type 0} where
  coros-bind :
      (o : Outcome (World Heap Wait A)) (f : World Heap Wait A → Outcome (World Heap Wait A))
      → ((w : World Heap Wait A) → (f w).1.coros ≡ w.coros)
      → (o >>= f).1.coros ≡ o.1.coros
  coros-bind (none, w) f h = h w
  coros-bind (some x, w) f h = refl

  pub coros-fire_events :
      (tv : Timeval) (es : List Event) (w : World Heap Wait A)
      → (fire_events tv es w).1.coros ≡ w.coros
  unfolding fire_events
  coros-fire_events tv [] w = refl
  coros-fire_events tv (e ∷ es) w = elim (Bool-cases (timer_lt e.t tv)) [
    | inl due ↦ rw due (
        coros-bind _ (fire_events tv es) (coros-fire_events tv es)
        ∙ coros-schedule (record w { events = es }) e.coro e.args)
    | inr later ↦ rw later refl
  ]

  pub coros-schedule_events :
      (now : ℕ → Timeval) (w : World Heap Wait A) → (schedule_events now w).1.coros ≡ w.coros
  unfolding schedule_events
  coros-schedule_events now w =
      coros-fire_events (now w.ticks) w.events (record w { ticks = w.ticks + 1 })

module _ {Heap Wait : Type 0} (pr : Program Heap Wait) (sound : IsSound pr) where
  pub Refines-bind :
      (o : Outcome (Threads Heap Wait)) (o' : Outcome (PrivateThreads Heap Wait))
      (f : Threads Heap Wait → Outcome (Threads Heap Wait))
      (f' : PrivateThreads Heap Wait → Outcome (PrivateThreads Heap Wait))
      → Refines pr o o'
      → ((s : Threads Heap Wait) (g : ℕ → Frame)
          → Related pr s g
          → Refines pr (f s) (f' (private_view g s)))
      → Refines pr (o >>= f) (o' >>= f')
  Refines-bind (none, s) o' f f' (g, e, rel) h =
      subst (λ x. Refines pr (f s) (x >>= f')) (sym e) (h s g rel)
  Refines-bind (some x, s) o' f f' (g, e, rel) h = (g, ap (λ o. o >>= f') e, rel)

  schedule_events-Refines :
      (s : Threads Heap Wait) (g : ℕ → Frame)
      → Related pr s g
      → Refines pr
          (on_world (schedule_events pr.now) s)
          (on_world (schedule_events pr.now) (private_view g s))
  schedule_events-Refines s g rel = (
    g,
    ap {B = Outcome (PrivateThreads Heap Wait)} (λ o. (o.0, record { world = o.1; extra = tt }))
        (schedule_events-Views g pr.now s.world),
    record {
      stored =
          subst
            (λ (c : ℕ → Coro StackCopy).
              (p : ℕ) → (c p).started ≡ true → (c p).dead ≡ false → Stored pr (c p).stack (g p))
            (sym (coros-schedule_events pr.now s.world)) rel.stored;
      pushed = rel.pushed;
      outside = rel.outside;
    },
  )

  run_staging-Refines :
      (es : List PendingEntry) (s : Threads Heap Wait) (g : ℕ → Frame)
      → Related pr s g
      → Refines pr
          (run_staging pr.now (turn pr) es s)
          (run_staging pr.now (private_turn pr) es (private_view g s))
  unfolding run_staging
  run_staging-Refines [] s g rel = (g, refl, rel)
  run_staging-Refines ((co, arg) ∷ es) s g rel =
      Refines-bind _ _ _ _ (turn-Refines pr co arg s g sound rel) (run_staging-Refines es)

  run_round-Refines :
      (s : Threads Heap Wait) (g : ℕ → Frame)
      → Related pr s g
      → Refines pr
          (run_round pr.now (turn pr) s)
          (run_round pr.now (private_turn pr) (private_view g s))
  unfolding run_round
  run_round-Refines s g rel =
      Refines-bind _ _ _ _
        (run_staging-Refines s.world.pending (swap_lists s) g
          (record { stored = rel.stored; pushed = rel.pushed; outside = rel.outside }))
        (λ t h r.
          schedule_events-Refines (clear_staging t) h
            (record { stored = r.stored; pushed = r.pushed; outside = r.outside }))

  by_pending :
      (es : List PendingEntry) (o m : Outcome (Threads Heap Wait))
      (o' m' : Outcome (PrivateThreads Heap Wait))
      → Refines pr o o'
      → Refines pr m m'
      → Refines pr (elim es [ [] ↦ o | x ∷ xs ↦ m ]) (elim es [ [] ↦ o' | x ∷ xs ↦ m' ])
  by_pending [] o m o' m' done more = done
  by_pending (x ∷ xs) o m o' m' done more = more

  run_rounds-Refines :
      (fuel : ℕ) (s : Threads Heap Wait) (g : ℕ → Frame)
      → Related pr s g
      → Refines pr
          (run_rounds pr.now (turn pr) fuel s)
          (run_rounds pr.now (private_turn pr) fuel (private_view g s))
  unfolding run_rounds
  run_rounds-Refines zero s g rel =
      by_pending s.world.pending (none, s) (some out_of_fuel, s) _ _ (g, refl, rel) (g, refl, rel)
  run_rounds-Refines (suc fuel) s g rel =
      by_pending s.world.pending (none, s)
        (run_round pr.now (turn pr) s >>= run_rounds pr.now (turn pr) fuel) _ _ (g, refl, rel)
        (Refines-bind _ _ _ _ (run_round-Refines s g rel) (run_rounds-Refines fuel))

  -- For any bound on the rounds, and from related systems, `run_pending` on the shared stack has the
  -- result (a return, or the same exception) of `run_pending` on private stacks, and the two systems
  -- that are left have the same world but for the stacks, and are related again: when the stack lies in
  -- the address space, `malloc` gives memory, and the program's functions keep to the stack.
  pub run_pending-Refines :
      (fuel : ℕ) (s : Threads Heap Wait) (g : ℕ → Frame)
      → Related pr s g
      → Refines pr
          (run_pending pr.now (turn pr) fuel s)
          (run_pending pr.now (private_turn pr) fuel (private_view g s))
  unfolding run_pending
  run_pending-Refines fuel s g rel =
      Refines-bind _ _ _ _ (schedule_events-Refines s g rel) (run_rounds-Refines fuel)
