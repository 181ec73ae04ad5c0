-- ===== src/Coro/Private/Slice.antt =====
-- The two sides of a turn: what a living thread runs, and the worlds that are left.
use coroplusplus.Common.{
  ℕ, ◌≡◌, ◌≢◌, refl, ap, ◌∙◌, fun_ext, true, false, none, some, inl, inr, update, update_self,
  Bool-cases, if◌then◌else◌, subst, ◌==◌, ==_iff,
}
use coroplusplus.Coro.State.{Coro, World, ◌>>=◌, set_coro, dead_coro}
use coroplusplus.Coro.Threads.{Frame, Program, Code, exec, wrap1}
use coroplusplus.Coro.Stack.{
  StackCopy, Threads, set_stack, main, thread, switch, preserve, code_at, run_thread, run_slice,
  turn, blank_stack,
}
use coroplusplus.Coro.Private.{blank_frame, keep_frame, private_turn}
use coroplusplus.Coro.Private.Related.{Fits, IsSound, AllStored, Related, private_view}
use coroplusplus.Coro.Private.Exec.{with_stack, with_stacks, set_coro-with_stacks}
use coroplusplus.Coro.Private.Steps.{ready, created, prepare_started, prepare_new}
use coroplusplus.Coro.Private.Enter.{
  Stored, entered, entered-world, entered-code_new, entered-code_started,
}
use coroplusplus.Coro.Private.Leave.{leaving, left-world}

module _ {Heap Wait : Type 0} (pr : Program Heap Wait) where
  pub with_stacks-set_stack :
      (g : ℕ → Frame) (co : ℕ) (k : StackCopy) (w : World Heap Wait StackCopy)
      → with_stacks g (set_stack co k w) ≡ with_stacks g w
  unfolding update
  with_stacks-set_stack g co k w =
      ap (λ (f : ℕ → Coro Frame). record (with_stacks g w) { coros = f }) (fun_ext coro_at)
    where
      coro_at :
          (q : ℕ)
          → with_stack (g q) (update w.coros co (record (w.coros co) { stack = k }) q)
            ≡ with_stack (g q) (w.coros q)
      coro_at q = elim (Bool-cases (co == q)) [
        | inl e ↦ rw e (ap (λ r. with_stack (g q) (w.coros r)) ((==_iff co q).0 e))
        | inr e ↦ rw e refl
      ]

  pub with_stacks-update :
      (g : ℕ → Frame) (co : ℕ) (f : Frame) (k : StackCopy) (w : World Heap Wait StackCopy)
      → set_coro co (with_stack f (w.coros co)) (with_stacks g w)
        ≡ with_stacks (update g co f) (set_stack co k w)
  unfolding update
  with_stacks-update g co f k w =
      ap (λ (f : ℕ → Coro Frame). record (with_stacks g w) { coros = f }) (fun_ext coro_at)
    where
      coro_at :
          (q : ℕ)
          → update (with_stacks g w).coros co (with_stack f (w.coros co)) q
            ≡ with_stack (update g co f q) (update w.coros co (record (w.coros co) { stack = k }) q)
      coro_at q = elim (Bool-cases (co == q)) [ inl e ↦ rw e refl | inr e ↦ rw e refl ]

  pub AllStored-set_coro :
      (w : World Heap Wait StackCopy) (co : ℕ) (c : Coro StackCopy) (h : ℕ → Frame)
      → (c.started ≡ true → c.dead ≡ false → Stored pr c.stack (h co))
      → ((p : ℕ)
          → co ≢ p
          → (w.coros p).started ≡ true
          → (w.coros p).dead ≡ false
          → Stored pr (w.coros p).stack (h p))
      → AllStored pr (set_coro co c w) h
  unfolding update
  AllStored-set_coro w co c h at_co others p = elim (Bool-cases (co == p)) [
    | inl e ↦ rw e (
        subst (λ q. c.started ≡ true → c.dead ≡ false → Stored pr c.stack (h q)) ((==_iff co p).0 e)
          at_co)
    | inr e ↦ rw e (others p (λ same. cc ((==_iff co p).1 same)))
  ]

  wrap1-Fits : IsSound pr → (fun meth arg : ℕ) → Fits pr (wrap1 pr fun meth arg)
  unfolding wrap1
  wrap1-Fits sound fun meth arg = elim (Bool-cases (meth == 0)) [
    | inl e ↦ rw (e, wrap1) (sound.funs fun arg)
    | inr e ↦ rw (e, wrap1) (sound.methods meth arg)
  ]

module _ {Heap Wait : Type 0} (pr : Program Heap Wait) (co arg : ℕ) (s : Threads Heap Wait)
    (g : ℕ → Frame) (sound : IsSound pr) (rel : Related pr s g) where
  -- The code that the specification runs.
  abbrev pub spec_code : Code Heap
  spec_code =
      let c = s.world.coros co in
      if c.started then pr.resume_at (g co) arg else wrap1 pr c.fun c.meth c.arg0

  -- Who is alive finds that code, and is made ready.
  pub enters :
      (s.world.coros co).dead ≡ false
      → (k : StackCopy) × (code_at pr co (entered pr co arg s) ≡ spec_code)
        × ((entered pr co arg s).world ≡ ready pr co arg s k)
        × Fits pr spec_code
  enters alive = elim (Bool-cases (s.world.coros co).started) [
    | inl e ↦
        let stored = rel.stored co e alive in
        let made = prepare_started pr co arg s _ e stored.copied in
        rw e (
          (s.world.coros co).stack,
          entered-code_started pr co arg s (g co) e stored rel.outside,
          entered-world pr co arg s ∙ made.0,
          sound.resumed (g co) arg stored.frame,
        )
    | inr e ↦ rw e (
      created pr co arg s (s.world.coros co).stack,
      entered-code_new pr co arg s e,
      entered-world pr co arg s ∙ prepare_new pr co arg s e,
      wrap1-Fits pr sound _ _ _,
    )
  ]

  -- The run of the thread, from the moment it is ready.
  abbrev pub ran : StackCopy → Frame × World Heap Wait StackCopy
  ran k = exec pr blank_stack co spec_code (ready pr co arg s k)

  -- The system when the thread has swapped back.
  abbrev pub left : StackCopy → Threads Heap Wait
  left k = switch main (thread co) (leaving pr co (ran k).1 (entered pr co arg s).extra (ran k).0)

  run_slice_lem :
      (k : StackCopy)
      → code_at pr co (entered pr co arg s) ≡ spec_code
      → (entered pr co arg s).world ≡ ready pr co arg s k
      → run_slice pr co arg s ≡ left k
  unfolding run_slice run_thread entered
  run_slice_lem k code world = λ j.
      let r = exec pr blank_stack co (code j) (world j) in
      switch main (thread co) (leaving pr co r.1 (entered pr co arg s).extra r.0)

  left-dead : (k : StackCopy) → ((left k).world.coros co).dead ≡ ((ran k).1.coros co).dead
  left-dead k =
      let w = (ran k).1 in
      ap (λ (v : World Heap Wait StackCopy). (v.coros co).dead)
        (left-world pr co w (entered pr co arg s).extra (ran k).0)
      ∙ ap (λ (c : Coro StackCopy). c.dead) (update_self w.coros co _)

  pub turn_alive :
      (s.world.coros co).dead ≡ false
      → (k : StackCopy) → code_at pr co (entered pr co arg s) ≡ spec_code
      → (entered pr co arg s).world ≡ ready pr co arg s k
      → turn pr (co, arg) s
        ≡ (if ((ran k).1.coros co).dead then (none, left k) else preserve pr co (left k))
  unfolding turn
  turn_alive alive k code world =
      ap
        (λ b. (if b then (some (dead_coro co), s) else (none, run_slice pr co arg s)) >>= λ t.
          if (t.world.coros co).dead then (none, t) else preserve pr co t)
        alive
      ∙ ap (λ t. if (t.world.coros co).dead then (none, t) else preserve pr co t)
          (run_slice_lem k code world)
      ∙ ap (λ b. if b then (none, left k) else preserve pr co (left k)) (left-dead k)

  pub private_turn_alive :
      (s.world.coros co).dead ≡ false
      → (k : StackCopy)
      → private_turn pr (co, arg) (private_view g s) ≡ (
        none,
        record {
          world =
              keep_frame co
                (exec pr blank_frame co spec_code (with_stacks g (ready pr co arg s k)));
          extra = tt;
        },
      )
  unfolding private_turn
  private_turn_alive alive k =
      let c = s.world.coros co in
      let made = record c { stack = record k { copy = none }; value = arg; started = true } in
      let u = record s.world { current = some co } in
      let v = set_coro co (with_stack (g co) made) (with_stacks g u) in
      ap
        (λ b. if b then (some (dead_coro co), private_view g s) else (
          none,
          record { world = keep_frame co (exec pr blank_frame co spec_code v); extra = tt },
        ))
        alive
      ∙ ap
          (λ x. (
            none,
            record { world = keep_frame co (exec pr blank_frame co spec_code x); extra = tt },
          ))
          (set_coro-with_stacks g u co made)
