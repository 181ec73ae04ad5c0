-- ===== src/Coro/Private/Turn.antt =====
-- One turn of a thread on the shared stack is one turn on a stack of its own.
use coroplusplus.Common.{
  ℕ, ◌+◌, ◌-◌, ◌≡◌, ◌≢◌, refl, ap, sym, ◌∙◌, true, false, none, some, inl, inr, arith, update,
  update_self, update_ne, Bool-cases, if◌then◌else◌, subst,
}
use coroplusplus.Coro.State.{Coro, World, Outcome, ◌>>=◌, set_coro, dead_coro}
use coroplusplus.Coro.Threads.{Frame, Program, Code, exec}
use coroplusplus.Coro.Stack.{
  StackCopy, Threads, set_stack, preserve, code_at, run_slice, turn, blank_stack,
}
use coroplusplus.Coro.Private.{PrivateThreads, blank_frame, keep_frame, private_turn}
use coroplusplus.Coro.Private.Related.{
  Fits, exec-IsFrame, IsSound, AllStored, Related, Refines, private_view,
}
use coroplusplus.Coro.Private.Slice.{
  with_stacks-set_stack, with_stacks-update, AllStored-set_coro, enters, turn_alive,
  private_turn_alive,
}
use coroplusplus.Coro.Private.Slice
use coroplusplus.Coro.Private.Exec.{Kept, Agree, with_stack, with_stacks, exec-Agree}
use coroplusplus.Coro.Private.Steps.{ready}
use coroplusplus.Coro.Private.Enter.{IsFrame, Stored, IsOutside, entered, entered-main_sp}
use coroplusplus.Coro.Private.Leave.{stored_in, stored_in-Stored, left-world, left-rsp, preserved}

module _ {Heap Wait : Type 0} (pr : Program Heap Wait) (co arg : ℕ) (s : Threads Heap Wait)
    (g : ℕ → Frame) (sound : IsSound pr) (rel : Related pr s g) where
  abbrev spec_code : Code Heap
  spec_code = Slice.spec_code pr co arg s g sound rel

  abbrev ran : StackCopy → Frame × World Heap Wait StackCopy
  ran = Slice.ran pr co arg s g sound rel

  abbrev left : StackCopy → Threads Heap Wait
  left = Slice.left pr co arg s g sound rel

  -- The run left the other threads stored.
  others-Stored :
      (k : StackCopy) (h : ℕ → Frame) (p : ℕ)
      → Kept ((ready pr co arg s k).coros p) (g p) ((ran k).1.coros p) (h p)
      → co ≢ p
      → ((ran k).1.coros p).started ≡ true
      → ((ran k).1.coros p).dead ≡ false
      → Stored pr ((ran k).1.coros p).stack (h p)
  others-Stored k h p kept other started alive =
      let same : (ready pr co arg s k).coros p ≡ s.world.coros p =
        update_ne s.world.coros co p _ other in
      subst (λ (x : StackCopy × Frame). Stored pr x.0 x.1)
        (λ j. (
          (ap (λ (c : Coro StackCopy). c.stack) (sym same) ∙ sym (kept.same_copy started)) j,
          sym (kept.same_frame started) j,
        ))
        (rel.stored p
          (ap (λ (c : Coro StackCopy). c.started) (sym same) ∙ kept.started_before started)
          (ap (λ (c : Coro StackCopy). c.dead) (sym same) ∙ kept.alive_before started alive))

  -- The main coroutine is back where it was.
  left-rsp_back : (k : StackCopy) → (left k).extra.cpu.rsp ≡ s.extra.cpu.rsp
  left-rsp_back k =
      left-rsp pr co (ran k).1 (entered pr co arg s).extra (ran k).0
      ∙ ap (λ n. n + 1) (entered-main_sp pr co arg s)
      ∙ omega (arith, rel.pushed)

  Related-after :
      (t : Threads Heap Wait) (h : ℕ → Frame)
      → AllStored pr t.world h
      → t.extra.cpu.rsp ≡ s.extra.cpu.rsp
      → Related pr t h
  Related-after t h stored e = record {
    stored = stored;
    pushed = omega (arith, rel.pushed);
    outside = subst (λ n. IsOutside pr (n - 1)) (sym e) rel.outside;
  }

  -- A thread that has ended is not kept.
  left-Related :
      (k : StackCopy) (h : ℕ → Frame)
      → ((p : ℕ) → Kept ((ready pr co arg s k).coros p) (g p) ((ran k).1.coros p) (h p))
      → ((ran k).1.coros co).dead ≡ true
      → Related pr (left k) h
  left-Related k h kept ended =
      Related-after (left k) h
        (subst (λ w. AllStored pr w h)
          (sym (left-world pr co (ran k).1 (entered pr co arg s).extra (ran k).0))
          (AllStored-set_coro pr (ran k).1 co _ h (λ started alive. cc)
            (λ p. others-Stored k h p (kept p))))
        (left-rsp_back k)

  -- A thread that has yielded is stored in the frame of its call.
  yielded-Related :
      (k : StackCopy) (h : ℕ → Frame) (t : Threads Heap Wait)
      → IsFrame pr (ran k).0
      → ((p : ℕ) → Kept ((ready pr co arg s k).coros p) (g p) ((ran k).1.coros p) (h p))
      → t.world ≡ set_stack co (stored_in pr (ran k).0) (ran k).1
      → t.extra.cpu.rsp ≡ s.extra.cpu.rsp
      → Related pr t (update h co (ran k).0)
  yielded-Related k h t frame kept world rsp =
      Related-after t (update h co (ran k).0)
        (subst (λ w. AllStored pr w (update h co (ran k).0)) (sym world)
          (AllStored-set_coro pr (ran k).1 co _ (update h co (ran k).0)
            (λ started alive.
              subst (Stored pr (stored_in pr (ran k).0)) (sym (update_self h co (ran k).0))
                (stored_in-Stored pr (ran k).0 frame))
            (λ p other started alive.
              subst (Stored pr ((ran k).1.coros p).stack) (sym (update_ne h co p (ran k).0 other))
                (others-Stored k h p (kept p) other started alive))))
        rsp

  -- The specification, when its run agrees with that of the thread.
  private_kept :
      (s.world.coros co).dead ≡ false
      → (k : StackCopy) (h : ℕ → Frame)
      → exec pr blank_frame co spec_code (with_stacks g (ready pr co arg s k))
        ≡ ((ran k).0, with_stacks h (ran k).1)
      → private_turn pr (co, arg) (private_view g s)
        ≡ (none, record { world = keep_frame co ((ran k).0, with_stacks h (ran k).1); extra = tt })
  private_kept alive k h agree =
      private_turn_alive pr co arg s g sound rel alive k
      ∙ ap {B = Outcome (PrivateThreads Heap Wait)}
          (λ r. (none, record { world = keep_frame co r; extra = tt })) agree

  turn_ended :
      (s.world.coros co).dead ≡ false
      → (k : StackCopy) → code_at pr co (entered pr co arg s) ≡ spec_code
      → (entered pr co arg s).world ≡ ready pr co arg s k
      → Agree
          (ready pr co arg s k)
          g
          (ran k)
          (exec pr blank_frame co spec_code (with_stacks g (ready pr co arg s k)))
      → ((ran k).1.coros co).dead ≡ true
      → Refines pr (turn pr (co, arg) s) (private_turn pr (co, arg) (private_view g s))
  turn_ended alive k code world (h, agree, kept) ended =
      let w = (ran k).1 in
      let view_left =
        ap (with_stacks h) (left-world pr co w (entered pr co arg s).extra (ran k).0)
        ∙ with_stacks-set_stack pr h co _ w in
      let spec =
        private_kept alive k h agree
        ∙ ap {B = Outcome (PrivateThreads Heap Wait)}
            (λ b. (
              none,
              record {
                world =
                    if b
                    then with_stacks h w
                    else set_coro co (with_stack (ran k).0 (w.coros co)) (with_stacks h w);
                extra = tt;
              },
            ))
            ended
        ∙ ap {B = Outcome (PrivateThreads Heap Wait)}
            (λ v. (none, record { world = v; extra = tt })) (sym view_left) in
      let code_turn =
        turn_alive pr co arg s g sound rel alive k code world
        ∙ ap (λ b. if b then (none, left k) else preserve pr co (left k)) ended in
      subst (λ o. Refines pr o (private_turn pr (co, arg) (private_view g s))) (sym code_turn)
        (h, spec, left-Related k h kept ended)

  turn_yielded :
      (s.world.coros co).dead ≡ false
      → (k : StackCopy) → code_at pr co (entered pr co arg s) ≡ spec_code
      → (entered pr co arg s).world ≡ ready pr co arg s k
      → Fits pr spec_code
      → Agree
          (ready pr co arg s k)
          g
          (ran k)
          (exec pr blank_frame co spec_code (with_stacks g (ready pr co arg s k)))
      → ((ran k).1.coros co).dead ≡ false
      → Refines pr (turn pr (co, arg) s) (private_turn pr (co, arg) (private_view g s))
  turn_yielded alive k code world fits (h, agree, kept) waits =
      let (f, w) = ran k in
      let frame = exec-IsFrame pr blank_stack co spec_code (ready pr co arg s k) fits in
      let out = subst (IsOutside pr) (sym (entered-main_sp pr co arg s)) rel.outside in
      let spec =
        private_kept alive k h agree
        ∙ ap {B = Outcome (PrivateThreads Heap Wait)}
            (λ b. (
              none,
              record {
                world =
                    if b
                    then with_stacks h w
                    else set_coro co (with_stack f (w.coros co)) (with_stacks h w);
                extra = tt;
              },
            ))
            waits
        ∙ ap {B = Outcome (PrivateThreads Heap Wait)}
            (λ v. (none, record { world = v; extra = tt }))
            (with_stacks-update pr h co f (stored_in pr f) w) in
      let code_turn =
        turn_alive pr co arg s g sound rel alive k code world
        ∙ ap (λ b. if b then (none, left k) else preserve pr co (left k)) waits
        ∙ preserved pr co w (entered pr co arg s).extra f frame out sound.space sound.enough in
      subst (λ o. Refines pr o (private_turn pr (co, arg) (private_view g s))) (sym code_turn)
        (update h co f, spec, yielded-Related k h _ frame kept refl (left-rsp_back k))

  turn_dead :
      (s.world.coros co).dead ≡ true
      → Refines pr (turn pr (co, arg) s) (private_turn pr (co, arg) (private_view g s))
  unfolding turn private_turn
  turn_dead e = (
    g,
    rw e refl,
    subst
        (λ b.
          Related pr
            ((if b then (some (dead_coro co), s) else (none, run_slice pr co arg s)) >>= λ t.
              if (t.world.coros co).dead then (none, t) else preserve pr co t).1
            g)
        (sym e) rel,
  )

  -- A turn on the shared stack is a turn of the specification.
  pub turn-Refines : Refines pr (turn pr (co, arg) s) (private_turn pr (co, arg) (private_view g s))
  turn-Refines = elim (Bool-cases (s.world.coros co).dead) [
    | inl e ↦ turn_dead e
    | inr e ↦
        let (k, code, world, fits) = enters pr co arg s g sound rel e in
        let agree = exec-Agree pr blank_stack blank_frame co spec_code (ready pr co arg s k) g in
        elim (Bool-cases ((ran k).1.coros co).dead) [
          | inl ended ↦ turn_ended e k code world agree ended
          | inr waits ↦ turn_yielded e k code world fits agree waits
        ]
  ]
