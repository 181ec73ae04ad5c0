-- ===== src/Coro/Private/Steps.antt =====
-- What the steps of a turn do to the world, the processor and the memory.
use coroplusplus.Common.{
  ℕ, ◌-◌, ◌/◌, ◌≡◌, refl, ap, sym, ◌∙◌, fun_ext, true, false, none, some, List, inl, inr, arith,
  take, update, update_self, update_ne, update-update, update_same, write_block, Bool-cases,
  Option-cases, if◌then◌else◌, ◌==◌, ==_iff,
}
use coroplusplus.Swap.{MachineState, save_registers, load_registers, ret}
use coroplusplus.Coro.State.{Coro, World, set_coro}
use coroplusplus.Coro.Threads.{Program}
use coroplusplus.Coro.Stack.{
  StackCopy, Threads, stack_top, set_stack, states, main, thread, switch, create, restore, prepare,
}

abbrev with_state : MachineState → Coro StackCopy → Coro StackCopy
with_state t c = record c { stack = record c.stack { state = t } }

update-thread :
    {A : Type 0} (f : ℕ → A) (p q : ℕ) (v : A)
    → update f (thread p) v (thread q) ≡ (if p == q then v else f (thread q))
unfolding update
update-thread f p q v = ground arith

module _ {Heap Wait : Type 0} where
  -- The `__swap` from the main coroutine into a thread: its saved state is what the processor gets.
  pub switch_in-world : (p : ℕ) (s : Threads Heap Wait) → (switch (thread p) main s).world ≡ s.world
  unfolding switch
  switch_in-world p s =
      ap
        (λ (f : ℕ → MachineState). record s.world {
          coros = λ q. record (s.world.coros q) {
            stack = record (s.world.coros q).stack { state = f q };
          };
        })
        (fun_ext λ q. update_ne (states s) main (thread q) _ (omega arith))

  pub switch_in-extra :
      (p : ℕ) (s : Threads Heap Wait)
      → let t = (s.world.coros p).stack.state in
        let mem = update s.extra.mem t.stack_pointer t.insn_pointer in
        (switch (thread p) main s).extra ≡ record {
          cpu = ret (load_registers t s.extra.cpu) mem;
          mem = mem;
          mallocs = s.extra.mallocs;
          main_state = save_registers s.extra.cpu s.extra.mem;
        }
  unfolding switch
  switch_in-extra p s =
      let saved = save_registers s.extra.cpu s.extra.mem in
      ground (arith, update_ne (states s) main (thread p) saved, update_self (states s) main saved)

  -- The `__swap` in `yield`, back to the main coroutine.
  pub switch_out-world :
      (p : ℕ) (s : Threads Heap Wait)
      → (switch main (thread p) s).world
        ≡ set_stack p
            (record (s.world.coros p).stack { state = save_registers s.extra.cpu s.extra.mem })
            s.world
  unfolding switch update
  switch_out-world p s =
      ap (λ (f : ℕ → Coro StackCopy). record s.world { coros = f }) (fun_ext coro_at)
    where
      saved : MachineState
      saved = save_registers s.extra.cpu s.extra.mem

      coro_at :
          (q : ℕ)
          → with_state (update (states s) (thread p) saved (thread q)) (s.world.coros q)
            ≡ update s.world.coros p (with_state saved (s.world.coros p)) q
      coro_at q = elim (Bool-cases (p == q)) [
        | inl e ↦
            rw (update-thread (states s) p q saved)
              (rw e (ap (λ r. with_state saved (s.world.coros r)) (sym ((==_iff p q).0 e))))
        | inr e ↦ rw (update-thread (states s) p q saved) (rw e refl)
      ]

  pub switch_out-extra :
      (p : ℕ) (s : Threads Heap Wait)
      → let t = s.extra.main_state in
        let mem = update s.extra.mem t.stack_pointer t.insn_pointer in
        (switch main (thread p) s).extra
        ≡ record s.extra { cpu = ret (load_registers t s.extra.cpu) mem; mem = mem }
  unfolding switch
  switch_out-extra p s =
      ap
        (λ (t : MachineState).
          let mem = update s.extra.mem t.stack_pointer t.insn_pointer in
          record {
            cpu = ret (load_registers t s.extra.cpu) mem;
            mem = mem;
            mallocs = s.extra.mallocs;
            main_state = t;
          })
        (update_ne (states s) (thread p) main (save_registers s.extra.cpu s.extra.mem)
          (omega arith))

module _ {Heap Wait Stack : Type 0} (w : World Heap Wait Stack) (co : ℕ) (c : Coro Stack) where
  -- To write a coroutine and then a part of it is to write it once.
  pub set_coro_twice :
      (f : Coro Stack → Coro Stack)
      → set_coro co (f ((set_coro co c w).coros co)) (set_coro co c w) ≡ set_coro co (f c) w
  set_coro_twice f =
      ap (λ (g : ℕ → Coro Stack). record w { coros = g })
        (ap (λ d. update (update w.coros co c) co (f d)) (update_self w.coros co c)
          ∙ update-update w.coros co c (f c))

module _ {Heap Wait : Type 0} (pr : Program Heap Wait) (co : ℕ) (s : Threads Heap Wait) where
  restore-world :
      (restore pr co s).world
      ≡ set_stack co (record (s.world.coros co).stack { copy = none }) s.world
  unfolding restore
  restore-world = elim (Option-cases (s.world.coros co).stack.copy) [
    | inl e ↦
        rw (e, restore)
          (rw (← e) (
            ap (λ (g : ℕ → Coro StackCopy). record s.world { coros = g })
              (sym (update_same s.world.coros co))))
    | inr (ws, e) ↦ rw (e, restore) refl
  ]

  restore-extra :
      (ws : List ℕ)
      → (s.world.coros co).stack.copy ≡ some ws
      → let k = (s.world.coros co).stack in
        (restore pr co s).extra ≡ record s.extra {
          mem = write_block s.extra.mem k.state.stack_pointer (take (k.size / 8) ws);
        }
  unfolding restore
  restore-extra ws e = rw (e, restore) refl

module _ {Heap Wait : Type 0} (pr : Program Heap Wait) (co arg : ℕ) (s : Threads Heap Wait) where
  -- The coroutine that `resume` has made ready, with what is left of its stack copy.
  abbrev pub ready : StackCopy → World Heap Wait StackCopy
  ready k =
      set_coro co
        (record (s.world.coros co) {
          stack = record k { copy = none };
          value = arg;
          started = true;
        })
        (record s.world { current = some co })

  abbrev pub created : StackCopy → StackCopy
  created k = record k {
    state = record k.state {
      stack_pointer = stack_top pr - 6;
      frame_pointer = stack_top pr - 5;
      insn_pointer = pr.wrap0;
    };
  }

  set_value : World Heap Wait StackCopy → World Heap Wait StackCopy
  set_value w = set_coro co (record (w.coros co) { value = arg }) w

  pub prepare_started :
      (ws : List ℕ)
      → (s.world.coros co).started ≡ true
      → (s.world.coros co).stack.copy ≡ some ws
      → let k = (s.world.coros co).stack in
        ((prepare pr co arg s).world ≡ ready k)
        × ((prepare pr co arg s).extra ≡ record s.extra {
          mem = write_block s.extra.mem k.state.stack_pointer (take (k.size / 8) ws);
        })
  unfolding prepare set_value
  prepare_started ws e copied =
      let c = s.world.coros co in
      let v = record s { world = record s.world { current = some co } } in
      (
        rw (e, prepare)
            (ap set_value (restore-world pr co v)
              ∙ set_coro_twice v.world co (record c { stack = record c.stack { copy = none } })
                  (λ d. record d { value = arg })
              ∙ ap
                  (λ b.
                    set_coro co
                      (record c {
                        stack = record c.stack { copy = none };
                        value = arg;
                        started = b;
                      })
                      v.world)
                  e),
        rw (e, prepare) (restore-extra pr co v ws copied),
      )

  pub prepare_new :
      (s.world.coros co).started ≡ false
      → (prepare pr co arg s).world ≡ ready (created (s.world.coros co).stack)
  unfolding prepare set_value create
  prepare_new e =
      let c = s.world.coros co in
      let u = record s.world { current = some co } in
      let made = record c { stack = created c.stack; started = true } in
      let emptied = λ (d : Coro StackCopy). record d { stack = record d.stack { copy = none } } in
      rw (e, prepare)
        (ap set_value (
            restore-world pr co (record (create pr co s) { world = set_coro co made u })
            ∙ set_coro_twice u co made emptied)
          ∙ set_coro_twice u co (emptied made) (λ d. record d { value = arg }))

  -- Neither `create` nor `restore` touches the processor.
  pub prepare-cpu : (prepare pr co arg s).extra.cpu ≡ s.extra.cpu
  unfolding prepare restore create
  prepare-cpu = elim (Bool-cases (s.world.coros co).started) [
    | inl e ↦
        rw (e, prepare) (restore-cpu (record s { world = record s.world { current = some co } }))
    | inr e ↦
        rw (e, prepare)
          (let t = create pr co s in
            restore-cpu (record t { world = record t.world { current = some co } }))
  ]
    where
      restore-cpu : (t : Threads Heap Wait) → (restore pr co t).extra.cpu ≡ t.extra.cpu
      restore-cpu t = elim (Option-cases (t.world.coros co).stack.copy) [
        | inl e ↦ rw (e, restore) refl
        | inr (ws, e) ↦ rw (e, restore) refl
      ]
