-- ===== src/Coro/Private/Enter.antt =====
-- How a waiting thread is stored, and what it finds when it goes on.
use coroplusplus.Common.{
  ℕ, suc, ◌+◌, ◌-◌, ◌*◌, ◌/◌, ◌≤◌, ◌<◌, ◌≡◌, ◌≢◌, ◌⊎◌, refl, ap, sym, ◌∙◌, true, false, none, some,
  List, ◌∷◌, inl, inr, arith, length, take, take-length, update, update_self, read_block,
  write_block, read_block-update_below, read_block-update_above, read_block-write_block, subst,
  ◌==◌, ==_refl, ==_iff, Bool-cases,
}
use coroplusplus.Swap.{MachineState, Cpu, save_registers, load_registers, ret}
use coroplusplus.Coro.State.{Coro, World}
use coroplusplus.Coro.Threads.{Frame, Program, wrap1}
use coroplusplus.Coro.Stack.{
  StackCopy, Hardware, Threads, stack_top, stack_words, main, thread, switch, call_swap, prepare,
  view, code_at,
}
use coroplusplus.Coro.Private.Steps.{
  switch_in-world, switch_in-extra, prepare_started, prepare_new, prepare-cpu, ready, created,
}

module _ {Heap Wait : Type 0} (pr : Program Heap Wait) where
  -- The room that a frame takes, with the return address.
  abbrev pub room : Frame → ℕ
  room f = suc (length f.words)

  abbrev pub saved_state : Frame → MachineState
  saved_state f = record {
    stack_pointer = stack_top pr - room f;
    frame_pointer = f.rbp;
    insn_pointer = f.rip;
    ebx = f.rbx;
    r12 = f.r12;
    r13 = f.r13;
    r14 = f.r14;
    r15 = f.r15;
  }

  -- A frame fits on the stack, and does not return to the start of `_wrap0`.
  pub record IsFrame (f : Frame) : Type 0 where
    pub fits : room f ≤ stack_words
    pub not_start : f.rip ≢ pr.wrap0

  -- The stack copy of a thread that waits in a frame.
  pub record Stored (k : StackCopy) (f : Frame) : Type 0 where
    pub frame : IsFrame f
    pub copied : k.copy ≡ some (f.rip ∷ f.words)
    pub sized : k.size ≡ 8 * room f
    pub saved : k.state ≡ saved_state f

  -- An address that is not on the shared stack.
  abbrev pub IsOutside : ℕ → Type 0
  IsOutside a = (a < pr.stack_base) ⊎ (stack_top pr ≤ a)

  pub read_block-update_outside :
      (m : ℕ → ℕ) (a n i v : ℕ)
      → pr.stack_base ≤ a
      → a + n ≤ stack_top pr
      → IsOutside i
      → read_block (update m i v) a n ≡ read_block m a n
  read_block-update_outside m a n i v low high (inl h) =
      read_block-update_below m i a n v (omega arith)
  read_block-update_outside m a n i v low high (inr h) =
      read_block-update_above m i a n v (omega arith)

  -- The memory when the words of a frame have been copied back, one word outside the stack has been
  -- written, and `__swap` has stored the return address.
  abbrev reloaded : Frame → (ℕ → ℕ) → ℕ → ℕ → ℕ → ℕ
  reloaded f m i v =
      let sp = stack_top pr - room f in
      update (update (write_block m sp (f.rip ∷ f.words)) i v) sp f.rip

  -- The words above the return address are as they were.
  reloaded-words :
      (f : Frame) (m : ℕ → ℕ) (i v : ℕ)
      → IsFrame f
      → IsOutside i
      → let a = stack_top pr - room f + 1 in
        read_block (reloaded f m i v) a (stack_top pr - a) ≡ f.words
  unfolding write_block
  reloaded-words f m i v ok out =
      let sp = stack_top pr - room f in
      let n = length f.words in
      let block = write_block m (suc sp) f.words in
      subst (λ (p : ℕ × ℕ). read_block (reloaded f m i v) p.0 p.1 ≡ f.words)
        (λ j. (ends_at j, room_at j))
        (read_block-update_below (update (update block sp f.rip) i v) sp (suc sp) n f.rip
            (omega arith)
          ∙ read_block-update_outside (update block sp f.rip) (suc sp) n i v
              (omega (arith, ok.fits)) (omega (arith, ok.fits)) out
          ∙ read_block-update_below block sp (suc sp) n f.rip (omega arith)
          ∙ read_block-write_block m (suc sp) f.words)
    where
      ends_at : suc (stack_top pr - room f) ≡ stack_top pr - room f + 1
      ends_at = omega arith

      room_at : length f.words ≡ stack_top pr - (stack_top pr - room f + 1)
      room_at = omega (arith, ok.fits)

  -- So the thread sees the frame in which it waited.
  view-reloaded :
      (f : Frame) (m : ℕ → ℕ) (i v : ℕ) (h : Hardware)
      → IsFrame f
      → IsOutside i
      → let mem = reloaded f m i v in
        view pr (record h { cpu = ret (load_registers (saved_state f) h.cpu) mem; mem = mem }) ≡ f
  unfolding ret load_registers
  view-reloaded f m i v h ok out = λ j. record {
    rip =
        update_self (update (write_block m (stack_top pr - room f) (f.rip ∷ f.words)) i v)
          (stack_top pr - room f) f.rip j;
    rbp = f.rbp;
    rbx = f.rbx;
    r12 = f.r12;
    r13 = f.r13;
    r14 = f.r14;
    r15 = f.r15;
    words = reloaded-words f m i v ok out j;
  }

module _ {Heap Wait : Type 0} (pr : Program Heap Wait) (co : ℕ) (s : Threads Heap Wait) where
  code_at-start :
      s.extra.cpu.rip ≡ pr.wrap0
      → let c = s.world.coros co in code_at pr co s ≡ wrap1 pr c.fun c.meth c.arg0
  unfolding code_at
  code_at-start e = rw (e, code_at) (rw ==_refl refl)

  code_at-resume :
      s.extra.cpu.rip ≢ pr.wrap0
      → code_at pr co s ≡ pr.resume_at (view pr s.extra) (s.world.coros co).value
  unfolding code_at
  code_at-resume ne = elim (Bool-cases (s.extra.cpu.rip == pr.wrap0)) [
    | inl e ↦ absurd (ne ((==_iff s.extra.cpu.rip pr.wrap0).0 e))
    | inr e ↦ rw (e, code_at) refl
  ]

module _ {Heap Wait : Type 0} (pr : Program Heap Wait) (co arg : ℕ) (s : Threads Heap Wait) where
  -- The system when the processor has been given to the thread.
  unfoldable pub entered : Threads Heap Wait
  unfolding call_swap
  entered = switch (thread co) main (call_swap pr.resume_return (prepare pr co arg s))

  pub entered-world : entered.world ≡ (prepare pr co arg s).world
  unfolding entered
  entered-world = switch_in-world co (call_swap pr.resume_return (prepare pr co arg s))

  -- The coroutine, when `k` is what `prepare` made of its stack copy.
  entered-coro :
      (k : StackCopy)
      → (prepare pr co arg s).world ≡ ready pr co arg s k
      → entered.world.coros co ≡ record (s.world.coros co) {
        stack = record k { copy = none };
        value = arg;
        started = true;
      }
  entered-coro k e =
      ap (λ (w : World Heap Wait StackCopy). w.coros co) (entered-world ∙ e)
      ∙ update_self s.world.coros co (record (s.world.coros co) {
        stack = record k { copy = none };
        value = arg;
        started = true;
      })

  -- The processor and the memory, from what `prepare` left.
  entered-extra :
      (k : StackCopy)
      → (prepare pr co arg s).world ≡ ready pr co arg s k
      → let h = (call_swap pr.resume_return (prepare pr co arg s)).extra in
        let mem = update h.mem k.state.stack_pointer k.state.insn_pointer in
        entered.extra ≡ record {
          cpu = ret (load_registers k.state h.cpu) mem;
          mem = mem;
          mallocs = h.mallocs;
          main_state = save_registers h.cpu h.mem;
        }
  unfolding entered
  entered-extra k e =
      let x = call_swap pr.resume_return (prepare pr co arg s) in
      subst
        (λ (t : MachineState).
          let mem = update x.extra.mem t.stack_pointer t.insn_pointer in
          entered.extra ≡ record {
            cpu = ret (load_registers t x.extra.cpu) mem;
            mem = mem;
            mallocs = x.extra.mallocs;
            main_state = save_registers x.extra.cpu x.extra.mem;
          })
        (ap (λ (w : World Heap Wait StackCopy). (w.coros co).stack.state) e
          ∙ ap (λ (c : Coro StackCopy). c.stack.state) (update_self s.world.coros co _))
        (switch_in-extra co x)

  entered-rip :
      (k : StackCopy)
      → (prepare pr co arg s).world ≡ ready pr co arg s k
      → entered.extra.cpu.rip ≡ k.state.insn_pointer
  unfolding ret load_registers
  entered-rip k e =
      ap (λ (h : Hardware). h.cpu.rip) (entered-extra k e)
      ∙ update_self _ k.state.stack_pointer k.state.insn_pointer

  pub entered-code_new :
      (s.world.coros co).started ≡ false
      → let c = s.world.coros co in code_at pr co entered ≡ wrap1 pr c.fun c.meth c.arg0
  entered-code_new e =
      let k = created pr co arg s (s.world.coros co).stack in
      let made = prepare_new pr co arg s e in
      code_at-start pr co entered (entered-rip k made)
      ∙ ap (λ (c : Coro StackCopy). wrap1 pr c.fun c.meth c.arg0) (entered-coro k made)

  -- What the processor is given, when a saved state is loaded and its words are back in the memory.
  abbrev loaded : MachineState → Hardware → Hardware
  loaded t x =
      let rsp = x.cpu.rsp - 1 in
      let called = update x.mem rsp pr.resume_return in
      let mem = update called t.stack_pointer t.insn_pointer in
      record {
        cpu = ret (load_registers t (record x.cpu { rsp = rsp })) mem;
        mem = mem;
        mallocs = x.mallocs;
        main_state = save_registers (record x.cpu { rsp = rsp }) called;
      }

  view_loaded :
      (f : Frame)
      → (s.world.coros co).started ≡ true
      → Stored pr (s.world.coros co).stack f
      → IsOutside pr (s.extra.cpu.rsp - 1)
      → view pr entered.extra ≡ f
  unfolding call_swap
  view_loaded f e k out =
      let c = s.world.coros co in
      let made = prepare_started pr co arg s (f.rip ∷ f.words) e k.copied in
      let with_block = λ (t : MachineState) (ws : List ℕ).
        loaded t (record s.extra { mem = write_block s.extra.mem t.stack_pointer ws }) in
      ap (view pr) (entered-extra c.stack made.0)
      ∙ ap (λ x. view pr (loaded c.stack.state x)) made.1
      ∙ (λ j. view pr (with_block (k.saved j) (taken j)))
      ∙ view-reloaded pr f s.extra.mem (s.extra.cpu.rsp - 1) pr.resume_return
          (record s.extra { cpu = record s.extra.cpu { rsp = s.extra.cpu.rsp - 1 } }) k.frame out
    where
      taken : take ((s.world.coros co).stack.size / 8) (f.rip ∷ f.words) ≡ f.rip ∷ f.words
      taken =
          ap (λ n. take n (f.rip ∷ f.words)) {y = length (f.rip ∷ f.words)} (omega (arith, k.sized))
          ∙ take-length (f.rip ∷ f.words)

  pub entered-code_started :
      (f : Frame)
      → (s.world.coros co).started ≡ true
      → Stored pr (s.world.coros co).stack f
      → IsOutside pr (s.extra.cpu.rsp - 1)
      → code_at pr co entered ≡ pr.resume_at f arg
  entered-code_started f e k out =
      let c = s.world.coros co in
      let made = prepare_started pr co arg s (f.rip ∷ f.words) e k.copied in
      code_at-resume pr co entered (λ start. k.frame.not_start (
        sym (ap (λ (t : MachineState). t.insn_pointer) k.saved)
        ∙ sym (entered-rip c.stack made.0)
        ∙ start))
      ∙ ap (λ v. pr.resume_at (view pr entered.extra) v)
          (ap (λ (d : Coro StackCopy). d.value) (entered-coro c.stack made.0))
      ∙ ap (λ g. pr.resume_at g arg) (view_loaded f e k out)

  -- The main coroutine is saved where it called `__swap`.
  pub entered-main_sp : entered.extra.main_state.stack_pointer ≡ s.extra.cpu.rsp - 1
  unfolding entered call_swap save_registers
  entered-main_sp =
      ap (λ (h : Hardware). h.main_state.stack_pointer)
        (switch_in-extra co (call_swap pr.resume_return (prepare pr co arg s)))
      ∙ ap (λ (c : Cpu). c.rsp - 1) (prepare-cpu pr co arg s)
