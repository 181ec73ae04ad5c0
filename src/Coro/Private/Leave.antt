-- ===== src/Coro/Private/Leave.antt =====
-- What a turn leaves of a thread that has yielded.
use coroplusplus.Common.{
  ℕ, suc, ◌+◌, ◌-◌, ◌*◌, ◌/◌, ◌^◌, ◌≤◌, ◌<◌, ◌≡◌, refl, ap, ◌∙◌, true, none, some, ◌∷◌, arith,
  update_self, read_block, write_block, read_block-write_block,
}
use coroplusplus.Swap.{save_registers, load_registers, ret}
use coroplusplus.Coro.State.{Coro, World, Outcome, set_coro}
use coroplusplus.Coro.Threads.{Frame, Program}
use coroplusplus.Coro.Stack.{
  StackCopy, Hardware, Threads, stack_top, stack_words, byte_difference, main, thread, switch,
  set_stack, preserve, enter,
}
use coroplusplus.Coro.Private.Steps.{switch_out-world, switch_out-extra, set_coro_twice}
use coroplusplus.Coro.Private.Enter.{
  room, saved_state, IsFrame, Stored, IsOutside, read_block-update_outside,
}

module _ {Heap Wait : Type 0} (pr : Program Heap Wait) where
  -- The registers that `__swap` saves in a frame.
  save_registers-enter :
      (f : Frame) (h : Hardware)
      → save_registers (enter pr f h).cpu (enter pr f h).mem ≡ saved_state pr f
  unfolding save_registers write_block
  save_registers-enter f h = λ j. record {
    stack_pointer = stack_top pr - room pr f;
    frame_pointer = f.rbp;
    insn_pointer =
        update_self (write_block h.mem (suc (stack_top pr - room pr f)) f.words)
          (stack_top pr - room pr f) f.rip j;
    ebx = f.rbx;
    r12 = f.r12;
    r13 = f.r13;
    r14 = f.r14;
    r15 = f.r15;
  }

  -- The size of the copy in bytes: the addresses are below the end of the address space.
  byte_difference-room :
      (f : Frame)
      → room pr f ≤ stack_words
      → 8 * stack_top pr < 2 ^ 64
      → byte_difference (stack_top pr) (stack_top pr - room pr f) ≡ 8 * room pr f
  byte_difference-room f ok space = omega arith

  -- The coroutine `co` with the stack copy of a frame.
  abbrev pub stored_in : Frame → StackCopy
  stored_in f = record {
    state = saved_state pr f;
    copy = some (f.rip ∷ f.words);
    size = 8 * room pr f;
  }

  pub stored_in-Stored : (f : Frame) → IsFrame pr f → Stored pr (stored_in f) f
  stored_in-Stored f ok = record { frame = ok; copied = refl; sized = refl; saved = refl }

module _ {Heap Wait : Type 0} (pr : Program Heap Wait) (co : ℕ) (w : World Heap Wait StackCopy)
    (h : Hardware) (f : Frame) where
  -- The system at the call of `__swap` in `yield`, and after it.
  abbrev pub leaving : Threads Heap Wait
  leaving = record { world = w; extra = enter pr f h }

  pub left-world :
      (switch main (thread co) leaving).world
      ≡ set_stack co (record (w.coros co).stack { state = saved_state pr f }) w
  left-world =
      switch_out-world co leaving
      ∙ ap (λ t. set_stack co (record (w.coros co).stack { state = t }) w)
          (save_registers-enter pr f h)

  pub left-rsp : (switch main (thread co) leaving).extra.cpu.rsp ≡ h.main_state.stack_pointer + 1
  unfolding ret load_registers
  left-rsp = ap (λ (x : Hardware). x.cpu.rsp) (switch_out-extra co leaving)

  left-block :
      IsFrame pr f
      → IsOutside pr h.main_state.stack_pointer
      → read_block
          (switch main (thread co) leaving).extra.mem
          (stack_top pr - room pr f)
          (room pr f)
        ≡ f.rip ∷ f.words
  left-block ok out =
      let sp = stack_top pr - room pr f in
      ap (λ (x : Hardware). read_block x.mem sp (room pr f)) (switch_out-extra co leaving)
      ∙ read_block-update_outside pr (write_block h.mem sp (f.rip ∷ f.words)) sp (room pr f)
          h.main_state.stack_pointer h.main_state.insn_pointer (omega (arith, ok.fits))
          (omega (arith, ok.fits)) out
      ∙ read_block-write_block h.mem sp (f.rip ∷ f.words)

  preserve_lem :
      (c : Coro StackCopy) (x : Hardware)
      → ((n size : ℕ) → pr.malloc n size ≡ true)
      → let size = byte_difference (stack_top pr) c.stack.state.stack_pointer in
        preserve pr co (record { world = set_coro co c w; extra = x }) ≡ (
          none,
          record {
            world =
                set_coro co
                  (record c {
                    stack = record c.stack {
                      copy = some (read_block x.mem c.stack.state.stack_pointer (size / 8));
                      size = size;
                    };
                  })
                  w;
            extra = record x { mallocs = x.mallocs + 1 };
          },
        )
  unfolding preserve
  preserve_lem c x enough =
      rw (enough, preserve)
        (ap {B = Outcome (Threads Heap Wait)}
          (λ v. (none, record { world = v; extra = record x { mallocs = x.mallocs + 1 } }))
          (set_coro_twice w co c λ d.
            let size = byte_difference (stack_top pr) d.stack.state.stack_pointer in
            record d {
              stack = record d.stack {
                copy = some (read_block x.mem d.stack.state.stack_pointer (size / 8));
                size = size;
              };
            }))

  -- `preserve` stores the frame.
  pub preserved :
      IsFrame pr f
      → IsOutside pr h.main_state.stack_pointer
      → 8 * stack_top pr < 2 ^ 64
      → ((n size : ℕ) → pr.malloc n size ≡ true)
      → let s = switch main (thread co) leaving in
        preserve pr co s ≡ (
          none,
          record {
            world = set_coro co (record (w.coros co) { stack = stored_in pr f }) w;
            extra = record s.extra { mallocs = s.extra.mallocs + 1 };
          },
        )
  unfolding preserve
  preserved ok out space enough =
      let s = switch main (thread co) leaving in
      let sized = byte_difference-room pr f ok.fits space in
      ap (λ v. preserve pr co (record { world = v; extra = s.extra })) left-world
      ∙ preserve_lem
          (record (w.coros co) { stack = record (w.coros co).stack { state = saved_state pr f } })
          s.extra enough
      ∙ (λ j. (
        none,
        record {
          world =
              set_coro co
                (record (w.coros co) {
                  stack = record {
                    state = saved_state pr f;
                    copy = some (copied j);
                    size = sized j;
                  };
                })
                w;
          extra = record s.extra { mallocs = s.extra.mallocs + 1 };
        },
      ))
    where
      copied :
          read_block
            (switch main (thread co) leaving).extra.mem
            (stack_top pr - room pr f)
            (byte_difference (stack_top pr) (stack_top pr - room pr f) / 8)
          ≡ f.rip ∷ f.words
      copied =
          ap (read_block (switch main (thread co) leaving).extra.mem (stack_top pr - room pr f))
            {y = room pr f} (omega (arith, byte_difference-room pr f ok.fits space))
          ∙ left-block ok out
