-- ===== src/Coro/Stack.antt =====
-- coro++.h: the stack of a coroutine. All threads run on one stack; while a thread waits, its part of
-- the stack lies in a copy on the heap (`create`, `preserve`, `restore`, `resume`, `yield`).
-- Addresses are counted in words, sizes in bytes, as in the source.
use coroplusplus.Common.{
  ℕ, zero, suc, ◌+◌, ◌-◌, ◌*◌, ◌/◌, ◌%◌, ◌^◌, ◌==◌, true, Option, none, some, List, ◌∷◌,
  if◌then◌else◌, length, take, update, read_block, write_block,
}
use coroplusplus.Swap.{MachineState, Cpu, swap}
use coroplusplus.Coro.State.{
  malloc_failed, dead_coro, Outcome, ◌>>=◌, PendingEntry, World, set_coro,
}
use coroplusplus.Coro.Threads.{Frame, Code, Program, exec, wrap1}
use coroplusplus.Coro.Loop.{System}

-- `_state`, `_stack_copy` and `_stack_copy_size`
pub record StackCopy : Type 0 where
  pub state : MachineState
  pub copy : Option (List ℕ)
  pub size : ℕ

-- The processor, the memory, the calls of `malloc` so far, and the `_state` of `_main_coroutine`, the
-- one field of it that is used. The program has no pointer to that coroutine.
pub record Hardware : Type 0 where
  pub main_state : MachineState
  pub cpu : Cpu
  pub mem : ℕ → ℕ
  pub mallocs : ℕ

-- `_stack_size / sizeof (void *)`
abbrev pub stack_words : ℕ
stack_words = 4 * 1024 * 1024 / 8

-- The difference of two byte addresses, as a `size_t`.
abbrev pub byte_difference : ℕ → ℕ → ℕ
byte_difference a b = (8 * a + 2 ^ 64 - 8 * b) % 2 ^ 64

abbrev pub Threads : Type 0 → Type 0 → Type 0
Threads Heap Wait = System Heap Wait StackCopy Hardware

-- A pointer to a `machine_state`: that of the main coroutine, or of the coroutine `p`.
abbrev pub main : ℕ
main = 0

abbrev pub thread : ℕ → ℕ
thread p = suc p

abbrev pub blank_state : MachineState
blank_state = record {
  stack_pointer = 0;
  frame_pointer = 0;
  insn_pointer = 0;
  ebx = 0;
  r12 = 0;
  r13 = 0;
  r14 = 0;
  r15 = 0;
}

abbrev pub blank_stack : StackCopy
blank_stack = record { state = blank_state; copy = none; size = 0 }

module _ {Heap Wait : Type 0} where
  abbrev pub stack_top : Program Heap Wait → ℕ
  stack_top pr = pr.stack_base + stack_words

  abbrev pub set_stack : ℕ → StackCopy → World Heap Wait StackCopy → World Heap Wait StackCopy
  set_stack p k w = set_coro p (record (w.coros p) { stack = k }) w

  abbrev pub set_mem : (ℕ → ℕ) → Threads Heap Wait → Threads Heap Wait
  set_mem mem s = record s { extra = record s.extra { mem = mem } }

  abbrev pub on_coros :
      (World Heap Wait StackCopy → World Heap Wait StackCopy)
      → Threads Heap Wait
      → Threads Heap Wait
  on_coros f s = record s { world = f s.world }

  abbrev pub states : Threads Heap Wait → ℕ → MachineState
  states s zero = s.extra.main_state
  states s (suc p) = (s.world.coros p).stack.state

  -- `__swap (&to->_state, &from->_state)`
  unfoldable pub switch : ℕ → ℕ → Threads Heap Wait → Threads Heap Wait
  unfolding swap
  switch to from s =
      let m = swap to from (record { cpu = s.extra.cpu; mem = s.extra.mem; states = states s }) in
      record {
        world = record s.world {
          coros = λ p. record (s.world.coros p) {
            stack = record (s.world.coros p).stack { state = m.states (thread p) };
          };
        };
        extra = record s.extra { cpu = m.cpu; mem = m.mem; main_state = m.states main };
      }

  -- The `call` of `__swap` in `resume` pushes its return address.
  unfoldable pub call_swap : ℕ → Threads Heap Wait → Threads Heap Wait
  call_swap return_address s =
      let rsp = s.extra.cpu.rsp - 1 in
      record s {
        extra = record s.extra {
          cpu = record s.extra.cpu { rsp = rsp };
          mem = update s.extra.mem rsp return_address;
        };
      }

module _ {Heap Wait : Type 0} (pr : Program Heap Wait) where
  -- `coro::create`
  unfoldable pub create : ℕ → Threads Heap Wait → Threads Heap Wait
  create this s =
      let top = stack_top pr in
      let c = s.world.coros this in
      record {
        extra = record s.extra { mem = update (update s.extra.mem (top - 5) 0) (top - 4) this };
        world =
            set_coro this
              (record c {
                stack = record c.stack {
                  state = record c.stack.state {
                    stack_pointer = top - 6;
                    frame_pointer = top - 5;
                    insn_pointer = pr.wrap0;
                  };
                };
                started = true;
              })
              s.world;
      }

  -- `coro::preserve`
  unfoldable pub preserve : ℕ → Threads Heap Wait → Outcome (Threads Heap Wait)
  preserve this s =
      let k = (s.world.coros this).stack in
      let size = byte_difference (stack_top pr) k.state.stack_pointer in
      let counted = record s { extra = record s.extra { mallocs = s.extra.mallocs + 1 } } in
      if pr.malloc s.extra.mallocs size
      then (
        none,
        on_coros
            (set_stack this (record k {
              copy = some (read_block s.extra.mem k.state.stack_pointer (size / 8));
              size = size;
            }))
            counted,
      )
      else (some malloc_failed, on_coros (set_stack this (record k { copy = none })) counted)

  -- `if (_stack_copy) restore ()`
  unfoldable pub restore : ℕ → Threads Heap Wait → Threads Heap Wait
  restore this s =
      let k = (s.world.coros this).stack in
      elim k.copy [
        | none ↦ s
        | some ws ↦
            on_coros (set_stack this (record k { copy = none }))
              (set_mem (write_block s.extra.mem k.state.stack_pointer (take (k.size / 8) ws)) s)
      ]

  -- What a thread sees that the processor runs: the kept registers and its part of the stack.
  abbrev pub view : Hardware → Frame
  view h = record {
    rip = h.cpu.rip;
    rbp = h.cpu.rbp;
    rbx = h.cpu.rbx;
    r12 = h.cpu.r12;
    r13 = h.cpu.r13;
    r14 = h.cpu.r14;
    r15 = h.cpu.r15;
    words = read_block h.mem h.cpu.rsp (stack_top pr - h.cpu.rsp);
  }

  -- The processor and the memory at a call of `__swap` in a frame.
  abbrev pub enter : Frame → Hardware → Hardware
  enter f h =
      let rsp = stack_top pr - suc (length f.words) in
      record h {
        cpu = record {
          rip = f.rip;
          rsp = rsp;
          rbp = f.rbp;
          rbx = f.rbx;
          r12 = f.r12;
          r13 = f.r13;
          r14 = f.r14;
          r15 = f.r15;
        };
        mem = write_block h.mem rsp (f.rip ∷ f.words);
      }

  -- The code that the processor runs: `_wrap0` in a new thread, and otherwise the code behind the
  -- call of `yield`, which returned `_current->_value`.
  unfoldable pub code_at : ℕ → Threads Heap Wait → Code Heap
  unfolding wrap1
  code_at co s =
      let c = s.world.coros co in
      if s.extra.cpu.rip == pr.wrap0
      then wrap1 pr c.fun c.meth c.arg0
      else pr.resume_at (view s.extra) c.value

  -- The thread runs until its call of `__swap`.
  unfoldable pub run_thread : ℕ → Threads Heap Wait → Threads Heap Wait
  run_thread co s =
      let (f, w) = exec pr blank_stack co (code_at co s) s.world in
      record { world = w; extra = enter f s.extra }

  -- `coro::resume` up to `__swap`
  unfoldable pub prepare : ℕ → ℕ → Threads Heap Wait → Threads Heap Wait
  unfolding create restore
  prepare this arg s =
      let s1 = if (s.world.coros this).started then s else create this s in
      let s2 = restore this (on_coros (λ w. record w { current = some this }) s1) in
      on_coros (λ w. set_coro this (record (w.coros this) { value = arg }) w) s2

  -- What `coro::resume` does with a living coroutine: it swaps to the thread, which runs and swaps back
  -- in `yield`.
  unfoldable pub run_slice : ℕ → ℕ → Threads Heap Wait → Threads Heap Wait
  run_slice this arg s = switch main (thread this) (
      run_thread this (switch (thread this) main (call_swap pr.resume_return (prepare this arg s))))

  -- `coro::resume`
  unfoldable pub resume : ℕ → ℕ → Threads Heap Wait → Outcome (Threads Heap Wait)
  resume this arg s =
      if (s.world.coros this).dead then (some (dead_coro this), s) else (none, run_slice this arg s)

  -- The body of the `for` loop of `run_pending`.
  unfoldable pub turn : PendingEntry → Threads Heap Wait → Outcome (Threads Heap Wait)
  unfolding resume
  turn (co, arg) s =
      resume co arg s >>= λ t. if (t.world.coros co).dead then (none, t) else preserve co t
