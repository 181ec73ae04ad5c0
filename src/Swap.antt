-- ===== src/Swap.antt =====
-- swap.h: the context switch for x86_64 (`__swap`, `machine_state`).
-- Addresses are counted in words of eight bytes, and a memory maps an address to the word there:
-- the stack pointer is always aligned. The states live in a store, by the pointer to their
-- coroutine. The registers are those that a called function must keep; `rip` is the address that
-- `ret` jumps to.
pub mod RoundTrip
pub mod I386
use coroplusplus.Common.{ℕ, ◌+◌, update}

pub record MachineState : Type 0 where
  pub stack_pointer : ℕ
  pub frame_pointer : ℕ
  pub insn_pointer : ℕ
  pub ebx : ℕ
  pub r12 : ℕ
  pub r13 : ℕ
  pub r14 : ℕ
  pub r15 : ℕ

pub record Cpu : Type 0 where
  pub rip : ℕ
  pub rsp : ℕ
  pub rbp : ℕ
  pub rbx : ℕ
  pub r12 : ℕ
  pub r13 : ℕ
  pub r14 : ℕ
  pub r15 : ℕ

pub record Machine : Type 0 where
  pub cpu : Cpu
  pub mem : ℕ → ℕ
  pub states : ℕ → MachineState

-- The words that the first half of `__swap` stores; the return address lies at the stack pointer.
unfoldable pub save_registers : Cpu → (ℕ → ℕ) → MachineState
save_registers c mem = record {
  stack_pointer = c.rsp;
  frame_pointer = c.rbp;
  insn_pointer = mem c.rsp;
  ebx = c.rbx;
  r12 = c.r12;
  r13 = c.r13;
  r14 = c.r14;
  r15 = c.r15;
}

-- `ret` pops the address that it jumps to.
unfoldable pub ret : Cpu → (ℕ → ℕ) → Cpu
ret c mem = record c { rip = mem c.rsp; rsp = c.rsp + 1 }

-- The registers before `ret`, which sets `rip`.
unfoldable pub load_registers : MachineState → Cpu → Cpu
load_registers t c = record {
  rip = c.rip;
  rsp = t.stack_pointer;
  rbp = t.frame_pointer;
  rbx = t.ebx;
  r12 = t.r12;
  r13 = t.r13;
  r14 = t.r14;
  r15 = t.r15;
}

-- `__swap (to, from)`
unfoldable pub swap : ℕ → ℕ → Machine → Machine
unfolding save_registers load_registers ret
swap to from m =
    let states = update m.states from (save_registers m.cpu m.mem) in
    let t = states to in
    let mem = update m.mem t.stack_pointer t.insn_pointer in
    record { cpu = ret (load_registers t m.cpu) mem; mem = mem; states = states }
