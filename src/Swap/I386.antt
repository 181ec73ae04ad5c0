-- ===== src/Swap/I386.antt =====
-- swap.h: the context switch for i386. The arguments lie on the stack, above the return address.
use coroplusplus.Common.{ℕ, ◌+◌, ◌≡◌, ◌≢◌, arith, update, update_self, update_ne}

pub record MachineState : Type 0 where
  pub stack_pointer : ℕ
  pub frame_pointer : ℕ
  pub insn_pointer : ℕ
  pub ebx : ℕ
  pub esi : ℕ
  pub edi : ℕ

pub record Cpu : Type 0 where
  pub eip : ℕ
  pub esp : ℕ
  pub ebp : ℕ
  pub ebx : ℕ
  pub esi : ℕ
  pub edi : ℕ

pub record Machine : Type 0 where
  pub cpu : Cpu
  pub mem : ℕ → ℕ
  pub states : ℕ → MachineState

-- `movl n(%esp), …` with n counted in words of four bytes.
abbrev argument : Machine → ℕ → ℕ
argument m n = m.mem (m.cpu.esp + n)

unfoldable pub save_registers : Cpu → (ℕ → ℕ) → MachineState
save_registers c mem = record {
  stack_pointer = c.esp;
  frame_pointer = c.ebp;
  insn_pointer = mem c.esp;
  ebx = c.ebx;
  esi = c.esi;
  edi = c.edi;
}

unfoldable pub ret : Cpu → (ℕ → ℕ) → Cpu
ret c mem = record c { eip = mem c.esp; esp = c.esp + 1 }

unfoldable pub load_registers : MachineState → Cpu → Cpu
load_registers t c = record {
  eip = c.eip;
  esp = t.stack_pointer;
  ebp = t.frame_pointer;
  ebx = t.ebx;
  esi = t.esi;
  edi = t.edi;
}

-- The second argument is the state to save to, the first the state to load.
unfoldable pub swap : Machine → Machine
unfolding save_registers load_registers ret
swap m =
    let states = update m.states (argument m 2) (save_registers m.cpu m.mem) in
    let t = states (argument m 1) in
    let mem = update m.mem t.stack_pointer t.insn_pointer in
    record { cpu = ret (load_registers t m.cpu) mem; mem = mem; states = states }

-- One call swaps away, and another, with the pointers exchanged, swaps back. If the saved state was
-- left alone in between, then the second returns from the first, with every kept register and the
-- return address as at that call.
pub swap-swap_i386 :
    (m n : Machine)
    → argument m 1 ≢ argument m 2
    → argument n 1 ≡ argument m 2
    → argument n 2 ≢ argument m 2
    → n.states (argument m 2) ≡ (swap m).states (argument m 2)
    → (swap n).cpu ≡ ret m.cpu m.mem
unfolding swap
swap-swap_i386 m n h back there e = ground (
  arith,
  update_self m.states (argument m 2) (save_registers m.cpu m.mem),
  update_ne n.states (argument n 2) (argument m 2) (save_registers n.cpu n.mem),
  update_self n.mem m.cpu.esp (m.mem m.cpu.esp),
)
