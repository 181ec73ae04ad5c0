-- ===== src/Tests/Switching.antt =====
-- The context switch between two coroutines, at a concrete processor.
use coroplusplus.Common.{◌+◌, ◌≡◌, refl, arith, update}
use coroplusplus.Swap.{Machine, ret, swap}
use coroplusplus.Swap.RoundTrip.{swap-swap}
use coroplusplus.Swap.I386

abbrev caller : Machine
caller = record {
  cpu = record { rip = 5; rsp = 90; rbp = 95; rbx = 1; r12 = 2; r13 = 3; r14 = 4; r15 = 6 };
  mem = λ a. a + 1000;
  states = λ p. record {
    stack_pointer = 40 + p;
    frame_pointer = 0;
    insn_pointer = 7;
    ebx = 0;
    r12 = 0;
    r13 = 0;
    r14 = 0;
    r15 = 0;
  };
}

swap-swap_example : (swap 0 1 (swap 1 0 caller)).cpu ≡ ret caller.cpu caller.mem
swap-swap_example = (swap-swap 1 0 caller (swap 1 0 caller) (λ e. omega arith) refl).0

-- The stack of the caller holds the return address 100 and the pointers 1 and 0; that of the other
-- coroutine, at 40, holds the pointers 0 and 1.
abbrev caller_i386 : I386.Machine
caller_i386 = record {
  cpu = record { eip = 5; esp = 90; ebp = 95; ebx = 1; esi = 2; edi = 3 };
  mem = update (update (update (λ a. 0) 90 100) 91 1) 42 1;
  states = λ p. record {
    stack_pointer = 39;
    frame_pointer = 0;
    insn_pointer = 7;
    ebx = 0;
    esi = 0;
    edi = 0;
  };
}

swap-swap_i386_example :
    (I386.swap (I386.swap caller_i386)).cpu ≡ I386.ret caller_i386.cpu caller_i386.mem
unfolding I386.swap update
swap-swap_i386_example =
    I386.swap-swap_i386 caller_i386 (I386.swap caller_i386) (λ e. omega arith) refl
      (λ e. omega arith) refl
