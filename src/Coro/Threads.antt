-- ===== src/Coro/Threads.antt =====
-- coro++.h and swap.h: what a thread does from the moment it is given the processor until it calls
-- `yield`, as a tree of the calls of the library that it makes. The program's own code is not part of
-- the library: it enters through `Program`, and memory that it shares is `Heap`.
pub mod Sleeping
use coroplusplus.Common.{
  ℕ, ◌+◌, ◌*◌, ◌/◌, ◌%◌, ◌==◌, Bool, true, false, Option, none, some, List, if◌then◌else◌,
}
use coroplusplus.Timeval.{Timeval, timeradd}
use coroplusplus.Coro.State.{Stop, World, set_coro, coro_of_fun, coro_of_method, new_coro, schedule}
use coroplusplus.Coro.Events.{insert_event}

-- The registers at a call of `__swap` and the words on the stack: the return address `rip`, on top,
-- and what lies below it, up to the end of the shared stack.
pub record Frame : Type 0 where
  pub rip : ℕ
  pub rbp : ℕ
  pub rbx : ℕ
  pub r12 : ℕ
  pub r13 : ℕ
  pub r14 : ℕ
  pub r15 : ℕ
  pub words : List ℕ

pub data Direction : Type 0 where
  read write : Direction

pub data Code (Heap : Type 0) : Type 0 where
  -- `c->schedule (arg)`; the answer tells whether `Dead_Coro` was thrown into the thread.
  schedules : ℕ → ℕ → (Bool → Code Heap) → Code Heap
  inserts_event : Timeval → ℕ → ℕ → Code Heap → Code Heap
  -- `new coro (fun, arg)` and `new coro (meth, arg)`
  new_fun : ℕ → ℕ → (ℕ → Code Heap) → Code Heap
  new_method : ℕ → ℕ → (ℕ → Code Heap) → Code Heap
  exits : Code Heap → Code Heap
  gets_time : (Timeval → Code Heap) → Code Heap
  gets_current : (Option ℕ → Code Heap) → Code Heap
  -- `set_wait_for_read` and `set_wait_for_write` of the poller
  sets_wait : Direction → ℕ → ℕ → Code Heap → Code Heap
  -- A step of the program's own on its memory.
  writes_heap : (Heap → Heap) → Code Heap → Code Heap
  reads_heap : (Heap → Code Heap) → Code Heap
  -- `c->yield (arg)`, or the end of the thread function, by a return or by an exception. The frame is
  -- that of the call of `__swap` that follows.
  yields : ℕ → ℕ → Frame → Code Heap
  returns : Frame → Code Heap
  throws : Frame → Code Heap

-- What is not part of the library: the program's functions, the machine code behind a return
-- address, the clock, `malloc`, the poller's methods and the address of the stack.
pub record Program (Heap Wait : Type 0) : Type 0 where
  pub call_fun : ℕ → ℕ → Code Heap
  pub call_method : ℕ → ℕ → Code Heap
  pub resume_at : Frame → ℕ → Code Heap
  -- The results of the n-th calls of `gettimeofday` and `malloc`, the latter by the size.
  pub now : ℕ → Timeval
  pub malloc : ℕ → ℕ → Bool
  pub set_wait : Direction → ℕ → ℕ → Wait → Wait
  pub stack_base : ℕ
  -- The address of `_wrap0`, and the one that `__swap` returns to in `resume`.
  pub wrap0 : ℕ
  pub resume_return : ℕ

abbrev pub is_thrown : Option Stop → Bool
is_thrown none = false
is_thrown (some x) = true

module _ {Heap Wait Stack : Type 0} where
  -- `coro::yield` up to `__swap`
  abbrev yield_value : ℕ → ℕ → World Heap Wait Stack → World Heap Wait Stack
  yield_value c arg w = set_coro c (record (w.coros c) { value = arg }) w

  -- `yield` of the C interface, through `_current`.
  unfoldable pub yield_current : ℕ → World Heap Wait Stack → World Heap Wait Stack
  yield_current arg w = elim w.current [ none ↦ w | some c ↦ yield_value c arg w ]

  -- The end of `_wrap1 (co)`, and the `yield (0)` of `_wrap0`.
  unfoldable pub finish : ℕ → World Heap Wait Stack → World Heap Wait Stack
  unfolding yield_current
  finish co w = yield_current 0 (set_coro co (record (w.coros co) { dead = true }) w)

  -- `co` is the argument of `_wrap0`; `blank` is the stack of a new coroutine.
  unfoldable pub exec :
      Program Heap Wait
      → Stack
      → ℕ
      → Code Heap
      → World Heap Wait Stack
      → Frame × World Heap Wait Stack
  unfolding insert_event coro_of_fun coro_of_method finish
  exec pr b co (schedules c arg k) w =
      let r = schedule c arg w in exec pr b co (k (is_thrown r.0)) r.1
  exec pr b co (inserts_event t c args k) w = exec pr b co k (insert_event t c args w)
  exec pr b co (new_fun fun arg k) w = exec pr b co (k w.next) (new_coro (coro_of_fun b fun arg) w)
  exec pr b co (new_method meth arg k) w =
      exec pr b co (k w.next) (new_coro (coro_of_method b meth arg) w)
  exec pr b co (exits k) w = exec pr b co k (record w { exit = true })
  exec pr b co (gets_time k) w =
      exec pr b co (k (pr.now w.ticks)) (record w { ticks = w.ticks + 1 })
  exec pr b co (gets_current k) w = exec pr b co (k w.current) w
  exec pr b co (sets_wait d fd c k) w =
      exec pr b co k (record w { wait = pr.set_wait d fd c w.wait })
  exec pr b co (writes_heap f k) w = exec pr b co k (record w { heap = f w.heap })
  exec pr b co (reads_heap k) w = exec pr b co (k w.heap) w
  exec pr b co (yields c arg f) w = (f, yield_value c arg w)
  exec pr b co (returns f) w = (f, finish co w)
  exec pr b co (throws f) w = (f, finish co w)

module _ {Heap Wait : Type 0} where
  -- `_wrap1 (co)`, on the fields of `co`
  unfoldable pub wrap1 : Program Heap Wait → ℕ → ℕ → ℕ → Code Heap
  wrap1 pr fun meth arg0 = if meth == 0 then pr.call_fun fun arg0 else pr.call_method meth arg0

-- The null pointer is 0.
abbrev pub pointer : Option ℕ → ℕ
pointer none = 0
pointer (some c) = c

module _ {Heap : Type 0} where
  -- `coro::sleep` on the coroutine `this`; `f` is the frame of its call of `yield`.
  unfoldable pub sleep : ℕ → ℕ → Frame → Code Heap
  sleep this msec f = gets_current λ me. gets_time λ tv0.
      inserts_event (timeradd tv0 (record { tv_sec = msec / 1000; tv_usec = msec % 1000 * 1000 }))
        (pointer me) 0 (yields this 0 f)

  -- `poller::wait_for_read` and `poller::wait_for_write`
  unfoldable pub wait_for : Direction → ℕ → ℕ → Frame → Code Heap
  wait_for d fd c f = sets_wait d fd c (yields c 0 f)
