-- ===== src/Coro/Private/Related.antt =====
-- What relates the scheduler on one shared stack to that on private stacks.
use coroplusplus.Common.{ℕ, ◌-◌, ◌*◌, ◌^◌, ◌≤◌, ◌<◌, ◌≡◌, Bool, true, false, Option}
use coroplusplus.Coro.State.{World, Outcome}
use coroplusplus.Coro.Threads.{
  Frame, Program, Code, schedules, inserts_event, new_fun, new_method, exits, gets_time,
  gets_current, sets_wait, writes_heap, reads_heap, yields, returns, throws, exec,
}
use coroplusplus.Coro.Stack.{StackCopy, Threads, stack_top}
use coroplusplus.Coro.Private.{PrivateThreads}
use coroplusplus.Coro.Private.Exec.{with_stacks}
use coroplusplus.Coro.Private.Enter.{IsFrame, Stored, IsOutside}

module _ {Heap Wait : Type 0} (pr : Program Heap Wait) where
  -- Every way through the code ends in a frame that fits on the stack.
  abbrev pub Fits : Code Heap → Type 0
  Fits (schedules c arg k) = (b : Bool) → Fits (k b)
  Fits (inserts_event t c args k) = Fits k
  Fits (new_fun fun arg k) = (p : ℕ) → Fits (k p)
  Fits (new_method meth arg k) = (p : ℕ) → Fits (k p)
  Fits (exits k) = Fits k
  Fits (gets_time k) = (t : _) → Fits (k t)
  Fits (gets_current k) = (c : Option ℕ) → Fits (k c)
  Fits (sets_wait d fd c k) = Fits k
  Fits (writes_heap f k) = Fits k
  Fits (reads_heap k) = (h : Heap) → Fits (k h)
  Fits (yields c arg f) = IsFrame pr f
  Fits (returns f) = IsFrame pr f
  Fits (throws f) = IsFrame pr f

  pub exec-IsFrame :
      {Stack : Type 0} (b : Stack) (co : ℕ) (k : Code Heap) (w : World Heap Wait Stack)
      → Fits k
      → IsFrame pr (exec pr b co k w).0
  unfolding exec
  exec-IsFrame b co (schedules c arg k) w h = exec-IsFrame b co (k _) _ (h _)
  exec-IsFrame b co (inserts_event t c args k) w h = exec-IsFrame b co k _ h
  exec-IsFrame b co (new_fun fun arg k) w h = exec-IsFrame b co (k w.next) _ (h _)
  exec-IsFrame b co (new_method meth arg k) w h = exec-IsFrame b co (k w.next) _ (h _)
  exec-IsFrame b co (exits k) w h = exec-IsFrame b co k _ h
  exec-IsFrame b co (gets_time k) w h = exec-IsFrame b co (k _) _ (h _)
  exec-IsFrame b co (gets_current k) w h = exec-IsFrame b co (k _) w (h _)
  exec-IsFrame b co (sets_wait d fd c k) w h = exec-IsFrame b co k _ h
  exec-IsFrame b co (writes_heap f k) w h = exec-IsFrame b co k _ h
  exec-IsFrame b co (reads_heap k) w h = exec-IsFrame b co (k _) w (h _)
  exec-IsFrame b co (yields c arg f) w h = h
  exec-IsFrame b co (returns f) w h = h
  exec-IsFrame b co (throws f) w h = h

  -- What the library relies on: the stack lies in the address space, `malloc` gives memory, and the
  -- program's functions keep to the stack.
  pub record IsSound : Type 0 where
    pub space : 8 * stack_top pr < 2 ^ 64
    pub enough : (n size : ℕ) → pr.malloc n size ≡ true
    pub funs : (fun arg : ℕ) → Fits (pr.call_fun fun arg)
    pub methods : (meth arg : ℕ) → Fits (pr.call_method meth arg)
    pub resumed : (f : Frame) (v : ℕ) → IsFrame pr f → Fits (pr.resume_at f v)

  -- Every living thread that has started is stored in its frame.
  abbrev pub AllStored : World Heap Wait StackCopy → (ℕ → Frame) → Type 0
  AllStored w g =
      (p : ℕ)
      → (w.coros p).started ≡ true
      → (w.coros p).dead ≡ false
      → Stored pr (w.coros p).stack (g p)

  -- Between two turns: the main coroutine runs, on a stack of its own.
  pub record Related (s : Threads Heap Wait) (g : ℕ → Frame) : Type 0 where
    pub stored : AllStored s.world g
    pub pushed : 1 ≤ s.extra.cpu.rsp
    pub outside : IsOutside pr (s.extra.cpu.rsp - 1)

-- The view of the specification, in which the thread `p` has the stack `g p`.
abbrev pub private_view :
    {Heap Wait : Type 0} → (ℕ → Frame) → Threads Heap Wait → PrivateThreads Heap Wait
private_view g s = record { world = with_stacks g s.world; extra = tt }

module _ {Heap Wait : Type 0} (pr : Program Heap Wait) where
  -- The two results agree, and the systems are related again.
  abbrev pub Refines : Outcome (Threads Heap Wait) → Outcome (PrivateThreads Heap Wait) → Type 0
  Refines o o' = (g : ℕ → Frame) × (o' ≡ (o.0, private_view g o.1)) × Related pr o.1 g
