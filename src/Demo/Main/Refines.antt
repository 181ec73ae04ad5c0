-- ===== src/Demo/Main/Refines.antt =====
-- A program from its `main` function on, on one shared stack and on private stacks.
use coroplusplus.Common.{
  ℕ, ◌-◌, ◌≤◌, ◌≡◌, refl, ap, sym, ◌∙◌, none, some, List, [], ◌∷◌, update, subst, fun_ext,
}
use coroplusplus.Coro.State.{Outcome, ◌>>=◌, World, coro_of_fun, coro_of_method, new_coro, schedule}
use coroplusplus.Coro.Threads.{Frame, Program}
use coroplusplus.Coro.Loop.{System, on_world}
use coroplusplus.Coro.Stack.{StackCopy, Hardware, Threads, blank_stack, turn}
use coroplusplus.Coro.Private.{blank_frame, private_turn}
use coroplusplus.Coro.Private.Exec.{
  with_stack, with_stacks, new_coro-with_stacks, schedule-with_stacks, Kept, Kept-trans,
  new_coro-Kept, schedule-Kept,
}
use coroplusplus.Coro.Private.Enter.{Stored, IsOutside}
use coroplusplus.Coro.Private.Related.{IsSound, AllStored, Related, Refines, private_view}
use coroplusplus.Coro.Private.Refines.{Refines-bind}
use coroplusplus.Coro.EventLoop.{event_loop}
use coroplusplus.Coro.EventLoop.Refines.{Poller, event_loop-Refines}
use coroplusplus.Demo.Main.{
  Start, of_fun, of_method, new_of, first_world, start, start_all, run_main,
}
use coroplusplus.Demo.Main.Makes.{new_of-fresh, Makes, start_all-Makes}

new_of-with_stack :
    {A B : Type 0} (a : A) (b : B) (x : Start) (id : ℕ)
    → new_of b x id ≡ with_stack b (new_of a x id)
unfolding coro_of_fun coro_of_method
new_of-with_stack a b (of_fun fun arg) id = refl
new_of-with_stack a b (of_method meth arg) id = refl

on_world-bind :
    {Heap Wait Stack Extra : Type 0} (f : World Heap Wait Stack → Outcome (World Heap Wait Stack))
    (o : Outcome (World Heap Wait Stack)) (s : System Heap Wait Stack Extra)
    → on_world (λ w. o >>= f) s ≡ (on_world (λ w. o) s >>= on_world f)
on_world-bind f (none, w) s = refl
on_world-bind f (some x, w) s = refl

module _ {Heap Wait : Type 0} (pr : Program Heap Wait) where
  -- Whatever keeps the started coroutines keeps them stored.
  AllStored-Kept :
      (w v : World Heap Wait StackCopy) (g h : ℕ → Frame)
      → ((p : ℕ) → Kept (w.coros p) (g p) (v.coros p) (h p))
      → AllStored pr w g
      → AllStored pr v h
  AllStored-Kept w v g h kept all p started alive =
      let k = kept p in
      subst (λ c. Stored pr c (h p)) (sym (k.same_copy started))
        (subst (λ f. Stored pr (w.coros p).stack f) (sym (k.same_frame started))
          (all p (k.started_before started) (k.alive_before started alive)))

  -- A coroutine that is started has a blank stack on both sides.
  start-Refines :
      (x : Start) (s : Threads Heap Wait) (g : ℕ → Frame)
      → Related pr s g
      → Refines pr
          (on_world (start blank_stack x) s)
          (on_world (start blank_frame x) (private_view g s))
  unfolding start
  start-Refines x s g rel =
      let w = s.world in
      let v = new_coro (new_of blank_stack x) w in
      let h = update g w.next blank_frame in
      let same : new_coro (new_of blank_frame x) (with_stacks g w) ≡ with_stacks h v =
        ap (λ m. new_coro m (with_stacks g w))
          (fun_ext (new_of-with_stack blank_stack blank_frame x))
        ∙ new_coro-with_stacks g w (new_of blank_stack x) blank_frame in
      (
        h,
        ap
            (λ (o : Outcome (World Heap Wait Frame)).
              (o.0, record (private_view g s) { world = o.1 }))
            (ap (schedule w.next 0) same ∙ schedule-with_stacks h v w.next 0),
        record {
          stored =
              AllStored-Kept w (schedule w.next 0 v).1 g h
                (λ p.
                  Kept-trans
                    (new_coro-Kept w g (new_of blank_stack x) blank_frame
                      (new_of-fresh blank_stack x w.id_counter).0 p)
                    (schedule-Kept v h w.next 0 p))
                rel.stored;
          pushed = rel.pushed;
          outside = rel.outside;
        },
      )

  module _ (sound : IsSound pr) where
    start_all-Refines :
        (xs : List Start) (s : Threads Heap Wait) (g : ℕ → Frame)
        → Related pr s g
        → Refines pr
            (on_world (start_all blank_stack xs) s)
            (on_world (start_all blank_frame xs) (private_view g s))
    unfolding start_all
    start_all-Refines [] s g rel = (g, refl, rel)
    start_all-Refines (x ∷ xs) s g rel =
        subst (λ o. Refines pr o (on_world (start_all blank_frame (x ∷ xs)) (private_view g s)))
          (sym (on_world-bind (start_all blank_stack xs) (start blank_stack x s.world) s))
          (subst
            (λ o.
              Refines pr (on_world (start blank_stack x) s >>= on_world (start_all blank_stack xs))
                o)
            (sym (
              on_world-bind (start_all blank_frame xs)
                (start blank_frame x (private_view g s).world) (private_view g s)))
            (Refines-bind pr sound (on_world (start blank_stack x) s)
              (on_world (start blank_frame x) (private_view g s))
              (on_world (start_all blank_stack xs)) (on_world (start_all blank_frame xs))
              (start-Refines x s g rel) (start_all-Refines xs)))

-- Whatever coroutines a `main` function starts, in the program's first world: they are made and scheduled
-- in order, with ids from 1 on, and nothing is thrown. The event loop that follows on the shared stack
-- then has the result of the same `main` function with a stack of its own for each thread, for any bounds
-- on the rounds and any poller that keeps to its interface, and the worlds that are left are the same but
-- for the stacks: when the stack of `main` lies outside the shared one, that one in the address space,
-- `malloc` gives memory, and the program's functions keep to the stack.
pub run_main-Refines :
    {Heap Wait : Type 0} (pr : Program Heap Wait) (sound : IsSound pr) (poller : Poller Heap Wait)
    (fuel rounds : ℕ) (xs : List Start) (heap : Heap) (wait : Wait) (hw : Hardware)
    → 1 ≤ hw.cpu.rsp
    → IsOutside pr (hw.cpu.rsp - 1)
    → ((w : World Heap Wait StackCopy) × (start_all blank_stack xs
            (first_world blank_stack heap wait)
          ≡ (none, w))
        × Makes blank_stack xs (first_world blank_stack heap wait) w)
      × Refines pr
          (run_main blank_stack pr.now
            (turn pr)
            poller.poll
            fuel
            rounds
            xs
            (record { world = first_world blank_stack heap wait; extra = hw }))
          (run_main blank_frame pr.now
            (private_turn pr)
            poller.poll
            fuel
            rounds
            xs
            (record { world = first_world blank_frame heap wait; extra = tt }))
unfolding run_main first_world coro_of_fun
run_main-Refines pr sound poller fuel rounds xs heap wait hw pushed outside =
    let s : Threads _ _ = record { world = first_world blank_stack heap wait; extra = hw } in
    let g : ℕ → Frame = λ p. blank_frame in
    (
      start_all-Makes blank_stack xs (first_world blank_stack heap wait),
      Refines-bind pr sound (on_world (start_all blank_stack xs) s)
          (on_world (start_all blank_frame xs) (private_view g s))
          (event_loop pr.now (turn pr) poller.poll fuel rounds)
          (event_loop pr.now (private_turn pr) poller.poll fuel rounds)
          (start_all-Refines pr sound xs s g
            (record { stored = λ p e alive. cc; pushed = pushed; outside = outside }))
          (event_loop-Refines pr sound poller fuel rounds),
    )
