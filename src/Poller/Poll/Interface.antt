-- ===== src/Poller/Poll/Interface.antt =====
-- `poll_poller` keeps to what the event loop relies on.
use coroplusplus.Common.{
  ℕ, zero, suc, ◌+◌, ◌/◌, ◌≡◌, refl, ap, sym, ◌∙◌, Option, none, some, length, inl, inr, Bool-cases,
}
use coroplusplus.Coro.State.{Stop, out_of_bounds, World, Outcome, ◌>>=◌, schedule}
use coroplusplus.Coro.Private.Exec.{with_stacks, schedule-with_stacks, coros-schedule}
use coroplusplus.Coro.EventLoop.Refines.{Poller}
use coroplusplus.Poller.{find, erase}
use coroplusplus.Poller.Poll.Call.{waiting, call_kernel, write_slots}
use coroplusplus.Poller.Poll.{
  Bits, PollFd, PollPoller, Answer, fails, answers, Kernel, want_in, want_out, fill_slots, and_then,
  erase_after, wake_found, wake_reader, wake_writer, visit, dispatch, answered, poll,
}

module _ {W V : Type 0} (schedule : ℕ → ℕ → W → Outcome W) (schedule' : ℕ → ℕ → V → Outcome V)
    (view : W → V)
    (natural : (c arg : ℕ) (w : W)
      → schedule' c arg (view w) ≡ ((schedule c arg w).0, view (schedule c arg w).1)) where
  abbrev viewed : PollPoller × W → PollPoller × V
  viewed (p, w) = (p, view w)

  abbrev Views : Outcome (PollPoller × W) → Outcome (PollPoller × V) → Type 0
  Views o o' = o' ≡ (o.0, viewed o.1)

  wake_found-Views :
      (erased p : PollPoller) (w : W) (c : Option ℕ)
      → Views (wake_found schedule erased (p, w) c) (wake_found schedule' erased (p, view w) c)
  wake_found-Views erased p w none = refl
  wake_found-Views erased p w (some c) =
      ap (erase_after p erased) (natural c 0 w) ∙ by_stop (schedule c 0 w).0 (schedule c 0 w).1
    where
      by_stop :
          (x : Option Stop) (v : W)
          → erase_after p erased (x, view v)
            ≡ ((erase_after p erased (x, v)).0, viewed (erase_after p erased (x, v)).1)
      by_stop none v = refl
      by_stop (some x) v = refl

  visit-Views :
      (fd : ℕ) (b : Bits) (p : PollPoller) (w : W)
      → Views (visit schedule fd b (p, w)) (visit schedule' fd b (p, view w))
  unfolding visit wake_reader wake_writer
  visit-Views fd b p w = elim (Bool-cases b.pollin) [
    | inl e ↦
        rw e
          (wake_found-Views (record p { read_set = erase fd p.read_set }) p w (find fd p.read_set))
    | inr e ↦ elim (Bool-cases b.pollout) [
      | inl e' ↦
          rw (e, e')
            (wake_found-Views (record p { write_set = erase fd p.write_set }) p w
              (find fd p.write_set))
      | inr e' ↦ rw (e, e') refl
    ]
  ]

  bind-Views :
      (o : Outcome (PollPoller × W)) (o' : Outcome (PollPoller × V))
      (f : PollPoller × W → Outcome (PollPoller × W))
      (f' : PollPoller × V → Outcome (PollPoller × V))
      → Views o o'
      → ((s : PollPoller × W) → Views (f s) (f' (viewed s)))
      → Views (o >>= f) (o' >>= f')
  bind-Views (none, s) o' f f' e h = ap (λ o. o >>= f') e ∙ h s
  bind-Views (some x, s) o' f f' e h = ap (λ o. o >>= f') e

  dispatch-Views :
      (revents : ℕ → Bits) (left j n : ℕ) (s : PollPoller × W)
      → Views
          (dispatch schedule revents left j n s)
          (dispatch schedule' revents left j n (viewed s))
  unfolding dispatch
  dispatch-Views revents zero j n s = refl
  dispatch-Views revents (suc left) j zero s = refl
  dispatch-Views revents (suc left) j (suc n) s =
      bind-Views (visit schedule (s.0.poll_set j).fd (revents j) s)
        (visit schedule' (s.0.poll_set j).fd (revents j) (viewed s))
        (dispatch schedule revents left (suc j) n) (dispatch schedule' revents left (suc j) n)
        (visit-Views (s.0.poll_set j).fd (revents j) s.0 s.1)
        (dispatch-Views revents left (suc j) n)

  answered-Views :
      (count : ℕ) (s : PollPoller × W) (a : Answer)
      → Views (answered schedule count s a) (answered schedule' count (viewed s) a)
  answered-Views count s (fails errno) = refl
  answered-Views count s (answers n revents) = dispatch-Views revents count 0 n s

  abbrev view_some : Option (Outcome (PollPoller × W)) → Option (Outcome (PollPoller × V))
  view_some none = none
  view_some (some o) = some (o.0, viewed o.1)

  poll-Views :
      (kernel : Kernel) (t : ℕ) (p : PollPoller) (w : W)
      → poll schedule' kernel t (p, view w) ≡ view_some (poll schedule kernel t (p, w))
  unfolding poll
  poll-Views kernel t p w =
      first
        (fill_slots want_in p.size p.read_set (length p.read_set + length p.write_set) p.poll_set)
    where
      second :
          (o : Option ((ℕ → PollFd) × ℕ))
          → and_then o (call_kernel schedule' kernel t p (view w))
            ≡ view_some (and_then o (call_kernel schedule kernel t p w))
      second none = refl
      second (some f) =
          ap (λ o. some o)
            (answered-Views (waiting p) (record p { poll_set = f.0 }, w)
              (kernel f.0 (waiting p) (t / 1000)))

      first :
          (o : Option ((ℕ → PollFd) × ℕ))
          → and_then o (write_slots schedule' kernel t p (view w))
            ≡ view_some (and_then o (write_slots schedule kernel t p w))
      first none = refl
      first (some r) = second (fill_slots want_out p.size p.write_set r.1 r.0)

module _ {W X : Type 0} (schedule : ℕ → ℕ → W → Outcome W) (seen : W → X)
    (keeps : (c arg : ℕ) (w : W) → seen (schedule c arg w).1 ≡ seen w) where
  wake_found-keeps :
      (erased p : PollPoller) (w : W) (c : Option ℕ)
      → seen (wake_found schedule erased (p, w) c).1.1 ≡ seen w
  wake_found-keeps erased p w none = refl
  wake_found-keeps erased p w (some c) = by_stop (schedule c 0 w).0 (schedule c 0 w).1 ∙ keeps c 0 w
    where
      by_stop : (x : Option Stop) (v : W) → seen (erase_after p erased (x, v)).1.1 ≡ seen v
      by_stop none v = refl
      by_stop (some x) v = refl

  visit-keeps :
      (fd : ℕ) (b : Bits) (p : PollPoller) (w : W) → seen (visit schedule fd b (p, w)).1.1 ≡ seen w
  unfolding visit wake_reader wake_writer
  visit-keeps fd b p w = elim (Bool-cases b.pollin) [
    | inl e ↦
        rw e
          (wake_found-keeps (record p { read_set = erase fd p.read_set }) p w (find fd p.read_set))
    | inr e ↦ elim (Bool-cases b.pollout) [
      | inl e' ↦
          rw (e, e')
            (wake_found-keeps (record p { write_set = erase fd p.write_set }) p w
              (find fd p.write_set))
      | inr e' ↦ rw (e, e') refl
    ]
  ]

  bind-keeps :
      (o : Outcome (PollPoller × W)) (f : PollPoller × W → Outcome (PollPoller × W))
      → ((s : PollPoller × W) → seen (f s).1.1 ≡ seen s.1)
      → seen (o >>= f).1.1 ≡ seen o.1.1
  bind-keeps (none, s) f h = h s
  bind-keeps (some x, s) f h = refl

  dispatch-keeps :
      (revents : ℕ → Bits) (left j n : ℕ) (s : PollPoller × W)
      → seen (dispatch schedule revents left j n s).1.1 ≡ seen s.1
  unfolding dispatch
  dispatch-keeps revents zero j n s = refl
  dispatch-keeps revents (suc left) j zero s = refl
  dispatch-keeps revents (suc left) j (suc n) s =
      bind-keeps (visit schedule (s.0.poll_set j).fd (revents j) s)
        (dispatch schedule revents left (suc j) n) (dispatch-keeps revents left (suc j) n)
      ∙ visit-keeps (s.0.poll_set j).fd (revents j) s.0 s.1

  answered-keeps :
      (count : ℕ) (s : PollPoller × W) (a : Answer)
      → seen (answered schedule count s a).1.1 ≡ seen s.1
  answered-keeps count s (fails errno) = refl
  answered-keeps count s (answers n revents) = dispatch-keeps revents count 0 n s

  poll-keeps :
      (kernel : Kernel) (t : ℕ) (p : PollPoller) (w : W) (o : Outcome (PollPoller × W))
      → poll schedule kernel t (p, w) ≡ some o
      → seen o.1.1 ≡ seen w
  unfolding poll
  poll-keeps kernel t p w o = first (fill_slots want_in p.size p.read_set (waiting p) p.poll_set)
    where
      second :
          (f : Option ((ℕ → PollFd) × ℕ))
          → and_then f (call_kernel schedule kernel t p w) ≡ some o
          → seen o.1.1 ≡ seen w
      second none e = absurd (cc)
      second (some f) e =
          let same : answered schedule (waiting p) (record p { poll_set = f.0 }, w)
                (kernel f.0 (waiting p) (t / 1000))
              ≡ o =
            cc in
          ap (λ (x : Outcome (PollPoller × W)). seen x.1.1) (sym same)
          ∙ answered-keeps (waiting p) (record p { poll_set = f.0 }, w)
              (kernel f.0 (waiting p) (t / 1000))

      first :
          (f : Option ((ℕ → PollFd) × ℕ))
          → and_then f (write_slots schedule kernel t p w) ≡ some o
          → seen o.1.1 ≡ seen w
      first none e = absurd (cc)
      first (some f) e = second (fill_slots want_out p.size p.write_set f.1 f.0) e

module _ {Heap : Type 0} (kernel : ℕ → Kernel) where
  abbrev pub out_of :
      {Stack : Type 0}
      → World Heap PollPoller Stack
      → Option (Outcome (PollPoller × World Heap PollPoller Stack))
      → Outcome (World Heap PollPoller Stack)
  out_of w none = (some out_of_bounds, w)
  out_of w (some o) = (o.0, record o.1.1 { wait = o.1.0 })

  -- The poller of the event loop: its sets are in the world, and the kernel goes with the clock.
  unfoldable pub poll_world :
      {Stack : Type 0} → ℕ → World Heap PollPoller Stack → Outcome (World Heap PollPoller Stack)
  poll_world t w = out_of w (poll schedule (kernel w.ticks) t (w.wait, w))

  pub poll_world-with_stacks :
      {A B : Type 0} (g : ℕ → B) (t : ℕ) (w : World Heap PollPoller A)
      → poll_world t (with_stacks g w) ≡ ((poll_world t w).0, with_stacks g (poll_world t w).1)
  unfolding poll_world
  poll_world-with_stacks {A} g t w =
      ap (out_of (with_stacks g w)) (
        poll-Views schedule schedule (with_stacks g) (λ c arg v. schedule-with_stacks g v c arg)
          (kernel w.ticks) t w.wait w)
      ∙ both (poll schedule (kernel w.ticks) t (w.wait, w))
    where
      both :
          (o : Option (Outcome (PollPoller × World Heap PollPoller A)))
          → out_of (with_stacks g w) (
              view_some schedule schedule
                (with_stacks g)
                (λ c arg v. schedule-with_stacks g v c arg)
                o)
            ≡ ((out_of w o).0, with_stacks g (out_of w o).1)
      both none = refl
      both (some o) = refl

  pub coros-poll_world :
      {Stack : Type 0} (t : ℕ) (w : World Heap PollPoller Stack)
      → (poll_world t w).1.coros ≡ w.coros
  unfolding poll_world
  coros-poll_world t w = both (poll schedule (kernel w.ticks) t (w.wait, w)) refl
    where
      both :
          (o : Option (Outcome (PollPoller × World Heap PollPoller _)))
          → poll schedule (kernel w.ticks) t (w.wait, w) ≡ o
          → (out_of w o).1.coros ≡ w.coros
      both none e = refl
      both (some o) e =
          poll-keeps schedule (λ v. v.coros) (λ c arg v. coros-schedule v c arg) (kernel w.ticks) t
            w.wait w o e

  -- `poll_poller` meets the interface of the event loop.
  abbrev pub poll_poller : Poller Heap PollPoller
  poll_poller = record {
    poll = poll_world;
    poll-with_stacks = poll_world-with_stacks;
    coros-poll = coros-poll_world;
  }
