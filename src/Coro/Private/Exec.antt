-- ===== src/Coro/Private/Exec.antt =====
-- The run of a thread does not depend on how the stacks of the coroutines are kept.
use coroplusplus.Common.{
  ℕ, ◌≡◌, refl, ap, sym, ◌∙◌, fun_ext, true, false, inl, inr, update, Bool-cases, Option-cases,
  ◌==◌, ==_iff, subst,
}
use coroplusplus.Coro.State.{Coro, World, set_coro, new_coro, coro_of_fun, coro_of_method, schedule}
use coroplusplus.Coro.Threads.{
  is_thrown, Frame, Code, schedules, inserts_event, new_fun, new_method, exits, gets_time,
  gets_current, sets_wait, writes_heap, reads_heap, yields, returns, throws, Program, exec, finish,
  yield_current,
}

module _ {A B : Type 0} where
  abbrev pub with_stack : B → Coro A → Coro B
  with_stack b c = record {
    stack = b;
    value = c.value;
    fun = c.fun;
    meth = c.meth;
    arg0 = c.arg0;
    started = c.started;
    dead = c.dead;
    id = c.id;
  }

  update-with :
      (F : ℕ → A → B) (f : ℕ → A) (p : ℕ) (v : A)
      → update (λ q. F q (f q)) p (F p v) ≡ (λ q. F q (update f p v q))
  unfolding update
  update-with F f p v = fun_ext λ q. elim (Bool-cases (p == q)) [
    | inl e ↦ rw e (ap (λ r. F r v) ((==_iff p q).0 e))
    | inr e ↦ rw e refl
  ]

module _ {Heap Wait A B : Type 0} where
  -- The same world with other stacks.
  abbrev pub with_stacks : (ℕ → B) → World Heap Wait A → World Heap Wait B
  with_stacks g w = record {
    exit = w.exit;
    events = w.events;
    id_counter = w.id_counter;
    current = w.current;
    pending = w.pending;
    staging = w.staging;
    coros = λ p. with_stack (g p) (w.coros p);
    next = w.next;
    heap = w.heap;
    wait = w.wait;
    ticks = w.ticks;
  }

  pub set_coro-with_stacks :
      (g : ℕ → B) (w : World Heap Wait A) (p : ℕ) (c : Coro A)
      → set_coro p (with_stack (g p) c) (with_stacks g w) ≡ with_stacks g (set_coro p c w)
  set_coro-with_stacks g w p c =
      ap (λ f. record (with_stacks g w) { coros = f })
        (update-with (λ q. with_stack (g q)) w.coros p c)

  -- A new coroutine gets a blank stack on both sides.
  pub new_coro-with_stacks :
      (g : ℕ → B) (w : World Heap Wait A) (make : ℕ → Coro A) (b : B)
      → new_coro (λ n. with_stack b (make n)) (with_stacks g w)
        ≡ with_stacks (update g w.next b) (new_coro make w)
  unfolding new_coro update
  new_coro-with_stacks g w make b =
      ap (λ f. record (with_stacks g (new_coro make w)) { coros = f }) (fun_ext λ q. coros_at q)
    where
      coros_at :
          (q : ℕ)
          → update (λ p. with_stack (g p) (w.coros p)) w.next (with_stack b (make w.id_counter)) q
            ≡ with_stack (update g w.next b q) (update w.coros w.next (make w.id_counter) q)
      coros_at q = elim (Bool-cases (w.next == q)) [ inl e ↦ rw e refl | inr e ↦ rw e refl ]

  yield_current-with_stacks :
      (g : ℕ → B) (arg : ℕ) (w : World Heap Wait A)
      → yield_current arg (with_stacks g w) ≡ with_stacks g (yield_current arg w)
  unfolding yield_current
  yield_current-with_stacks g arg w = elim (Option-cases w.current) [
    | inl e ↦ rw (e, yield_current) refl
    | inr (c, e) ↦
        rw (e, yield_current) (set_coro-with_stacks g w c (record (w.coros c) { value = arg }))
  ]

  pub finish-with_stacks :
      (g : ℕ → B) (w : World Heap Wait A) (co : ℕ)
      → finish co (with_stacks g w) ≡ with_stacks g (finish co w)
  unfolding finish
  finish-with_stacks g w co =
      let c = record (w.coros co) { dead = true } in
      ap (yield_current 0) (set_coro-with_stacks g w co c)
      ∙ yield_current-with_stacks g 0 (set_coro co c w)

-- What a run leaves of a coroutine that it did not create: its stack on both sides; the dead stay so.
pub record Kept {A B : Type 0} (c : Coro A) (b : B) (c' : Coro A) (b' : B) : Type 0 where
  pub started_before : c'.started ≡ true → c.started ≡ true
  pub same_copy : c'.started ≡ true → c'.stack ≡ c.stack
  pub same_frame : c'.started ≡ true → b' ≡ b
  pub alive_before : c'.started ≡ true → c'.dead ≡ false → c.dead ≡ false

pub Kept-trans :
    {A B : Type 0} {c c' c'' : Coro A} {b b' b'' : B}
    → Kept c b c' b'
    → Kept c' b' c'' b''
    → Kept c b c'' b''
Kept-trans h k = record {
  started_before = λ e. h.started_before (k.started_before e);
  same_copy = λ e. k.same_copy e ∙ h.same_copy (k.started_before e);
  same_frame = λ e. k.same_frame e ∙ h.same_frame (k.started_before e);
  alive_before = λ e alive. h.alive_before (k.started_before e) (k.alive_before e alive);
}

-- A coroutine of which no more than its other fields were written, and which did not come alive.
Kept-written :
    {A B : Type 0} {c c' : Coro A} {b : B}
    → (c'.started ≡ true → c.started ≡ true)
    → c'.stack ≡ c.stack
    → (c'.dead ≡ false → c.dead ≡ false)
    → Kept c b c' b
Kept-written started same alive = record {
  started_before = started;
  same_copy = λ e. same;
  same_frame = λ e. refl;
  alive_before = λ e. alive;
}

Kept-refl : {A B : Type 0} {c : Coro A} {b : B} → Kept c b c b
Kept-refl = Kept-written (λ e. e) refl (λ e. e)

module _ {Heap Wait A : Type 0} where
  pub coros-schedule : (w : World Heap Wait A) (c arg : ℕ) → (schedule c arg w).1.coros ≡ w.coros
  unfolding schedule
  coros-schedule w c arg = elim (Bool-cases (w.coros c).dead) [
    | inl e ↦ rw e refl
    | inr e ↦ rw e refl
  ]

module _ {Heap Wait A B : Type 0} where
  -- The two runs agree: the frame, and the world but for its stacks.
  abbrev pub Agree :
      World Heap Wait A → (ℕ → B) → Frame × World Heap Wait A → Frame × World Heap Wait B → Type 0
  Agree w g x y =
      (g' : ℕ → B) × (y ≡ (x.0, with_stacks g' x.1))
      × ((p : ℕ) → Kept (w.coros p) (g p) (x.1.coros p) (g' p))

  Agree-after :
      (w : World Heap Wait A) (g : ℕ → B) (v : World Heap Wait A) (h : ℕ → B)
      (x : Frame × World Heap Wait A) (y : Frame × World Heap Wait B)
      → ((p : ℕ) → Kept (w.coros p) (g p) (v.coros p) (h p))
      → Agree v h x y
      → Agree w g x y
  Agree-after w g v h x y before (g', e, after) = (g', e, λ p. Kept-trans (before p) (after p))

  set_coro-Kept :
      (w : World Heap Wait A) (g : ℕ → B) (p : ℕ) (c : Coro A)
      → Kept (w.coros p) (g p) c (g p)
      → (q : ℕ) → Kept (w.coros q) (g q) ((set_coro p c w).coros q) (g q)
  unfolding update
  set_coro-Kept w g p c h q = elim (Bool-cases (p == q)) [
    | inl e ↦ rw e (subst (λ r. Kept (w.coros r) (g r) c (g r)) ((==_iff p q).0 e) h)
    | inr e ↦ rw e Kept-refl
  ]

  pub new_coro-Kept :
      (w : World Heap Wait A) (g : ℕ → B) (make : ℕ → Coro A) (b : B)
      → (make w.id_counter).started ≡ false
      → (p : ℕ) → Kept (w.coros p) (g p) ((new_coro make w).coros p) (update g w.next b p)
  unfolding update new_coro
  new_coro-Kept w g make b fresh p = elim (Bool-cases (w.next == p)) [
    | inl e ↦ rw e (record {
      started_before = λ e. cc;
      same_copy = λ e. cc;
      same_frame = λ e. cc;
      alive_before = λ e. cc;
    })
    | inr e ↦ rw e Kept-refl
  ]

  pub schedule-with_stacks :
      (g : ℕ → B) (w : World Heap Wait A) (c arg : ℕ)
      → schedule c arg (with_stacks g w)
        ≡ ((schedule c arg w).0, with_stacks g (schedule c arg w).1)
  unfolding schedule
  schedule-with_stacks g w c arg = elim (Bool-cases (w.coros c).dead) [
    | inl e ↦ rw e refl
    | inr e ↦ rw e refl
  ]

  pub schedule-Kept :
      (w : World Heap Wait A) (g : ℕ → B) (c arg : ℕ)
      → (p : ℕ) → Kept (w.coros p) (g p) ((schedule c arg w).1.coros p) (g p)
  schedule-Kept w g c arg p = rw (coros-schedule w c arg) Kept-refl

  yield_current-Kept :
      (w : World Heap Wait A) (g : ℕ → B) (arg : ℕ)
      → (p : ℕ) → Kept (w.coros p) (g p) ((yield_current arg w).coros p) (g p)
  unfolding yield_current
  yield_current-Kept w g arg p = elim (Option-cases w.current) [
    | inl e ↦ rw (e, yield_current) Kept-refl
    | inr (c, e) ↦
        rw (e, yield_current)
          (set_coro-Kept w g c (record (w.coros c) { value = arg })
            (Kept-written (λ e. e) refl (λ e. e)) p)
  ]

  finish-Kept :
      (w : World Heap Wait A) (g : ℕ → B) (co : ℕ)
      → (p : ℕ) → Kept (w.coros p) (g p) ((finish co w).coros p) (g p)
  unfolding finish
  finish-Kept w g co p =
      let dying = record (w.coros co) { dead = true } in
      let v = set_coro co dying w in
      Kept-trans (set_coro-Kept w g co dying (Kept-written (λ e. e) refl (λ e. cc)) p)
        (yield_current-Kept v g 0 p)

module _ {Heap Wait A B : Type 0} (pr : Program Heap Wait) (a : A) (b : B) (co : ℕ) where
  new_Agree :
      (make : ℕ → Coro A) (make' : ℕ → Coro B) (k : ℕ → Code Heap) (w : World Heap Wait A)
      (g : ℕ → B)
      → ((n : ℕ) → make' n ≡ with_stack b (make n))
      → ((n : ℕ) → (make n).started ≡ false)
      → ((v : World Heap Wait A) (h : ℕ → B)
          → Agree v h (exec pr a co (k w.next) v) (exec pr b co (k w.next) (with_stacks h v)))
      → Agree w g
          (exec pr a co (k w.next) (new_coro make w))
          (exec pr b co (k w.next) (new_coro make' (with_stacks g w)))
  new_Agree make make' k w g same fresh rest =
      let v = new_coro make w in
      let h = update g w.next b in
      subst (λ u. Agree w g (exec pr a co (k w.next) v) (exec pr b co (k w.next) u))
        (sym
          (ap (λ m. new_coro m (with_stacks g w)) (fun_ext same) ∙ new_coro-with_stacks g w make b))
        (Agree-after w g v h _ _ (new_coro-Kept w g make b (fresh w.id_counter)) (rest v h))

  pub exec-Agree :
      (k : Code Heap) (w : World Heap Wait A) (g : ℕ → B)
      → Agree w g (exec pr a co k w) (exec pr b co k (with_stacks g w))
  unfolding exec coro_of_fun coro_of_method
  exec-Agree (schedules c arg k) w g =
      let r = schedule c arg w in
      subst
        (λ o.
          Agree w g (exec pr a co (k (is_thrown r.0)) r.1) (exec pr b co (k (is_thrown o.0)) o.1))
        (sym (schedule-with_stacks g w c arg))
        (Agree-after w g r.1 g _ _ (schedule-Kept w g c arg) (exec-Agree (k (is_thrown r.0)) r.1 g))
  exec-Agree (inserts_event t c args k) w g = exec-Agree k _ g
  exec-Agree (new_fun fun arg k) w g =
      new_Agree (coro_of_fun a fun arg) (coro_of_fun b fun arg) k w g (λ n. refl) (λ n. refl)
        (exec-Agree (k w.next))
  exec-Agree (new_method meth arg k) w g =
      new_Agree (coro_of_method a meth arg) (coro_of_method b meth arg) k w g (λ n. refl)
        (λ n. refl) (exec-Agree (k w.next))
  exec-Agree (exits k) w g = exec-Agree k _ g
  exec-Agree (gets_time k) w g = exec-Agree (k (pr.now w.ticks)) _ g
  exec-Agree (gets_current k) w g = exec-Agree (k w.current) w g
  exec-Agree (sets_wait d fd c k) w g = exec-Agree k _ g
  exec-Agree (writes_heap f k) w g = exec-Agree k _ g
  exec-Agree (reads_heap k) w g = exec-Agree (k w.heap) w g
  exec-Agree (yields c arg f) w g =
      let d = record (w.coros c) { value = arg } in
      (
        g,
        ap (λ v. (f, v)) (set_coro-with_stacks g w c d),
        set_coro-Kept w g c d (Kept-written (λ e. e) refl (λ e. e)),
      )
  exec-Agree (returns f) w g = (g, ap (λ v. (f, v)) (finish-with_stacks g w co), finish-Kept w g co)
  exec-Agree (throws f) w g = (g, ap (λ v. (f, v)) (finish-with_stacks g w co), finish-Kept w g co)
