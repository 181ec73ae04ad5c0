-- ===== src/Sync/Handover.antt =====
-- Threads that share a `fifo`, in any order of their steps.
use coroplusplus.Common.{
  ℕ, suc, ◌≤◌, ◌≡◌, refl, ap, sym, ◌∙◌, ◌⊎◌, inl, inr, none, some, List, [], ◌∷◌, ◌++◌, arith,
  length, length-append, append_assoc,
}
use coroplusplus.Coro.State.{Outcome}
use coroplusplus.Sync.{
  ConditionVariable, Round, returns, yields, throws_in_main, Fifo, push, pop_round,
}

-- The `fifo`, the threads that it has woken and that have not run since, and what has been pushed and
-- popped so far.
pub record System (A : Type 0) : Type 0 where
  pub fifo : Fifo A
  pub woken : List ℕ
  pub pushed : List A
  pub popped : List A

-- A thread that waits in `pop` is not dead, so `schedule` does not throw.
abbrev pub wake : ℕ → ℕ → List ℕ → Outcome (List ℕ)
wake co arg woken = (none, woken ++ co ∷ [])

abbrev pub after_round : {A : Type 0} → System A → Round A (Fifo A) → System A
after_round s (returns x f) = record s { fifo = f; popped = s.popped ++ x ∷ [] }
after_round s (yields f) = record s { fifo = f }
after_round s throws_in_main = s

abbrev pub after_push : {A : Type 0} → A → System A → System A
after_push x s =
    let (stop, (f, woken)) = push wake x s.fifo s.woken in
    record s { fifo = f; woken = woken; pushed = s.pushed ++ x ∷ [] }

pub data Steps {A : Type 0} (start : System A) : System A → Type 0 where
  starts : Steps start start
  -- Some thread pushes.
  pushes : (s : System A) (x : A) → Steps start s → Steps start (after_push x s)
  -- The thread `c` calls `pop`.
  calls_pop :
      (s : System A) (c : ℕ)
      → Steps start s
      → Steps start (after_round s (pop_round (some c) s.fifo))
  -- The thread `c`, which has been woken, runs and tests the queue again.
  resumes :
      (s : System A) (c : ℕ) (before after : List ℕ)
      → s.woken ≡ before ++ c ∷ after
      → Steps start s
      → Steps start (after_round (record s { woken = before ++ after }) (pop_round (some c) s.fifo))

abbrev pub idle : {A : Type 0} → System A
idle = record { fifo = record { cv = []; q = [] }; woken = []; pushed = []; popped = [] }

pub record Sound {A : Type 0} (s : System A) : Type 0 where
  pub order : s.popped ++ s.fifo.q ≡ s.pushed
  pub served : (s.fifo.cv ≡ []) ⊎ (length s.fifo.q ≤ length s.woken)

-- A round of `pop` by a thread, before which there was one more woken thread at most.
round-Sound :
    {A : Type 0} (s : System A) (c : ℕ) (cv : ConditionVariable) (q : List A)
    → s.popped ++ q ≡ s.pushed
    → (cv ≡ []) ⊎ (length q ≤ suc (length s.woken))
    → Sound (after_round s (pop_round (some c) (record { cv = cv; q = q })))
unfolding pop_round coroplusplus.Sync.wait
round-Sound s c cv [] o v = record { order = o; served = inr (omega arith) }
round-Sound s c cv (x ∷ q) o v = record {
  order = append_assoc s.popped (x ∷ []) q ∙ o;
  served = elim v [ inl e ↦ inl e | inr h ↦ inr (omega arith) ];
}

push-Sound :
    {A : Type 0} (x : A) (cv : ConditionVariable) (q : List A) (woken : List ℕ)
    (pushed popped : List A)
    → popped ++ q ≡ pushed
    → (cv ≡ []) ⊎ (length q ≤ length woken)
    → Sound (
        after_push x (record {
          fifo = record { cv = cv; q = q };
          woken = woken;
          pushed = pushed;
          popped = popped;
        }))
unfolding push coroplusplus.Sync.wake_one
push-Sound x [] q woken pushed popped o v = record {
  order = sym (append_assoc popped q (x ∷ [])) ∙ ap (λ t. t ++ x ∷ []) o;
  served = inl refl;
}
push-Sound x (c ∷ cv) q woken pushed popped o v = record {
  order = sym (append_assoc popped q (x ∷ [])) ∙ ap (λ t. t ++ x ∷ []) o;
  served = elim v [
    | inl e ↦ absurd (omega (arith, ap length e))
    | inr h ↦ inr (omega (arith, length-append q (x ∷ []), length-append woken (c ∷ [])))
  ];
}

-- Whatever threads push, call `pop` and run again after they were woken, in any order, from an empty
-- queue in which nobody waits: the values are popped in the order in which they were pushed, each once,
-- and those not popped yet are in the queue; and if a thread waits, at least as many woken threads
-- have still to run as there are values in the queue.
pub Steps-Sound : {A : Type 0} (s : System A) → Steps idle s → Sound s
Steps-Sound s starts = record { order = refl; served = inl refl }
Steps-Sound s (pushes before x steps) =
    let i = Steps-Sound before steps in
    push-Sound x before.fifo.cv before.fifo.q before.woken before.pushed before.popped i.order
      i.served
Steps-Sound s (calls_pop before c steps) =
    let i = Steps-Sound before steps in
    round-Sound before c before.fifo.cv before.fifo.q i.order
      (elim i.served [ inl e ↦ inl e | inr h ↦ inr (omega arith) ])
Steps-Sound s (resumes from c before after e steps) =
    let i = Steps-Sound from steps in
    round-Sound (record from { woken = before ++ after }) c from.fifo.cv from.fifo.q i.order
      (elim i.served [
        | inl none_waits ↦ inl none_waits
        | inr h ↦ inr (
            omega
              (arith, ap length e, length-append before (c ∷ after), length-append before after))
      ])
