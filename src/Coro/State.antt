-- ===== src/Coro/State.antt =====
-- coro++.h: the classes `coro`, `event` and the exceptions, and the static members of `coro`.
-- A pointer to a coroutine is a number, and so is a `void *`; the null pointer is 0.
-- `Stack` is what a coroutine keeps of its stack: the fields `_state`, `_stack_copy` and
-- `_stack_copy_size` (Coro/Stack), or a stack of its own (Coro/Private). The unused fields `_arg1`
-- and `scheduled` are left out.
use coroplusplus.Common.{
  ℕ, ◌+◌, Bool, false, Option, none, some, List, [], ◌∷◌, ◌++◌, if◌then◌else◌, update,
}
use coroplusplus.Timeval.{Timeval}

-- How a call ends that does not return: the exceptions of the scheduler. `out_of_bounds` is a write
-- outside an array, which the language leaves open, and `out_of_fuel` is no
-- exception of the source: it marks a run that was cut off.
pub data Stop : Type 0 where
  dead_coro : ℕ → Stop
  malloc_failed : Stop
  out_of_bounds : Stop
  os_error : ℕ → Stop
  out_of_fuel : Stop

-- What was written before an exception stays written.
abbrev pub Outcome : Type 0 → Type 0
Outcome S = Option Stop × S

infixl 5 ◌>>=◌
abbrev pub ◌>>=◌ : {S : Type 0} → Outcome S → (S → Outcome S) → Outcome S
(none, s) >>= f = f s
(some x, s) >>= f = (some x, s)

pub record Event : Type 0 where
  pub t : Timeval
  pub args : ℕ
  pub coro : ℕ

pub record Coro (Stack : Type 0) : Type 0 where
  pub stack : Stack
  pub value : ℕ
  pub fun : ℕ
  pub meth : ℕ
  pub arg0 : ℕ
  pub started : Bool
  pub dead : Bool
  pub id : ℕ

-- An entry of `_pending`: whom to resume, and with which argument.
abbrev pub PendingEntry : Type 0
PendingEntry = ℕ × ℕ

-- The static members; the heap of coroutines, with the next free pointer; the memory `Heap` of the
-- program and the state `Wait` of its poller; the calls of `gettimeofday` so far.
pub record World (Heap Wait Stack : Type 0) : Type 0 where
  pub exit : Bool
  pub events : List Event
  pub id_counter : ℕ
  pub current : Option ℕ
  pub pending : List PendingEntry
  pub staging : List PendingEntry
  pub coros : ℕ → Coro Stack
  pub next : ℕ
  pub heap : Heap
  pub wait : Wait
  pub ticks : ℕ

module _ {Stack : Type 0} where
  -- `coro (spawn_fun, void *)`; `blank` is the stack of a coroutine that has none yet.
  unfoldable pub coro_of_fun : Stack → ℕ → ℕ → ℕ → Coro Stack
  coro_of_fun blank fun arg0 id = record {
    stack = blank;
    value = 0;
    fun = fun;
    meth = 0;
    arg0 = arg0;
    started = false;
    dead = false;
    id = id;
  }

  -- `coro (spawn_method, void *)`
  unfoldable pub coro_of_method : Stack → ℕ → ℕ → ℕ → Coro Stack
  coro_of_method blank meth arg0 id = record {
    stack = blank;
    value = 0;
    fun = 0;
    meth = meth;
    arg0 = arg0;
    started = false;
    dead = false;
    id = id;
  }

module _ {Heap Wait Stack : Type 0} where
  abbrev pub set_coro : ℕ → Coro Stack → World Heap Wait Stack → World Heap Wait Stack
  set_coro p c w = record w { coros = update w.coros p c }

  -- `new coro (…)`: the constructor at a fresh pointer, with the next id.
  unfoldable pub new_coro : (ℕ → Coro Stack) → World Heap Wait Stack → World Heap Wait Stack
  new_coro make w = record w {
    coros = update w.coros w.next (make w.id_counter);
    next = w.next + 1;
    id_counter = w.id_counter + 1;
  }

  -- `coro::schedule`
  unfoldable pub schedule : ℕ → ℕ → World Heap Wait Stack → Outcome (World Heap Wait Stack)
  schedule p arg w =
      if (w.coros p).dead
      then (some (dead_coro p), w)
      else (none, record w { pending = w.pending ++ (p, arg) ∷ [] })
