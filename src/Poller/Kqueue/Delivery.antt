-- ===== src/Poller/Kqueue/Delivery.antt =====
-- What `poll` does with the events that `kevent` returns.
use coroplusplus.Common.{
  ℕ, zero, suc, ◌<◌, ◌≡◌, refl, ap, sym, ◌∙◌, true, false, none, some, List, [], ◌∷◌, ◌++◌, arith,
  ◌==◌, All, Bool-cases, inl, inr, append_assoc, append-nil,
}
use coroplusplus.Timeval.{ℤ}
use coroplusplus.Coro.State.{PendingEntry, World, schedule}
use coroplusplus.Poller.Kqueue.{
  KEvent, KqueuePoller, Kernel, timespec, event_error, wait_error, deliver, after_kevent,
  kqueue_poll,
}

-- The event ends the wait of its coroutine with an errno if the descriptor has one at its end.
abbrev pub Ends : KEvent → PendingEntry → Type 0
Ends e entry =
    (entry.0 ≡ e.udata)
    × (e.eof ≡ true → 0 < e.fflags → wait_error entry.1 ≡ some e.fflags)
    × (e.eof ≡ false → wait_error entry.1 ≡ none)
    × (e.fflags ≡ 0 → wait_error entry.1 ≡ none)

abbrev pub EndsAll : List KEvent → List PendingEntry → Type 0
EndsAll [] [] = Unit
EndsAll (e ∷ es) (x ∷ xs) = Ends e x × EndsAll es xs
EndsAll es xs = ⊥

wait_error_pos : (n : ℕ) → 0 < n → wait_error n ≡ some n
unfolding wait_error
wait_error_pos zero h = absurd (omega arith)
wait_error_pos (suc n) h = refl

event_error-Ends : (e : KEvent) → Ends e (e.udata, event_error e)
unfolding event_error wait_error
event_error-Ends e = (
  refl,
  λ at_end h.
      let nonzero : (e.fflags == 0) ≡ false = ground arith in
      rw (at_end, nonzero) (wait_error_pos e.fflags h),
  λ open_still. rw open_still refl,
  λ no_error. elim (Bool-cases e.eof) [
    | inl at_end ↦ rw (at_end, no_error) refl
    | inr open_still ↦ rw open_still refl
  ],
)

module _ {Heap Wait Stack : Type 0} where
  deliver_alive :
      (es : List KEvent) (w : World Heap Wait Stack)
      → All (λ (e : KEvent). (w.coros e.udata).dead ≡ false) es
      → (entries : List PendingEntry) × (deliver schedule es w
          ≡ (none, record w { pending = w.pending ++ entries }))
        × EndsAll es entries
  unfolding deliver schedule
  deliver_alive [] w alive =
      ([], ap (λ es. (none, record w { pending = es })) (sym (append-nil w.pending)), tt)
  deliver_alive (e ∷ es) w alive =
      let entry : PendingEntry = (e.udata, event_error e) in
      let (entries, eq, ends) =
        deliver_alive es (record w { pending = w.pending ++ entry ∷ [] }) alive.1 in
      (
        entry ∷ entries,
        rw (alive.0) (
            eq
            ∙ ap (λ es. (none, record w { pending = es }))
                (append_assoc w.pending (entry ∷ []) entries)),
        (event_error-Ends e, ends),
      )

  -- If no coroutine of the events that `kevent` returns is dead, `poll` returns with an empty change
  -- list, and appends to `_pending` an entry for the coroutine of each event, in order, whose argument
  -- ends the wait with the errno of the descriptor if it is at its end with one, and without an error
  -- if not.
  pub kqueue_poll-Ends :
      (kernel : Kernel) (t : ℤ) (k : KqueuePoller) (w : World Heap Wait Stack) (es : List KEvent)
      → kernel k.changes k.output_max (timespec t) ≡ some es
      → All (λ (e : KEvent). (w.coros e.udata).dead ≡ false) es
      → (entries : List PendingEntry) × (kqueue_poll schedule kernel t (k, w)
          ≡ (none, (record k { changes = [] }, record w { pending = w.pending ++ entries })))
        × EndsAll es entries
  unfolding kqueue_poll
  kqueue_poll-Ends kernel t k w es answer alive =
      let (entries, eq, ends) = deliver_alive es w alive in
      (
        entries,
        ap (after_kevent schedule (record k { changes = [] }) w) answer
            ∙ ap (λ o. (o.0, (record k { changes = [] }, o.1))) eq,
        ends,
      )
