-- ===== src/Poller/Poll/Missed.antt =====
-- Ready descriptors that `poll` does not serve: those behind the first `poll_result` slots, and writers
-- whose slot was a reader's.
use coroplusplus.Common.{
  ℕ, zero, suc, ◌+◌, ◌/◌, ◌≤◌, ◌<◌, ◌≡◌, refl, ap, ◌∙◌, true, false, ◌&&◌, none, some, [], ◌∷◌,
  arith,
}
use coroplusplus.Coro.State.{Outcome, ◌>>=◌}
use coroplusplus.Poller.{find, erase}
use coroplusplus.Poller.Poll.{
  Bits, PollFd, PollPoller, answers, Kernel, wake_found, wake_reader, visit, dispatch, answered,
  poll,
}
use coroplusplus.Poller.Poll.Call.{waiting, prepare}

-- The kernel answers `n`, and the first `n` slots have neither POLLIN nor POLLOUT.
abbrev pub AnswersBehind : Kernel → ℕ → Type 0
AnswersBehind kernel n =
    (ps : ℕ → PollFd) (count t : ℕ)
    → (revents : ℕ → Bits) × (kernel ps count t ≡ answers n revents)
      × ((k : ℕ) → k < n → ((revents k).pollin ≡ false) × ((revents k).pollout ≡ false))

-- A kernel that reports of each descriptor what it is asked for and what is ready.
abbrev pub reports : (ℕ → Bits) → ℕ → Kernel
reports ready n ps count t = answers n λ k. record {
  pollin = (ps k).events.pollin && (ready (ps k).fd).pollin;
  pollout = (ps k).events.pollout && (ready (ps k).fd).pollout;
  others = (ready (ps k).fd).others;
}

module _ {W : Type 0} (schedule : ℕ → ℕ → W → Outcome W) where
  dispatch_nothing :
      (revents : ℕ → Bits) (left j n : ℕ) (s : PollPoller × W)
      → ((k : ℕ) → k < j + n → ((revents k).pollin ≡ false) × ((revents k).pollout ≡ false))
      → dispatch schedule revents left j n s ≡ (none, s)
  unfolding dispatch visit
  dispatch_nothing revents zero j n s h = refl
  dispatch_nothing revents (suc left) j zero s h = refl
  dispatch_nothing revents (suc left) j (suc n) s h =
      let (no_in, no_out) = h j (omega arith) in
      rw (no_in, no_out) (dispatch_nothing revents left (suc j) n s (λ k lt. h k (omega arith)))

  -- If the kernel answers `n` and the first `n` slots are not ready, `poll` schedules nobody and all
  -- wait as before, though the slots behind them may be the ready ones; the poll set has a slot for
  -- each waiting descriptor.
  pub poll_misses :
      (kernel : Kernel) (t n : ℕ) (p : PollPoller) (w : W)
      → waiting p ≤ p.size
      → AnswersBehind kernel n
      → (ps : ℕ → PollFd) × (poll schedule kernel t (p, w)
          ≡ some (none, (record p { poll_set = ps }, w)))
  poll_misses kernel t n p w h behind =
      let f = prepare schedule p h in
      let p' = record p { poll_set = f.slots } in
      let (revents, e, nothing) = behind f.slots (waiting p) (t / 1000) in
      (
        f.slots,
        f.filled kernel t w
            ∙ ap (λ a. some (answered schedule (waiting p) (p', w) a)) e
            ∙ ap (λ o. some o)
                (dispatch_nothing revents (waiting p) 0 n (p', w)
                  (λ k lt. nothing k (omega arith))),
      )

  dispatch_one :
      (revents : ℕ → Bits) (n : ℕ) (s : PollPoller × W)
      → s.0.read_set ≡ []
      → (revents 0).pollin ≡ true
      → dispatch schedule revents 1 0 n s ≡ (none, s)
  unfolding dispatch visit wake_reader find
  dispatch_one revents zero s no_reader yes_in = refl
  dispatch_one revents (suc n) s no_reader yes_in = rw yes_in (
      ap
        (λ m.
          wake_found schedule (record s.0 { read_set = erase (s.0.poll_set 0).fd s.0.read_set }) s
            (find (s.0.poll_set 0).fd m)
          >>= dispatch schedule revents 0 1 n)
        no_reader)

  -- A writer that waits alone, in a slot that was a reader's before, is not scheduled if its
  -- descriptor is readable too, however often `poll` is called: the slot still asks for POLLIN.
  pub poll_stale :
      (ready : ℕ → Bits) (t n fd c size : ℕ) (ps : ℕ → PollFd) (w : W)
      → (ps 0).events.pollin ≡ true
      → (ready fd).pollin ≡ true
      → 0 < size
      → (ps' : ℕ → PollFd) × (poll schedule
            (reports ready n)
            t
            (record { read_set = []; write_set = (fd, c) ∷ []; poll_set = ps; size = size }, w)
          ≡ some (
            none,
            (record { read_set = []; write_set = (fd, c) ∷ []; poll_set = ps'; size = size }, w),
          ))
        × ((ps' 0).events.pollin ≡ true)
  poll_stale ready t n fd c size ps w stale is_ready room =
      let p : PollPoller = record {
        read_set = [];
        write_set = (fd, c) ∷ [];
        poll_set = ps;
        size = size;
      } in
      let f = prepare schedule p (omega arith) in
      let slot = f.writers.0 in
      let asked : (f.slots 0).events.pollin ≡ true =
        ap (λ (x : PollFd). x.events.pollin) slot ∙ stale in
      let fd_eq : (f.slots 0).fd ≡ fd = ap (λ (x : PollFd). x.fd) slot in
      (
        f.slots,
        f.filled (reports ready n) t w
            ∙ ap (λ o. some o)
                (dispatch_one
                  (λ k. record {
                    pollin = (f.slots k).events.pollin && (ready (f.slots k).fd).pollin;
                    pollout = (f.slots k).events.pollout && (ready (f.slots k).fd).pollout;
                    others = (ready (f.slots k).fd).others;
                  })
                  n (record p { poll_set = f.slots }, w) refl
                  (ap (λ b. b && (ready (f.slots 0).fd).pollin) asked
                    ∙ ap (λ i. (ready i).pollin) fd_eq
                    ∙ is_ready)),
        asked,
      )
