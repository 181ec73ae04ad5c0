-- ===== src/Poller/Kqueue/Changes.antt =====
-- The change list between two calls of `kevent`.
use coroplusplus.Common.{
  ℕ, suc, ◌+◌, ◌≤◌, ◌<◌, ◌≡◌, refl, true, false, Option, none, some, List, [], ◌∷◌, ◌++◌, arith,
  ltb, leb, if◌then◌else◌, length, length-append, append_assoc, append-nil, ap, sym, ◌∙◌,
  Bool-cases, inl, inr,
}
use coroplusplus.Coro.Threads.{Direction, read, write}
use coroplusplus.Poller.Kqueue.{
  evfilt_read, evfilt_write, KEvent, KqueuePoller, add_change, set_wait_for, set_wait_for_read,
  set_wait_for_write,
}

-- A wait for a descriptor: the direction, the descriptor and the coroutine.
abbrev pub Wait : Type 0
Wait = Direction × ℕ × ℕ

abbrev pub set_wait : Wait → KqueuePoller → Option KqueuePoller
set_wait (read, fd, c) k = set_wait_for_read fd c k
set_wait (write, fd, c) k = set_wait_for_write fd c k

abbrev pub and_set :
    Option KqueuePoller → (KqueuePoller → Option KqueuePoller) → Option KqueuePoller
and_set none f = none
and_set (some k) f = f k

-- The waits that threads begin between two calls of `poll`, in order.
unfoldable pub set_waits : List Wait → KqueuePoller → Option KqueuePoller
set_waits [] k = some k
set_waits (w ∷ ws) k = and_set (set_wait w k) (set_waits ws)

-- The change of a wait.
abbrev pub change_of : Wait → KEvent
change_of (read, fd, c) = record {
  ident = fd;
  filter = evfilt_read;
  eof = false;
  fflags = 0;
  udata = c;
}
change_of (write, fd, c) = record {
  ident = fd;
  filter = evfilt_write;
  eof = false;
  fflags = 0;
  udata = c;
}

abbrev pub reads : List Wait → ℕ
reads [] = 0
reads ((read, fd, c) ∷ ws) = suc (reads ws)
reads ((write, fd, c) ∷ ws) = reads ws

abbrev pub writes : List Wait → ℕ
writes [] = 0
writes ((read, fd, c) ∷ ws) = writes ws
writes ((write, fd, c) ∷ ws) = suc (writes ws)

abbrev pub changes_of : List Wait → List KEvent
changes_of [] = []
changes_of (w ∷ ws) = change_of w ∷ changes_of ws

reads_cons : (w : Wait) (ws : List Wait) → reads (w ∷ ws) ≡ reads (w ∷ []) + reads ws
reads_cons (read, fd, c) ws = omega arith
reads_cons (write, fd, c) ws = omega arith

writes_cons : (w : Wait) (ws : List Wait) → writes (w ∷ ws) ≡ writes (w ∷ []) + writes ws
writes_cons (read, fd, c) ws = omega arith
writes_cons (write, fd, c) ws = omega arith

same_poller :
    (cs cs' : List KEvent) (n r r' b b' : ℕ)
    → cs ≡ cs'
    → r ≡ r'
    → b ≡ b'
    → ◌≡◌ {A = Option KqueuePoller}
        (some (record { changes = cs; output_max = n; rb = r; wb = b }))
        (some (record { changes = cs'; output_max = n; rb = r'; wb = b' }))
same_poller cs cs' n r r' b b' p q h = cc

set_wait_room :
    (w : Wait) (k : KqueuePoller)
    → length k.changes < k.output_max
    → set_wait w k
      ≡ some (record {
        changes = k.changes ++ change_of w ∷ [];
        output_max = k.output_max;
        rb = k.rb + reads (w ∷ []);
        wb = k.wb + writes (w ∷ []);
      })
unfolding set_wait_for_read set_wait_for_write set_wait_for add_change
set_wait_room (read, fd, c) k h =
    let room : ltb (length k.changes) k.output_max ≡ true = ground arith in rw room (ground arith)
set_wait_room (write, fd, c) k h =
    let room : ltb (length k.changes) k.output_max ≡ true = ground arith in rw room (ground arith)

set_wait_full :
    (w : Wait) (k : KqueuePoller) → k.output_max ≤ length k.changes → set_wait w k ≡ none
unfolding set_wait_for_read set_wait_for_write set_wait_for add_change
set_wait_full (read, fd, c) k h =
    let full : ltb (length k.changes) k.output_max ≡ false = ground arith in rw full refl
set_wait_full (write, fd, c) k h =
    let full : ltb (length k.changes) k.output_max ≡ false = ground arith in rw full refl

set_waits_cases :
    (ws : List Wait) (k : KqueuePoller)
    → length k.changes ≤ k.output_max
    → (length k.changes + length ws ≤ k.output_max
        → set_waits ws k
          ≡ some (record {
            changes = k.changes ++ changes_of ws;
            output_max = k.output_max;
            rb = k.rb + reads ws;
            wb = k.wb + writes ws;
          }))
      × (k.output_max < length k.changes + length ws → set_waits ws k ≡ none)
unfolding set_waits
set_waits_cases [] k h = (
  λ room.
      same_poller k.changes (k.changes ++ []) k.output_max k.rb (k.rb + 0) k.wb (k.wb + 0)
        (sym (append-nil k.changes)) (omega arith) (omega arith),
  λ over. absurd (omega arith),
)
set_waits_cases (w ∷ ws) k h = elim (Bool-cases (ltb (length k.changes) k.output_max)) [
  | inl more ↦
      let k' : KqueuePoller = record {
        changes = k.changes ++ change_of w ∷ [];
        output_max = k.output_max;
        rb = k.rb + reads (w ∷ []);
        wb = k.wb + writes (w ∷ []);
      } in
      let first = set_wait_room w k (ground arith) in
      let longer = length-append k.changes (change_of w ∷ []) in
      let ih = set_waits_cases ws k' (ground arith) in
      (
        λ room.
            ap (λ o. and_set o (set_waits ws)) first
            ∙ ih.0 (omega (arith, longer))
            ∙ same_poller ((k.changes ++ change_of w ∷ []) ++ changes_of ws)
                (k.changes ++ changes_of (w ∷ ws)) k.output_max (k.rb + reads (w ∷ []) + reads ws)
                (k.rb + reads (w ∷ ws)) (k.wb + writes (w ∷ []) + writes ws)
                (k.wb + writes (w ∷ ws)) (append_assoc k.changes (change_of w ∷ []) (changes_of ws))
                (omega (arith, reads_cons w ws)) (omega (arith, writes_cons w ws)),
        λ over. ap (λ o. and_set o (set_waits ws)) first ∙ ih.1 (omega (arith, longer)),
      )
  | inr full ↦ (
    λ room. absurd (ground arith),
    λ over. ap (λ o. and_set o (set_waits ws)) (set_wait_full w k (ground arith)),
  )
]

-- Threads that wait between two calls of `poll` stay within the change list exactly if there is room for
-- them all; then it has one change for each, in order, and the counters count them by direction.
pub set_waits_lem :
    (ws : List Wait) (k : KqueuePoller)
    → length k.changes ≤ k.output_max
    → set_waits ws k ≡ (
        if leb (length k.changes + length ws) k.output_max
        then some (record {
          changes = k.changes ++ changes_of ws;
          output_max = k.output_max;
          rb = k.rb + reads ws;
          wb = k.wb + writes ws;
        })
        else none)
set_waits_lem ws k h =
    let cases = set_waits_cases ws k h in
    elim (Bool-cases (leb (length k.changes + length ws) k.output_max)) [
      | inl room ↦ rw room (cases.0 (ground arith))
      | inr over ↦ rw over (cases.1 (ground arith))
    ]
