-- ===== src/Poller/Poll/Moves.antt =====
-- The loop over the answers moves coroutines from the sets to `_pending`, and loses none.
use coroplusplus.Common.{
  ℕ, zero, suc, ◌+◌, ◌≡◌, refl, ap, sym, ◌∙◌, false, Option, none, some, List, [], ◌∷◌, ◌++◌, arith,
  ◌==◌, if◌then◌else◌, All, Bool-cases, Option-cases, inl, inr, subst,
}
use coroplusplus.Coro.State.{PendingEntry, World, Outcome, ◌>>=◌, schedule}
use coroplusplus.Poller.{FdMap, find, erase}
use coroplusplus.Poller.Poll.{
  Bits, PollPoller, erase_after, wake_found, wake_reader, wake_writer, visit, dispatch,
}

-- How often a coroutine waits in a map, and how often it is to be resumed.
abbrev pub waits : ℕ → FdMap → ℕ
waits x [] = 0
waits x ((fd, c) ∷ m) = (if c == x then 1 else 0) + waits x m

abbrev pub turns : ℕ → List PendingEntry → ℕ
turns x [] = 0
turns x ((c, arg) ∷ es) = (if c == x then 1 else 0) + turns x es

module _ {Heap Wait Stack : Type 0} where
  abbrev pub Alive : World Heap Wait Stack → FdMap → Type 0
  Alive w m = All (λ e. (w.coros (e.1)).dead ≡ false) m

  abbrev pub total : ℕ → PollPoller × World Heap Wait Stack → ℕ
  total x s = turns x s.1.pending + waits x s.0.read_set + waits x s.0.write_set

  -- No exception, nobody lost or doubled, and the coroutines as they were.
  pub record Moves (s : PollPoller × World Heap Wait Stack)
      (o : Outcome (PollPoller × World Heap Wait Stack)) : Type 0 where
    pub returned : o.0 ≡ none
    pub kept : (x : ℕ) → total x o.1 ≡ total x s
    pub readers : Alive o.1.1 o.1.0.read_set
    pub writers : Alive o.1.1 o.1.0.write_set
    pub slots : o.1.0.poll_set ≡ s.0.poll_set
    pub world : o.1.1 ≡ record s.1 { pending = o.1.1.pending }

pub turns-append :
    (x c arg : ℕ) (es : List PendingEntry)
    → turns x (es ++ (c, arg) ∷ []) ≡ turns x es + (if c == x then 1 else 0)
turns-append x c arg [] = omega arith
turns-append x c arg ((d, a) ∷ es) = omega (arith, turns-append x c arg es)

waits-erase :
    (x fd c : ℕ) (m : FdMap)
    → find fd m ≡ some c
    → waits x m ≡ (if c == x then 1 else 0) + waits x (erase fd m)
unfolding find erase
waits-erase x fd c [] h = cc
waits-erase x fd c ((k, d) ∷ m) h = ground (arith, waits-erase x fd c m)

All-erase {ℓ} : (P : ℕ × ℕ → Type ℓ) (fd : ℕ) (m : FdMap) → All P m → All P (erase fd m)
unfolding erase
All-erase P fd [] h = h
All-erase P fd ((k, d) ∷ m) h = elim (Bool-cases (fd == k)) [
  | inl e ↦ rw e (h.1)
  | inr e ↦ rw e (h.0, All-erase P fd m h.1)
]

pub find-All {ℓ} :
    (P : ℕ → Type ℓ) (fd c : ℕ) (m : FdMap) → All (λ e. P e.1) m → find fd m ≡ some c → P c
unfolding find
find-All P fd c [] h e = absurd (cc e)
find-All P fd c ((k, d) ∷ m) h e = elim (Bool-cases (fd == k)) [
  | inl q ↦ let e' : some d ≡ some c = rw q at e in subst P (cc) h.0
  | inr q ↦ let e' : find fd m ≡ some c = rw q at e in find-All P fd c m h.1 e'
]

module _ {Heap Wait Stack : Type 0} where
  schedule_alive :
      (c : ℕ) (w : World Heap Wait Stack)
      → (w.coros c).dead ≡ false
      → schedule c 0 w ≡ (none, record w { pending = w.pending ++ (c, 0) ∷ [] })
  unfolding schedule
  schedule_alive c w alive = rw alive refl

  abbrev pub scheduled : ℕ → World Heap Wait Stack → World Heap Wait Stack
  scheduled c w = record w { pending = w.pending ++ (c, 0) ∷ [] }

  -- What a found waiter changes in the world.
  pub found_waiting :
      (erased p : PollPoller) (w : World Heap Wait Stack) (o : Option ℕ) (c : ℕ)
      → o ≡ some c
      → (w.coros c).dead ≡ false
      → wake_found schedule erased (p, w) o ≡ (none, (erased, scheduled c w))
  found_waiting erased p w o c h alive =
      ap (wake_found schedule erased (p, w)) h
      ∙ ap (erase_after p erased) (schedule_alive c w alive)

  stays-Moves :
      (p : PollPoller) (w : World Heap Wait Stack)
      → Alive w p.read_set
      → Alive w p.write_set
      → Moves (p, w) (none, (p, w))
  stays-Moves p w r v = record {
    returned = refl;
    kept = λ x. refl;
    readers = r;
    writers = v;
    slots = refl;
    world = refl;
  }

  wake_reader-Moves :
      (fd : ℕ) (p : PollPoller) (w : World Heap Wait Stack)
      → Alive w p.read_set
      → Alive w p.write_set
      → Moves (p, w) (wake_reader schedule fd (p, w))
  unfolding wake_reader
  wake_reader-Moves fd p w r v = elim (Option-cases (find fd p.read_set)) [
    | inl h ↦
        subst
          (λ o.
            Moves (p, w)
              (wake_found schedule (record p { read_set = erase fd p.read_set }) (p, w) o))
          (sym h) (stays-Moves p w r v)
    | inr (c, h) ↦
        subst (Moves (p, w))
          (sym (
            found_waiting (record p { read_set = erase fd p.read_set }) p w (find fd p.read_set) c h
              (find-All (λ d. (w.coros d).dead ≡ false) fd c p.read_set r h)))
          (record {
            returned = refl;
            kept =
                λ x. omega (arith, waits-erase x fd c p.read_set h, turns-append x c 0 w.pending);
            readers = All-erase (λ e. (w.coros e.1).dead ≡ false) fd p.read_set r;
            writers = v;
            slots = refl;
            world = refl;
          })
  ]

  wake_writer-Moves :
      (fd : ℕ) (p : PollPoller) (w : World Heap Wait Stack)
      → Alive w p.read_set
      → Alive w p.write_set
      → Moves (p, w) (wake_writer schedule fd (p, w))
  unfolding wake_writer
  wake_writer-Moves fd p w r v = elim (Option-cases (find fd p.write_set)) [
    | inl h ↦
        subst
          (λ o.
            Moves (p, w)
              (wake_found schedule (record p { write_set = erase fd p.write_set }) (p, w) o))
          (sym h) (stays-Moves p w r v)
    | inr (c, h) ↦
        subst (Moves (p, w))
          (sym (
            found_waiting (record p { write_set = erase fd p.write_set }) p w (find fd p.write_set)
              c h (find-All (λ d. (w.coros d).dead ≡ false) fd c p.write_set v h)))
          (record {
            returned = refl;
            kept =
                λ x. omega (arith, waits-erase x fd c p.write_set h, turns-append x c 0 w.pending);
            readers = r;
            writers = All-erase (λ e. (w.coros e.1).dead ≡ false) fd p.write_set v;
            slots = refl;
            world = refl;
          })
  ]

  pub visit-Moves :
      (fd : ℕ) (b : Bits) (p : PollPoller) (w : World Heap Wait Stack)
      → Alive w p.read_set
      → Alive w p.write_set
      → Moves (p, w) (visit schedule fd b (p, w))
  unfolding visit
  visit-Moves fd b p w r v = elim (Bool-cases b.pollin) [
    | inl e ↦ rw e (wake_reader-Moves fd p w r v)
    | inr e ↦ elim (Bool-cases b.pollout) [
      | inl e' ↦ rw (e, e') (wake_writer-Moves fd p w r v)
      | inr e' ↦ rw (e, e') (stays-Moves p w r v)
    ]
  ]

  Moves-trans :
      (s t : PollPoller × World Heap Wait Stack) (o : Outcome (PollPoller × World Heap Wait Stack))
      → Moves s (none, t)
      → Moves t o
      → Moves s o
  Moves-trans s t o f g = record {
    returned = g.returned;
    kept = λ x. g.kept x ∙ f.kept x;
    readers = g.readers;
    writers = g.writers;
    slots = g.slots ∙ f.slots;
    world =
        g.world ∙ ap (λ (w : World Heap Wait Stack). record w { pending = o.1.1.pending }) f.world;
  }

  -- The loop over the answers, whatever they are.
  pub dispatch-Moves :
      (revents : ℕ → Bits) (left j n : ℕ) (p : PollPoller) (w : World Heap Wait Stack)
      → Alive w p.read_set
      → Alive w p.write_set
      → Moves (p, w) (dispatch schedule revents left j n (p, w))
  unfolding dispatch
  dispatch-Moves revents zero j n p w r v = stays-Moves p w r v
  dispatch-Moves revents (suc left) j zero p w r v = stays-Moves p w r v
  dispatch-Moves revents (suc left) j (suc n) p w r v =
      let fd = (p.poll_set j).fd in
      let m = visit-Moves fd (revents j) p w r v in
      let o = visit schedule fd (revents j) (p, w) in
      let shape : o ≡ (none, (o.1.0, o.1.1)) = ap (λ x. (x, o.1)) m.returned in
      subst (λ q. Moves (p, w) (q >>= dispatch schedule revents left (suc j) n)) (sym shape)
        (Moves-trans (p, w) o.1 (dispatch schedule revents left (suc j) n o.1)
          (subst (Moves (p, w)) shape m)
          (dispatch-Moves revents left (suc j) n o.1.0 o.1.1 m.readers m.writers))
