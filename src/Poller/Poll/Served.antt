-- ===== src/Poller/Poll/Served.antt =====
-- A reader whose slot is answered is scheduled and no longer waits.
use coroplusplus.Common.{
  ℕ, zero, suc, ◌+◌, ◌≤◌, ◌<◌, ◌≡◌, refl, ap, sym, ◌∙◌, true, false, none, some, arith, ◌==◌,
  ==_iff, ==_refl, ◌⊎◌, inl, inr, Bool-cases, Option-cases, subst,
}
use coroplusplus.Coro.State.{World, Outcome, ◌>>=◌, schedule}
use coroplusplus.Poller.{find, erase}
use coroplusplus.Poller.Maps.{IsOrdered, find-erase, erase-IsAbove}
use coroplusplus.Poller.Poll.{
  Bits, PollFd, PollPoller, wake_found, wake_reader, wake_writer, visit, dispatch,
}
use coroplusplus.Poller.Poll.Moves.{
  Alive, turns, turns-append, scheduled, found_waiting, find-All, visit-Moves,
}

module _ {Heap Wait Stack : Type 0} where
  -- What a visit of a slot does.
  data Visited (fd : ℕ) (b : Bits) (p : PollPoller) (w : World Heap Wait Stack)
      (o : Outcome (PollPoller × World Heap Wait Stack)) : Type 0 where
    stays :
        ((b.pollin ≡ true) → find fd p.read_set ≡ none) → o ≡ (none, (p, w)) → Visited fd b p w o
    wakes_reader :
        (c : ℕ)
        → b.pollin ≡ true
        → find fd p.read_set ≡ some c
        → o ≡ (none, (record p { read_set = erase fd p.read_set }, scheduled c w))
        → Visited fd b p w o
    wakes_writer :
        (c : ℕ)
        → b.pollin ≡ false
        → o ≡ (none, (record p { write_set = erase fd p.write_set }, scheduled c w))
        → Visited fd b p w o

  visit-Visited :
      (fd : ℕ) (b : Bits) (p : PollPoller) (w : World Heap Wait Stack)
      → Alive w p.read_set
      → Alive w p.write_set
      → Visited fd b p w (visit schedule fd b (p, w))
  unfolding visit wake_reader wake_writer
  visit-Visited fd b p w r v = elim (Bool-cases b.pollin) [
    | inl e ↦ elim (Option-cases (find fd p.read_set)) [
      | inl h ↦
          stays (λ _. h)
            (rw e (ap (wake_found schedule (record p { read_set = erase fd p.read_set }) (p, w)) h))
      | inr (c, h) ↦ wakes_reader c e h (
          rw e (
            found_waiting (record p { read_set = erase fd p.read_set }) p w (find fd p.read_set) c h
              (find-All (λ d. (w.coros d).dead ≡ false) fd c p.read_set r h)))
    ]
    | inr e ↦ elim (Bool-cases b.pollout) [
      | inr e' ↦ stays (λ q. absurd (cc)) (rw (e, e') refl)
      | inl e' ↦ elim (Option-cases (find fd p.write_set)) [
        | inl h ↦
            stays (λ q. absurd (cc))
              (rw (e, e')
                (ap (wake_found schedule (record p { write_set = erase fd p.write_set }) (p, w)) h))
        | inr (c, h) ↦ wakes_writer c e (
            rw (e, e')
              (found_waiting (record p { write_set = erase fd p.write_set }) p w
                (find fd p.write_set) c h
                (find-All (λ d. (w.coros d).dead ≡ false) fd c p.write_set v h)))
      ]
    ]
  ]

  -- The reader of `fd` is scheduled and no longer waits.
  abbrev pub Served : ℕ → ℕ → PollPoller × World Heap Wait Stack → Type 0
  Served fd c s = (find fd s.0.read_set ≡ none) × (0 < turns c s.1.pending)

  abbrev Waits : ℕ → ℕ → PollPoller × World Heap Wait Stack → Type 0
  Waits fd c s = find fd s.0.read_set ≡ some c

  Served-Visited :
      (k fd c : ℕ) (b : Bits) (p : PollPoller) (w : World Heap Wait Stack)
      (o : Outcome (PollPoller × World Heap Wait Stack))
      → IsOrdered p.read_set
      → Visited k b p w o
      → Served fd c (p, w)
      → Served fd c o.1
  Served-Visited k fd c b p w o order (stays h e) s = subst (λ o. Served fd c o.1) (sym e) s
  Served-Visited k fd c b p w o order (wakes_reader d e h q) s =
      subst (λ o. Served fd c o.1) (sym q)
        (ground (arith, find-erase 0 fd k p.read_set), omega (arith, turns-append c d 0 w.pending))
  Served-Visited k fd c b p w o order (wakes_writer d e q) s =
      subst (λ o. Served fd c o.1) (sym q) (s.0, omega (arith, turns-append c d 0 w.pending))

  IsOrdered-Visited :
      (k : ℕ) (b : Bits) (p : PollPoller) (w : World Heap Wait Stack)
      (o : Outcome (PollPoller × World Heap Wait Stack))
      → IsOrdered p.read_set
      → Visited k b p w o
      → IsOrdered o.1.0.read_set
  IsOrdered-Visited k b p w o order (stays h e) =
      subst (λ o. IsOrdered o.1.0.read_set) (sym e) order
  IsOrdered-Visited k b p w o order (wakes_reader d e h q) =
      subst (λ o. IsOrdered o.1.0.read_set) (sym q) (erase-IsAbove 0 k p.read_set order)
  IsOrdered-Visited k b p w o order (wakes_writer d e q) =
      subst (λ o. IsOrdered o.1.0.read_set) (sym q) order

  Served-erase :
      (fd c : ℕ) (p : PollPoller) (w : World Heap Wait Stack)
      → IsOrdered p.read_set
      → Served fd c (record p { read_set = erase fd p.read_set }, scheduled c w)
  Served-erase fd c p w order = (
    find-erase 0 fd fd p.read_set order ∙ rw (==_refl fd) refl,
    ground (arith, turns-append c c 0 w.pending),
  )

  Served-here :
      (k fd d c : ℕ) (p : PollPoller) (w : World Heap Wait Stack)
      (o : Outcome (PollPoller × World Heap Wait Stack))
      → IsOrdered p.read_set
      → fd ≡ k
      → find k p.read_set ≡ some d
      → find fd p.read_set ≡ some c
      → o ≡ (none, (record p { read_set = erase k p.read_set }, scheduled d w))
      → Served fd c o.1
  Served-here k fd d c p w o order same h s q =
      let one : some d ≡ some c = sym h ∙ ap (λ i. find i p.read_set) (sym same) ∙ s in
      let eq : d ≡ c = cc in
      subst (λ o. Served fd c o.1)
        (sym (
          q
          ∙ ap (λ i. (none, (record p { read_set = erase i p.read_set }, scheduled d w))) (sym same)
          ∙ ap (λ i. (none, (record p { read_set = erase fd p.read_set }, scheduled i w))) eq))
        (Served-erase fd c p w order)

  -- The slot of another descriptor leaves the reader, unless the coroutine is its reader too.
  Waits-Visited :
      (k fd c : ℕ) (b : Bits) (p : PollPoller) (w : World Heap Wait Stack)
      (o : Outcome (PollPoller × World Heap Wait Stack))
      → IsOrdered p.read_set
      → Visited k b p w o
      → Waits fd c (p, w)
      → (Waits fd c o.1) ⊎ (Served fd c o.1)
  Waits-Visited k fd c b p w o order (stays h e) s = inl (subst (λ o. Waits fd c o.1) (sym e) s)
  Waits-Visited k fd c b p w o order (wakes_writer d e q) s =
      inl (subst (λ o. Waits fd c o.1) (sym q) s)
  Waits-Visited k fd c b p w o order (wakes_reader d e h q) s = elim (Bool-cases (fd == k)) [
    | inl same ↦ inr (Served-here k fd d c p w o order ((==_iff fd k).0 same) h s q)
    | inr other ↦
        inl (subst (λ o. Waits fd c o.1) (sym q) (find-erase 0 fd k p.read_set order ∙ rw other s))
  ]

  -- Its own slot, answered with POLLIN.
  Served-hit :
      (fd c : ℕ) (b : Bits) (p : PollPoller) (w : World Heap Wait Stack)
      (o : Outcome (PollPoller × World Heap Wait Stack))
      → IsOrdered p.read_set
      → b.pollin ≡ true
      → Visited fd b p w o
      → Waits fd c (p, w)
      → Served fd c o.1
  Served-hit fd c b p w o order yes_in (stays h e) s =
      let h' : some c ≡ none = sym s ∙ h yes_in in absurd (cc)
  Served-hit fd c b p w o order yes_in (wakes_writer d e q) s = absurd (cc)
  Served-hit fd c b p w o order yes_in (wakes_reader d e h q) s =
      Served-here fd fd d c p w o order refl h s q

  -- How the rest of the loop is proved from a visit.
  module _ (revents : ℕ → Bits) (fd c : ℕ) where
    after_visit :
        (P : PollPoller × World Heap Wait Stack → Type 0) (left j n : ℕ) (p : PollPoller)
        (w : World Heap Wait Stack)
        → Alive w p.read_set
        → Alive w p.write_set
        → IsOrdered p.read_set
        → (let o = visit schedule (p.poll_set j).fd (revents j) (p, w) in
            Alive o.1.1 o.1.0.read_set
            → Alive o.1.1 o.1.0.write_set
            → IsOrdered o.1.0.read_set
            → o.1.0.poll_set ≡ p.poll_set
            → P (dispatch schedule revents left (suc j) n o.1).1)
        → P (dispatch schedule revents (suc left) j (suc n) (p, w)).1
    unfolding dispatch
    after_visit P left j n p w r v order k =
        let i = (p.poll_set j).fd in
        let m = visit-Moves i (revents j) p w r v in
        let o = visit schedule i (revents j) (p, w) in
        let shape : o ≡ (none, o.1) = ap (λ x. (x, o.1)) m.returned in
        subst (λ q. P (q >>= dispatch schedule revents left (suc j) n).1) (sym shape)
          (k m.readers m.writers
            (IsOrdered-Visited i (revents j) p w o order (visit-Visited i (revents j) p w r v))
            m.slots)

    dispatch-keeps_Served :
        (left j n : ℕ) (p : PollPoller) (w : World Heap Wait Stack)
        → Alive w p.read_set
        → Alive w p.write_set
        → IsOrdered p.read_set
        → Served fd c (p, w)
        → Served fd c (dispatch schedule revents left j n (p, w)).1
    unfolding dispatch
    dispatch-keeps_Served zero j n p w r v order s = s
    dispatch-keeps_Served (suc left) j zero p w r v order s = s
    dispatch-keeps_Served (suc left) j (suc n) p w r v order s =
        let i = (p.poll_set j).fd in
        let o = visit schedule i (revents j) (p, w) in
        after_visit (Served fd c) left j n p w r v order λ r' v' order' same.
          dispatch-keeps_Served left (suc j) n o.1.0 o.1.1 r' v' order'
            (Served-Visited i fd c (revents j) p w o order (visit-Visited i (revents j) p w r v) s)

    pub dispatch-Served :
        (left j n k : ℕ) (p : PollPoller) (w : World Heap Wait Stack)
        → Alive w p.read_set
        → Alive w p.write_set
        → IsOrdered p.read_set
        → j ≤ k
        → k < j + left
        → k < j + n
        → (p.poll_set k).fd ≡ fd
        → (revents k).pollin ≡ true
        → find fd p.read_set ≡ some c
        → Served fd c (dispatch schedule revents left j n (p, w)).1
    dispatch-Served zero j n k p w r v order a b d slot yes_in s = absurd (omega arith)
    dispatch-Served (suc left) j zero k p w r v order a b d slot yes_in s = absurd (omega arith)
    dispatch-Served (suc left) j (suc n) k p w r v order a b d slot yes_in s =
        let i = (p.poll_set j).fd in
        let o = visit schedule i (revents j) (p, w) in
        let visited = visit-Visited i (revents j) p w r v in
        after_visit (Served fd c) left j n p w r v order λ r' v' order' same.
          elim (Bool-cases (j == k)) [
            | inl here ↦
                let at_k = (==_iff j k).0 here in
                let own : i ≡ fd = ap (λ x. (p.poll_set x).fd) at_k ∙ slot in
                let hit = ap (λ x. (revents x).pollin) at_k ∙ yes_in in
                dispatch-keeps_Served left (suc j) n o.1.0 o.1.1 r' v' order' (
                  Served-hit fd c (revents j) p w o order hit
                    (subst (λ x. Visited x (revents j) p w o) own visited) s)
            | inr later ↦ elim (Waits-Visited i fd c (revents j) p w o order visited s) [
              | inl waits ↦
                  dispatch-Served left (suc j) n k o.1.0 o.1.1 r' v' order' (ground arith)
                    (omega arith) (omega arith) (ap (λ (f : ℕ → PollFd). (f k).fd) same ∙ slot)
                    yes_in waits
              | inr served ↦ dispatch-keeps_Served left (suc j) n o.1.0 o.1.1 r' v' order' served
            ]
          ]
