-- ===== src/Demo/Main/Makes.antt =====
-- What a `main` function has made when it calls `event_loop`.
use coroplusplus.Common.{
  ℕ, zero, suc, ◌+◌, ◌<◌, ◌≡◌, refl, ap, sym, ◌∙◌, Bool, false, none, some, List, [], ◌∷◌, ◌++◌,
  append-nil, append_assoc, arith, length, get_or, if◌then◌else◌, update_self, update_ne,
}
use coroplusplus.Coro.State.{
  dead_coro, ◌>>=◌, Coro, World, coro_of_fun, coro_of_method, new_coro, schedule,
}
use coroplusplus.Demo.Server.Spawns.{entries}
use coroplusplus.Demo.Main.{Start, of_fun, of_method, client_starts, new_of, start, start_all}

pub new_of-fresh :
    {A : Type 0} (a : A) (x : Start) (id : ℕ)
    → ((new_of a x id).started ≡ false) × ((new_of a x id).dead ≡ false)
unfolding coro_of_fun coro_of_method
new_of-fresh a (of_fun fun arg) id = (refl, refl)
new_of-fresh a (of_method meth arg) id = (refl, refl)

module _ {Heap Wait Stack : Type 0} (b : Stack) where
  -- The coroutines of `xs`, made from the next free pointer and the next id on and scheduled in order, and
  -- nothing else.
  pub record Makes (xs : List Start) (w w' : World Heap Wait Stack) : Type 0 where
    pub pends : w'.pending ≡ w.pending ++ entries w.next (length xs)
    pub counts : (w'.next ≡ w.next + length xs) × (w'.id_counter ≡ w.id_counter + length xs)
    pub coroutines :
        (i : ℕ)
        → i < length xs
        → w'.coros (w.next + i) ≡ new_of b (get_or xs i (of_fun 0 0)) (w.id_counter + i)
    pub others : (p : ℕ) → p < w.next → w'.coros p ≡ w.coros p
    pub stays :
        (w'.exit ≡ w.exit)
        × (w'.events ≡ w.events)
        × (w'.current ≡ w.current)
        × (w'.heap ≡ w.heap)
        × (w'.wait ≡ w.wait)

  abbrev started : Start → World Heap Wait Stack → World Heap Wait Stack
  started x w = record (new_coro (new_of b x) w) { pending = w.pending ++ (w.next, 0) ∷ [] }

  start_lem : (x : Start) (w : World Heap Wait Stack) → start b x w ≡ (none, started x w)
  unfolding start schedule new_coro
  start_lem x w =
      let w' = new_coro (new_of b x) w in
      ap
        (λ (d : Bool).
          if d
          then (some (dead_coro w.next), w')
          else (none, record w' { pending = w.pending ++ (w.next, 0) ∷ [] }))
        (ap (λ (c : Coro Stack). c.dead) (update_self w.coros w.next (new_of b x w.id_counter))
          ∙ (new_of-fresh b x w.id_counter).1)

  Makes-nil : (w : World Heap Wait Stack) → Makes [] w w
  Makes-nil w = record {
    pends = sym (append-nil w.pending);
    counts = (omega arith, omega arith);
    coroutines = λ i h. absurd (omega arith);
    others = λ p h. refl;
    stays = (refl, refl, refl, refl, refl);
  }

  coroutine_at :
      (x : Start) (xs : List Start) (w w' : World Heap Wait Stack)
      → Makes xs (started x w) w'
      → (i : ℕ) → i < length (x ∷ xs)
      → w'.coros (w.next + i) ≡ new_of b (get_or (x ∷ xs) i (of_fun 0 0)) (w.id_counter + i)
  unfolding new_coro
  coroutine_at x xs w w' r zero h =
      let here : w.next + 0 ≡ w.next = omega arith in
      let id : w.id_counter ≡ w.id_counter + 0 = omega arith in
      ap w'.coros here
      ∙ r.others w.next (omega arith)
      ∙ update_self w.coros w.next (new_of b x w.id_counter)
      ∙ ap (new_of b x) id
  coroutine_at x xs w w' r (suc i) h =
      let there : w.next + suc i ≡ w.next + 1 + i = omega arith in
      let id : w.id_counter + 1 + i ≡ w.id_counter + suc i = omega arith in
      ap w'.coros there ∙ r.coroutines i (omega arith) ∙ ap (new_of b (get_or xs i (of_fun 0 0))) id

  Makes-cons :
      (x : Start) (xs : List Start) (w w' : World Heap Wait Stack)
      → Makes xs (started x w) w'
      → Makes (x ∷ xs) w w'
  unfolding new_coro
  Makes-cons x xs w w' r =
      let next : w.next + 1 ≡ suc w.next = omega arith in
      record {
        pends =
            r.pends
            ∙ append_assoc w.pending ((w.next, 0) ∷ []) (entries (w.next + 1) (length xs))
            ∙ ap (λ p. w.pending ++ (w.next, 0) ∷ entries p (length xs)) next;
        counts = (omega (arith, r.counts.0), omega (arith, r.counts.1));
        coroutines = coroutine_at x xs w w' r;
        others = λ p h.
            r.others p (omega arith)
            ∙ update_ne w.coros w.next p (new_of b x w.id_counter) (λ e. absurd (omega (arith, e)));
        stays = r.stays;
      }

  pub start_all-Makes :
      (xs : List Start) (w : World Heap Wait Stack)
      → (w' : World Heap Wait Stack) × (start_all b xs w ≡ (none, w')) × Makes xs w w'
  unfolding start_all
  start_all-Makes [] w = (w, refl, Makes-nil w)
  start_all-Makes (x ∷ xs) w =
      let (w', e, r) = start_all-Makes xs (started x w) in
      (w', ap (λ o. o >>= start_all b xs) (start_lem x w) ∙ e, Makes-cons x xs w w' r)

-- The client's `main` function counts the clients that it makes.
pub client_starts-counts :
    (client addr nc counter : ℕ)
    → (client_starts client addr nc counter).1
      ≡ counter + length (client_starts client addr nc counter).0
unfolding client_starts
client_starts-counts client addr zero counter = omega arith
client_starts-counts client addr (suc nc) counter =
    omega (arith, client_starts-counts client addr nc (counter + 1))
