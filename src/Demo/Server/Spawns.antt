-- ===== src/Demo/Server/Spawns.antt =====
-- What the loop of a server does between two waits.
use coroplusplus.Common.{
  ℕ, zero, suc, ◌+◌, ◌<◌, ◌≡◌, refl, ap, sym, ◌∙◌, Bool, true, false, Option, none, Bool-cases, inl,
  inr, some, List, [], ◌∷◌, ◌++◌, append-nil, append_assoc, arith, length, take, get_or, ◌==◌,
  if◌then◌else◌, update_self, update_ne,
}
use coroplusplus.File.{ewouldblock}
use coroplusplus.Socket.{AcceptAnswer, gives, fails}
use coroplusplus.Coro.State.{
  World, dead_coro, PendingEntry, Coro, coro_of_fun, new_coro, schedule, set_coro,
}
use coroplusplus.Coro.Threads.{
  Frame, Code, Program, is_thrown, read, exec, finish, returns, throws, wait_for,
}
use coroplusplus.Demo.Server.{Server, server_ends, wait_for_client, no_client, spawn_session, serve}

-- Answers of ::accept with these descriptors, each one more than the number.
abbrev pub clients : List ℕ → List AcceptAnswer → List AcceptAnswer
clients [] ans = ans
clients (n ∷ ns) ans = gives (suc n) 0 none ∷ clients ns ans

-- The entries of `count` coroutines from `p` on, which are resumed with the argument 0.
abbrev pub entries : ℕ → ℕ → List PendingEntry
entries p zero = []
entries p (suc count) = (p, 0) ∷ entries (suc p) count

-- The errno of an answer without a descriptor that counts.
abbrev pub errno_of : AcceptAnswer → Option ℕ
errno_of (gives zero errno w) = some errno
errno_of (gives (suc n) errno w) = none
errno_of (fails errno w) = some errno

abbrev from_some : Option ℕ → ℕ
from_some none = 0
from_some (some n) = n

module _ {Heap Wait Stack : Type 0} (pr : Program Heap Wait) (b : Stack) (s : Server Heap) where
  abbrev pub made : List ℕ → Heap → Heap
  made [] h = h
  made (n ∷ ns) h = made ns (s.make (suc n) h)

  -- A coroutine of its own for each connection, with the function of a session and the connection as its
  -- argument; they are scheduled in the order in which the connections came, and the rest of the world
  -- is as it was.
  pub record Spawns (ns : List ℕ) (w w' : World Heap Wait Stack) : Type 0 where
    pub pends : w'.pending ≡ w.pending ++ entries w.next (length ns)
    pub counts : w'.next ≡ w.next + length ns
    pub sessions :
        (i : ℕ)
        → i < length ns
        → (id : ℕ) × (w'.coros (w.next + i)
            ≡ coro_of_fun b s.fun (s.conn (suc (get_or ns i 0)) (made (take i ns) w.heap)) id)
    pub others : (p : ℕ) → p < w.next → w'.coros p ≡ w.coros p
    pub makes : w'.heap ≡ made ns w.heap
    pub stays :
        (w'.current ≡ w.current) × (w'.wait ≡ w.wait) × (w'.events ≡ w.events) × (w'.exit ≡ w.exit)

  abbrev spawned : ℕ → World Heap Wait Stack → World Heap Wait Stack
  spawned n w =
      let w' =
        new_coro (coro_of_fun b s.fun (s.conn (suc n) w.heap))
          (record w { heap = s.make (suc n) w.heap }) in
      record w' { pending = w.pending ++ (w.next, 0) ∷ [] }

  schedule-new_coro :
      (fun arg : ℕ) (w : World Heap Wait Stack)
      → schedule w.next 0 (new_coro (coro_of_fun b fun arg) w) ≡ (
        none,
        record (new_coro (coro_of_fun b fun arg) w) { pending = w.pending ++ (w.next, 0) ∷ [] },
      )
  unfolding schedule new_coro coro_of_fun
  schedule-new_coro fun arg w =
      let c = coro_of_fun b fun arg w.id_counter in
      let w' = new_coro (coro_of_fun b fun arg) w in
      ap
        (λ (d : Coro Stack).
          if d.dead
          then (some (dead_coro w.next), w')
          else (none, record w' { pending = w.pending ++ (w.next, 0) ∷ [] }))
        (update_self w.coros w.next c)

  exec-spawn_session :
      (co n : ℕ) (f : Frame) (rest : Code Heap) (w : World Heap Wait Stack)
      → exec pr b co (spawn_session s f (suc n) rest) w ≡ exec pr b co rest (spawned n w)
  unfolding exec spawn_session
  exec-spawn_session co n f rest w =
      ap (λ r. exec pr b co (elim (is_thrown r.0) [ true ↦ server_ends s f | false ↦ rest ]) r.1)
        (schedule-new_coro s.fun (s.conn (suc n) w.heap)
          (record w { heap = s.make (suc n) w.heap }))

  Spawns-nil : (w : World Heap Wait Stack) → Spawns [] w w
  Spawns-nil w = record {
    pends = sym (append-nil w.pending);
    counts = omega arith;
    sessions = λ i h. absurd (omega arith);
    others = λ p h. refl;
    makes = refl;
    stays = (refl, refl, refl, refl);
  }

  session_at :
      (n : ℕ) (ns : List ℕ) (w w' : World Heap Wait Stack)
      → Spawns ns (spawned n w) w'
      → (i : ℕ) → i < length (n ∷ ns)
      → (id : ℕ) × (w'.coros (w.next + i)
          ≡ coro_of_fun b s.fun
              (s.conn (suc (get_or (n ∷ ns) i 0)) (made (take i (n ∷ ns)) w.heap))
              id)
  unfolding new_coro
  session_at n ns w w' r zero h =
      let here : w.next + 0 ≡ w.next = omega arith in
      (
        w.id_counter,
        ap w'.coros here
            ∙ r.others w.next (omega arith)
            ∙ update_self w.coros w.next (coro_of_fun b s.fun (s.conn (suc n) w.heap) w.id_counter),
      )
  session_at n ns w w' r (suc i) h =
      let (id, e) = r.sessions i (omega arith) in
      let there : w.next + suc i ≡ w.next + 1 + i = omega arith in (id, ap w'.coros there ∙ e)

  Spawns-cons :
      (n : ℕ) (ns : List ℕ) (w w' : World Heap Wait Stack)
      → Spawns ns (spawned n w) w'
      → Spawns (n ∷ ns) w w'
  unfolding new_coro
  Spawns-cons n ns w w' r =
      let c = coro_of_fun b s.fun (s.conn (suc n) w.heap) w.id_counter in
      let next : w.next + 1 ≡ suc w.next = omega arith in
      record {
        pends =
            r.pends
            ∙ append_assoc w.pending ((w.next, 0) ∷ []) (entries (w.next + 1) (length ns))
            ∙ ap (λ p. w.pending ++ (w.next, 0) ∷ entries p (length ns)) next;
        counts = omega (arith, r.counts);
        sessions = session_at n ns w w' r;
        others = λ p h.
            r.others p (omega arith)
            ∙ update_ne w.coros w.next p c (λ e. absurd (omega (arith, e)));
        makes = r.makes;
        stays = r.stays;
      }

  -- The loop up to the first answer that is no connection.
  pub exec-serve :
      (co : ℕ) (f : Frame) (ns : List ℕ) (ans : List AcceptAnswer) (w : World Heap Wait Stack)
      → (w' : World Heap Wait Stack) × Spawns ns w w'
        × (exec pr b co (serve s f (clients ns ans)) w ≡ exec pr b co (serve s f ans) w')
  unfolding serve
  exec-serve co f [] ans w = (w, Spawns-nil w, refl)
  exec-serve co f (n ∷ ns) ans w =
      let (w', r, e) = exec-serve co f ns ans (spawned n w) in
      (w', Spawns-cons n ns w w' r, exec-spawn_session co n f (serve s f (clients ns ans)) w ∙ e)

  -- The thread `me` waits for the descriptor of the server.
  abbrev pub waiting : ℕ → World Heap Wait Stack → World Heap Wait Stack
  waiting me w =
      set_coro me (record (w.coros me) { value = 0 })
        (record w { wait = pr.set_wait read s.fd me w.wait })

  exec-wait_for_client :
      (co me : ℕ) (f : Frame) (w : World Heap Wait Stack)
      → w.current ≡ some me
      → exec pr b co (wait_for_client s f) w ≡ (f, waiting me w)
  unfolding exec wait_for_client
  exec-wait_for_client co me f w c =
      ap (λ m. exec pr b co (elim m [ none ↦ server_ends s f | some c ↦ wait_for read s.fd c f ]) w)
        c

  exec-server_ends :
      (co : ℕ) (f : Frame) (w : World Heap Wait Stack) (catches : Bool)
      → exec pr b co (if catches then returns f else throws f) w ≡ (f, finish co w)
  unfolding exec
  exec-server_ends co f w true = refl
  exec-server_ends co f w false = refl

  -- The thread `me`, whose coroutine is `co`, waits if nobody is there, and ends if not.
  abbrev pub stopped : ℕ → ℕ → ℕ → World Heap Wait Stack → World Heap Wait Stack
  stopped co me errno w = if errno == ewouldblock then waiting me w else finish co w

  exec-no_client :
      (co me errno : ℕ) (f : Frame) (w : World Heap Wait Stack)
      → w.current ≡ some me
      → exec pr b co (no_client s f errno) w ≡ (f, stopped co me errno w)
  unfolding no_client
  exec-no_client co me errno f w c = elim (Bool-cases (errno == ewouldblock)) [
    | inl test ↦ rw test (exec-wait_for_client co me f w c)
    | inr test ↦ rw test (exec-server_ends co f w s.catches)
  ]

  exec-serve_last :
      (co me errno : ℕ) (f : Frame) (a : AcceptAnswer) (rest : List AcceptAnswer)
      (w : World Heap Wait Stack)
      → w.current ≡ some me
      → errno_of a ≡ some errno
      → exec pr b co (serve s f (a ∷ rest)) w ≡ (f, stopped co me errno w)
  unfolding serve
  exec-serve_last co me errno f (gives zero e u) rest w c q =
      exec-no_client co me e f w c ∙ ap (λ n. (f, stopped co me (from_some n) w)) q
  exec-serve_last co me errno f (gives (suc n) e u) rest w c q = absurd (cc)
  exec-serve_last co me errno f (fails e u) rest w c q =
      exec-no_client co me e f w c ∙ ap (λ n. (f, stopped co me (from_some n) w)) q

  -- From one wait to the next, the thread of a server starts one thread for each connection that it
  -- accepts, with the function of a session and the connection as its argument, in the order in which
  -- they came, and changes no thread that was there before. At the next answer, if it is no connection,
  -- the thread waits for its own descriptor if nobody is there, and ends if not.
  pub serve-Spawns :
      (co me errno : ℕ) (f : Frame) (ns : List ℕ) (a : AcceptAnswer) (rest : List AcceptAnswer)
      (w : World Heap Wait Stack)
      → w.current ≡ some me
      → errno_of a ≡ some errno
      → (w' : World Heap Wait Stack) × Spawns ns w w'
        × (exec pr b co (serve s f (clients ns (a ∷ rest))) w ≡ (f, stopped co me errno w'))
  serve-Spawns co me errno f ns a rest w c q =
      let (w', r, e) = exec-serve co f ns (a ∷ rest) w in
      (w', r, e ∙ exec-serve_last co me errno f a rest w' (r.stays.0 ∙ c) q)
