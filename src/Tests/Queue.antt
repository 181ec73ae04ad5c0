-- ===== src/Tests/Queue.antt =====
-- Two threads and a queue: one waits for a value, which the other pushes.
use coroplusplus.Common.{ℕ, ◌≡◌, refl, some, [], ◌∷◌}
use coroplusplus.Sync.{wait, wake_one, push, pop_round}
use coroplusplus.Sync.Handover.{
  System, starts, pushes, calls_pop, resumes, after_round, after_push, idle, Sound, Steps-Sound,
}

abbrev waiting : System ℕ
waiting = after_round idle (pop_round (some 1) idle.fifo)

abbrev given_one : System ℕ
given_one = after_push 7 waiting

abbrev popped_one : System ℕ
popped_one = after_round (record given_one { woken = [] }) (pop_round (some 1) given_one.fifo)

one_is_woken : given_one.woken ≡ 1 ∷ []
unfolding push wake_one pop_round wait
one_is_woken = refl

popped_one_run : popped_one.popped ≡ 7 ∷ []
unfolding push wake_one pop_round wait
popped_one_run = refl

Steps-Sound_example : Sound popped_one
Steps-Sound_example =
    Steps-Sound popped_one
      (resumes given_one 1 [] [] one_is_woken (pushes waiting 7 (calls_pop idle 1 starts)))
