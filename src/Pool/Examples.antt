-- ===== src/Pool/Examples.antt =====
-- Pools of one and of two threads whose work is numbers.
use dottorrent.Base.{
  ℕ, zero, suc, ◌+◌, ◌-◌, ◌≤◌, ◌≡◌, ◌≢◌, refl, Bool, true, false, Option, none, some, List, [], ◌∷◌,
  ◌++◌, get_elem?, sym, ap, subst, ok, ltb,
}
use dottorrent.Queue.{push, pop, try_pop, size}
use dottorrent.Pool.{
  Pool, Worker, Phase, start, looping, popping, working, leaving, draining, marking, sizing,
  finished, failed, worker_step, step_of, run_step, wait_step, joining, returned, all_joinable,
}
use dottorrent.Pool.Family.{Moves, works, produces, stops, at_rest, move, total}
use dottorrent.Pool.Conserved.{counted, accounted}
use dottorrent.Pool.Closing.{IsOrderly, check_holds, all_work_done}
use dottorrent.Pool.Settles.{Steps, no_step, step, AllStopped, distance, stopped_runs_end}
use dottorrent.Pool.Single.{all_work, single_order}
use dottorrent.Pool.Ends.{single_finishes, IsStopping, EndsWithin}
use dottorrent.Pool.Cancelled.{stopping, CheckFails, cancel_fails}
use dottorrent.Pool.Waiting.{IsMarked, wait_returns}
use dottorrent.Pool.Shape.{IsFine}
use dottorrent.Pool.Turn.{some-injective}
use dottorrent.Pool.Fresh.{start_ready}

-- One thread and work in the queue.
abbrev one_thread : Worker ℕ → List (Option ℕ) → List ℕ → Bool → Pool ℕ
one_thread w items did flag = record {
  queue = record { capacity = 9; items = items };
  workers = w ∷ [];
  started = true;
  cancelled = false;
  stopped = false;
  done_flags = flag ∷ [];
  invoked = did;
}

abbrev thread : Phase ℕ → Worker ℕ
thread ph = record { phase = ph; stop_requested = false }

abbrev fresh : Pool ℕ
fresh = one_thread (thread looping) [] [] false

fresh_started :
    start (record (one_thread (thread looping) [] [] false) { started = false }) ≡ ok fresh
unfolding start
fresh_started = refl

-- The item 7 is pushed and taken, a stop is requested, and the thread comes to the end.
abbrev work_and_stop : Moves fresh (7 ∷ []) (one_thread (stopping finished) [] (7 ∷ []) true)
unfolding push pop try_pop size worker_step step_of run_step
work_and_stop = move (produces 7 (record { capacity = 9; items = some 7 ∷ [] }) refl) (
    move {pool' = one_thread (thread popping) (some 7 ∷ []) [] false} (works 0 refl) (
      move (stops 0 (thread popping) refl) (
        move {pool' = one_thread (stopping (working 7)) [] [] false} (works 0 refl) (
          move {pool' = one_thread (stopping looping) [] (7 ∷ []) false} (works 0 refl) (
            move {pool' = one_thread (stopping leaving) [] (7 ∷ []) false} (works 0 refl) (
              move {pool' = one_thread (stopping draining) [] (7 ∷ []) false} (works 0 refl) (
                move {pool' = one_thread (stopping marking) [] (7 ∷ []) false} (works 0 refl) (
                  move {pool' = one_thread (stopping sizing) [] (7 ∷ []) true} (works 0 refl) (
                    move {pool' = one_thread (stopping finished) [] (7 ∷ []) true} (works 0 refl)
                      at_rest)))))))))

abbrev ended : Worker ℕ
ended = stopping finished

-- The same steps alone, from where the stop is requested.
abbrev stopped_waiting : Pool ℕ
stopped_waiting = one_thread (stopping popping) (some 7 ∷ []) [] false

abbrev at_end : Pool ℕ
at_end = one_thread (stopping finished) [] (7 ∷ []) true

abbrev seven_steps : Steps 7 stopped_waiting at_end
unfolding push pop try_pop size worker_step step_of run_step
seven_steps =
    (step {pool' = one_thread (stopping (working 7)) [] [] false} 0 refl (
      step {pool' = one_thread (stopping looping) [] (7 ∷ []) false} 0 refl (
        step {pool' = one_thread (stopping leaving) [] (7 ∷ []) false} 0 refl (
          step {pool' = one_thread (stopping draining) [] (7 ∷ []) false} 0 refl (
            step {pool' = one_thread (stopping marking) [] (7 ∷ []) false} 0 refl (
              step {pool' = one_thread (stopping sizing) [] (7 ∷ []) true} 0 refl (
                step {pool' = one_thread (stopping finished) [] (7 ∷ []) true} 0 refl no_step)))))))

fresh_ready : IsMarked fresh × IsOrderly false fresh
fresh_ready =
    start_ready (record (one_thread (thread looping) [] [] false) { started = false }) fresh
      fresh_started refl

check_holds_example : ended.phase ≢ failed 3
unfolding work_and_stop
check_holds_example = check_holds work_and_stop (refl, tt) (fresh_ready.1) 0 ended 3 refl

all_work_done_example :
    total (counted (ltb 5)) (7 ∷ []) ≡ accounted (ltb 5) fresh + total (counted (ltb 5)) (7 ∷ [])
unfolding work_and_stop
all_work_done_example =
    all_work_done (ltb 5) work_and_stop (refl, tt) (fresh_ready.1) (refl, tt) (λ e. cc e)

thread_stopped : AllStopped stopped_waiting
thread_stopped zero w h = ap (λ v. v.stop_requested) (sym (some-injective h))
thread_stopped (suc i) w h = cc

stopped_runs_end_example : 7 + distance at_end ≤ distance stopped_waiting
stopped_runs_end_example = stopped_runs_end seven_steps thread_stopped

single_order_example : all_work at_end ≡ all_work fresh ++ 7 ∷ []
single_order_example = single_order work_and_stop refl

wait_returns_example : wait_step at_end joining ≡ some (at_end, returned)
unfolding all_joinable
wait_returns_example = wait_returns work_and_stop (fresh_ready.0) refl

cancel_fails_example :
    CheckFails
      (record (one_thread (stopping looping) (none ∷ some 7 ∷ []) [] false) { cancelled = true })
      0
cancel_fails_example =
    cancel_fails
      (record (one_thread (stopping looping) (none ∷ some 7 ∷ []) [] false) { cancelled = true }) 0
      refl refl refl

stopping-IsFine :
    (i : ℕ) (w : Worker ℕ)
    → get_elem? stopped_waiting.workers i ≡ some w
    → IsFine true (some 7 ∷ []) w.phase
stopping-IsFine zero w h = subst (λ v. IsFine true (some 7 ∷ []) v.phase) (some-injective h) tt
stopping-IsFine (suc i) w h = cc

IsStopping-ready : IsStopping stopped_waiting
IsStopping-ready = record {
  one = refl;
  stopped = thread_stopped;
  orderly = record {
    not_cancelled = refl;
    shaped = record { front = refl; open_work = λ e. absurd (cc e) };
    unstopped = λ e. absurd (cc e);
    fine = stopping-IsFine;
  };
  fed = λ i w h p e. cc e;
}

-- Behind the first two steps.
abbrev two_steps : Steps 2 stopped_waiting (one_thread (stopping looping) [] (7 ∷ []) false)
unfolding push pop try_pop size worker_step step_of run_step
two_steps =
    step {pool' = one_thread (stopping (working 7)) [] [] false} 0 refl
      (step {pool' = one_thread (stopping looping) [] (7 ∷ []) false} 0 refl no_step)

single_finishes_example :
    EndsWithin
      (distance stopped_waiting - 2)
      (one_thread (stopping looping) [] (7 ∷ []) false)
      (all_work stopped_waiting)
single_finishes_example = single_finishes two_steps IsStopping-ready
