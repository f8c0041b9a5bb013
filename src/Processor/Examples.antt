-- ===== src/Processor/Examples.antt =====
-- Hasher threads that are asked to stop while they are busy, and end before `wait` is called.
use dottorrent.Base.{ℕ, ◌≡◌, refl, true, false, Option, none, some, List, [], ◌∷◌, replicate, arith}
use dottorrent.Queue.{try_pop}
use dottorrent.Pool.{finished, called, returned, idle_worker, all_done, all_joinable}
use dottorrent.Processor.{Processor, worker_step, run_step, request_stop}
use dottorrent.Processor.Full.{Blocked, WaitSteps, wait_blocks, wait_ends}

-- Started threads, a queue of capacity 4.
abbrev busy : ℕ → Processor
busy n = record {
  queue = record { capacity = 4; items = [] };
  workers = replicate n idle_worker;
  started = true;
  cancelled = false;
  stopped = false;
  done_flags = replicate n false;
  hashed = [];
}

abbrev ended : ℕ → Processor
ended n = record (busy n) {
  workers = replicate n (record { phase = finished; stop_requested = true });
  done_flags = replicate n true;
}

abbrev step_each : List ℕ → Option Processor → Option Processor
step_each is none = none
step_each [] (some p) = some p
step_each (i ∷ is) (some p) = step_each is (worker_step p i)

-- Four steps of each of five threads end them.
five_end :
    step_each
      (0 ∷ 0 ∷ 0 ∷ 0 ∷ 1 ∷ 1 ∷ 1 ∷ 1 ∷ 2 ∷ 2 ∷ 2 ∷ 2 ∷ 3 ∷ 3 ∷ 3 ∷ 3 ∷ 4 ∷ 4 ∷ 4 ∷ 4 ∷ [])
      (some (request_stop (busy 5)))
    ≡ some (ended 5)
unfolding worker_step run_step request_stop try_pop
five_end = refl

wait_blocks_example : (b : Blocked (ended 5) called) × ((i : ℕ) → worker_step b.last i ≡ none)
unfolding all_joinable
wait_blocks_example = wait_blocks (ended 5) refl refl (omega arith) (omega arith)

wait_ends_example : (p' : Processor) × WaitSteps (ended 3) called p' returned
unfolding all_joinable all_done
wait_ends_example = wait_ends (ended 3) refl refl refl (omega arith)
