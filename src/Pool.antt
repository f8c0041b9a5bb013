-- ===== src/Pool.antt =====
-- include/dottorrent/concurrent_queue_processor.hpp: a pool of threads that take work items off one
-- queue. The phases of a thread stand between the accesses of `run` to what the threads share, so every
-- interleaving is a sequence of steps, and every step is one such access. A wake-up is the item `none`.
-- The function that handles an item is a parameter; here the items given to it are listed in order.
pub mod Turn
pub mod Family
pub mod Conserved
pub mod Shape
pub mod Closing
pub mod Settles
pub mod Single
pub mod Ends
pub mod Cancelled
pub mod Waiting
pub mod Fresh
pub mod Examples
use dottorrent.Base.{
  ℕ, zero, suc, Bool, true, false, not, ◌&&◌, ◌||◌, Option, none, some, List, [], ◌∷◌, ◌++◌, map,
  get_elem?, length, set, replicate, ◌==◌, if◌then◌else◌, Run, ok, violation, expects, ◌>>=◌, ◌>>◌,
}
use dottorrent.Queue.{Queue, make_queue, push, try_push, pop, try_pop, size}

-- Where a thread stands in `run`: at the test of the first loop, in its `pop`, with an item in hand, at
-- the test of `cancelled_`, in the second loop, there with an item, before `done_[thread_idx] = true`, at
-- the test of the size, in the last loop, at the end, or after a failed check of the last loop, which
-- ends the program, with the item found.
pub data Phase {ℓ} (T : Type ℓ) : Type ℓ where
  looping popping leaving draining marking sizing emptying finished : Phase T
  working handling failed : T → Phase T

pub record Worker {ℓ} (T : Type ℓ) : Type ℓ where
  pub phase : Phase T
  -- The stop token of its jthread.
  pub stop_requested : Bool

pub record Pool {ℓ} (T : Type ℓ) : Type ℓ where
  pub queue : Queue (Option T)
  pub workers : List (Worker T)
  pub started : Bool
  pub cancelled : Bool
  -- The member `stopped_`.
  pub stopped : Bool
  pub done_flags : List Bool
  -- The arguments of the calls of the work function so far.
  pub invoked : List T

-- The constructor and `set_max_concurrency`; zero asks for `std::thread::hardware_concurrency()`.
unfoldable pub make_pool {ℓ} : {T : Type ℓ} → ℕ → Pool T
make_pool n = record {
  queue = make_queue n;
  workers = [];
  started = false;
  cancelled = false;
  stopped = false;
  done_flags = [];
  invoked = [];
}

abbrev pub idle_worker {ℓ} : {T : Type ℓ} → Worker T
idle_worker = record { phase = looping; stop_requested = false }

unfoldable pub all_done : List Bool → Bool
all_done [] = true
all_done (b ∷ bs) = b && all_done bs

module _ {ℓ} {T : Type ℓ} where
  -- Called before `start`: the threads are those of `start`, and hold no work yet.
  unfoldable pub set_max_concurrency : ℕ → Pool T → ℕ → Pool T
  set_max_concurrency hardware pool n =
      let count = if n == 0 then hardware else n in
      record pool { workers = replicate count idle_worker; done_flags = replicate count false }

  unfoldable pub start : Pool T → Run (Pool T)
  start pool = do
    expects (not pool.started)
    expects (not pool.cancelled)
    ok (record pool {
      workers = map (λ w. idle_worker) pool.workers;
      done_flags = map (λ w. false) pool.workers;
      started = true;
    })

  abbrev pub stop_worker : Worker T → Worker T
  stop_worker w = record w { stop_requested = true }

  unfoldable pub request_stop : Pool T → Pool T
  request_stop pool = record pool { workers = map stop_worker pool.workers }

  unfoldable pub request_cancellation : Pool T → Pool T
  unfolding request_stop
  request_cancellation pool = request_stop (record pool { cancelled = true })

  unfoldable pub running : Pool T → Bool
  running pool = pool.started && (not pool.cancelled && not pool.stopped)

  unfoldable pub done : Pool T → Bool
  unfolding all_done
  done pool = pool.cancelled || (pool.started && all_done pool.done_flags)

  -- What the phases do with an item that `pop` or `try_pop` returned.
  abbrev pub take_work : Option (Option T × Queue (Option T)) → Option (Phase T × Queue (Option T))
  take_work none = none
  take_work (some (none, q)) = some (looping, q)
  take_work (some (some t, q)) = some (working t, q)

  abbrev pub take_pending :
      Option (Option T × Queue (Option T)) → Queue (Option T) → Phase T × Queue (Option T)
  take_pending none q = (marking, q)
  take_pending (some (none, q')) q = (marking, q')
  take_pending (some (some t, q')) q = (handling t, q')

  abbrev pub take_rest :
      Option (Option T × Queue (Option T)) → Queue (Option T) → Phase T × Queue (Option T)
  take_rest none q = (finished, q)
  take_rest (some (none, q')) q = (emptying, q')
  take_rest (some (some t, q')) q = (failed t, q')

  -- One step of `run`, from what the thread reads: its stop token, `cancelled_` and the queue. It is
  -- `none` where the thread waits for an item or is at the end.
  unfoldable pub run_step :
      Bool → Bool → Queue (Option T) → Phase T → Option (Phase T × Queue (Option T))
  run_step stop cancelled q looping = some (if stop then leaving else popping, q)
  run_step stop cancelled q popping = take_work (pop q)
  run_step stop cancelled q (working t) = some (looping, q)
  run_step stop cancelled q leaving = some (if cancelled then marking else draining, q)
  run_step stop cancelled q draining = some (take_pending (try_pop q) q)
  run_step stop cancelled q (handling t) = some (draining, q)
  run_step stop cancelled q marking = some (sizing, q)
  run_step stop cancelled q sizing = some (if size q == 0 then finished else emptying, q)
  run_step stop cancelled q emptying = some (take_rest (try_pop q) q)
  run_step stop cancelled q finished = none
  run_step stop cancelled q (failed t) = none

  -- The items that the step of a phase hands to the work function, and the flag that it sets.
  abbrev pub invocation : Phase T → List T
  invocation (working t) = t ∷ []
  invocation (handling t) = t ∷ []
  invocation _ = []

  abbrev pub mark : Phase T → List Bool → ℕ → List Bool
  mark marking flags i = set flags i true
  mark _ flags i = flags

  abbrev pub after_step : Pool T → ℕ → Worker T → Phase T × Queue (Option T) → Pool T
  after_step pool i w (phase, q) = record pool {
    queue = q;
    workers = set pool.workers i (record w { phase = phase });
    done_flags = mark w.phase pool.done_flags i;
    invoked = pool.invoked ++ invocation w.phase;
  }

  abbrev pub moved : Pool T → ℕ → Worker T → Option (Phase T × Queue (Option T)) → Option (Pool T)
  moved pool i w none = none
  moved pool i w (some r) = some (after_step pool i w r)

  unfoldable pub step_of : Pool T → ℕ → Option (Worker T) → Option (Pool T)
  step_of pool i none = none
  step_of pool i (some w) =
      moved pool i w (run_step w.stop_requested pool.cancelled pool.queue w.phase)

  -- The step of thread `i`, if there is one and it can move.
  unfoldable pub worker_step : Pool T → ℕ → Option (Pool T)
  unfolding step_of
  worker_step pool i = step_of pool i (get_elem? pool.workers i)

  -- Whether every thread can be joined.
  abbrev pub is_finished : Phase T → Bool
  is_finished finished = true
  is_finished _ = false

  unfoldable pub all_joinable : List (Worker T) → Bool
  all_joinable [] = true
  all_joinable (w ∷ ws) = is_finished w.phase && all_joinable ws

-- Where a call of `wait` stands: before the test of `started`, with wake-ups left to push, with wake-ups
-- left to try, and at the joins; then it has returned, or its last check has failed.
pub data WaitPhase : Type 0 where
  called joining returned unmet : WaitPhase
  waking retrying : ℕ → WaitPhase

module _ {ℓ} {T : Type ℓ} where
  abbrev pub woken : Pool T → ℕ → Option (Queue (Option T)) → Option (Pool T × WaitPhase)
  woken pool k none = none
  woken pool k (some q) = some (record pool { queue = q }, waking k)

  -- One step of `wait`; `none` where it blocks or has ended. The joins are one step, which waits for the
  -- last thread.
  unfoldable pub wait_step : Pool T → WaitPhase → Option (Pool T × WaitPhase)
  unfolding done all_joinable
  wait_step pool called =
      some (pool, if pool.started then waking (length pool.workers) else returned)
  wait_step pool (waking zero) = some (pool, retrying (length pool.workers))
  wait_step pool (waking (suc k)) = woken pool k (push pool.queue none)
  wait_step pool (retrying zero) = some (pool, joining)
  wait_step pool (retrying (suc k)) =
      if done pool
      then some (pool, joining)
      else some (record pool { queue = (try_push pool.queue none).1 }, retrying k)
  wait_step pool joining =
      if all_joinable pool.workers then some (pool, if done pool then returned else unmet) else none
  wait_step pool returned = none
  wait_step pool unmet = none

  -- The destructor waits for the threads that are left.
  unfoldable pub destroy : Pool T → Pool T × WaitPhase
  unfolding done request_stop
  destroy pool =
      if pool.started && not (done pool) then (request_stop pool, called) else (pool, returned)
