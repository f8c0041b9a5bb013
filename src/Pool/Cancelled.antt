-- ===== src/Pool/Cancelled.antt =====
-- What `request_cancellation` does to a pool with pending work, which it means to discard.
use dottorrent.Base.{
  ℕ, zero, suc, ◌≡◌, refl, true, false, Option, none, some, List, [], ◌∷◌, get_elem?, set, length,
  ◌==◌, arith,
}
use dottorrent.Queue.{Queue, try_pop, size}
use dottorrent.Pool.{
  Phase, Worker, Pool, looping, leaving, marking, sizing, emptying, failed, run_step, step_of,
  after_step, worker_step,
}
use dottorrent.Pool.Shape.{no_work}
use dottorrent.Pool.Settles.{Steps, no_step, step}

module _ {ℓ} {T : Type ℓ} where
  -- A thread that is asked to stop.
  abbrev pub stopping : Phase T → Worker T
  stopping ph = record { phase = ph; stop_requested = true }

  -- A run after which the thread has found work in the last loop of `run`.
  pub record CheckFails (pool : Pool T) (i : ℕ) : Type ℓ where
    pub steps : ℕ
    pub last : Pool T
    pub run : Steps steps pool last
    pub found : T
    pub failure : get_elem? last.workers i ≡ some (stopping (failed found))

  get_elem?-set_self :
      (ws : List (Worker T)) (i : ℕ) (w v : Worker T)
      → get_elem? ws i ≡ some w
      → get_elem? (set ws i v) i ≡ some v
  get_elem?-set_self [] i w v h = cc
  get_elem?-set_self (u ∷ ws) zero w v h = refl
  get_elem?-set_self (u ∷ ws) (suc i) w v h = get_elem?-set_self ws i w v h

  step_on :
      (pool : Pool T) (i : ℕ) (ph ph' : Phase T) (q : Queue (Option T))
      → get_elem? pool.workers i ≡ some (stopping ph)
      → run_step true pool.cancelled pool.queue ph ≡ some (ph', q)
      → CheckFails (after_step pool i (stopping ph) (ph', q)) i
      → CheckFails pool i
  unfolding worker_step step_of
  step_on pool i ph ph' q h r f = record {
    steps = suc f.steps;
    last = f.last;
    run = step i (rw (h, r) refl) f.run;
    found = f.found;
    failure = f.failure;
  }

  emptying_fails :
      (pool : Pool T) (i n : ℕ) (xs : List (Option T))
      → pool.queue ≡ record { capacity = n; items = xs }
      → get_elem? pool.workers i ≡ some (stopping emptying)
      → no_work xs ≡ false
      → CheckFails pool i
  unfolding run_step try_pop
  emptying_fails pool i n [] q h work = cc
  emptying_fails pool i n (none ∷ xs) q h work =
      let rest : Queue (Option T) = record { capacity = n; items = xs } in
      step_on pool i emptying emptying rest h (rw q refl) (
        emptying_fails (after_step pool i (stopping emptying) (emptying, rest)) i n xs refl
          (get_elem?-set_self pool.workers i (stopping emptying) (stopping emptying) h) work)
  emptying_fails pool i n (some t ∷ xs) q h work =
      let rest : Queue (Option T) = record { capacity = n; items = xs } in
      step_on pool i emptying (failed t) rest h (rw q refl) (record {
        steps = 0;
        last = after_step pool i (stopping emptying) (failed t, rest);
        run = no_step;
        found = t;
        failure = get_elem?-set_self pool.workers i (stopping emptying) (stopping (failed t)) h;
      })

  work-ne_zero : (xs : List (Option T)) → no_work xs ≡ false → (length xs == 0) ≡ false
  work-ne_zero [] h = cc
  work-ne_zero (x ∷ xs) h = ground arith

  -- The phases before the last loop, from the last on.
  sizing_fails :
      (pool : Pool T) (i : ℕ)
      → no_work pool.queue.items ≡ false
      → get_elem? pool.workers i ≡ some (stopping sizing)
      → CheckFails pool i
  unfolding run_step size
  sizing_fails pool i work h =
      step_on pool i sizing emptying pool.queue h (rw (work-ne_zero pool.queue.items work) refl) (
        emptying_fails (after_step pool i (stopping sizing) (emptying, pool.queue)) i
          pool.queue.capacity pool.queue.items refl
          (get_elem?-set_self pool.workers i (stopping sizing) (stopping emptying) h) work)

  marking_fails :
      (pool : Pool T) (i : ℕ)
      → no_work pool.queue.items ≡ false
      → get_elem? pool.workers i ≡ some (stopping marking)
      → CheckFails pool i
  unfolding run_step
  marking_fails pool i work h = step_on pool i marking sizing pool.queue h refl (
      sizing_fails (after_step pool i (stopping marking) (sizing, pool.queue)) i work
        (get_elem?-set_self pool.workers i (stopping marking) (stopping sizing) h))

  leaving_fails :
      (pool : Pool T) (i : ℕ)
      → pool.cancelled ≡ true
      → no_work pool.queue.items ≡ false
      → get_elem? pool.workers i ≡ some (stopping leaving)
      → CheckFails pool i
  unfolding run_step
  leaving_fails pool i c work h = step_on pool i leaving marking pool.queue h (rw c refl) (
      marking_fails (after_step pool i (stopping leaving) (marking, pool.queue)) i work
        (get_elem?-set_self pool.workers i (stopping leaving) (stopping marking) h))

  -- Where a pool is cancelled while work is queued, a thread at the test of its first loop, run alone,
  -- comes to the last loop of `run` and fails the check there that no work is left.
  pub cancel_fails :
      (pool : Pool T) (i : ℕ)
      → pool.cancelled ≡ true
      → no_work pool.queue.items ≡ false
      → get_elem? pool.workers i ≡ some (stopping looping)
      → CheckFails pool i
  unfolding run_step
  cancel_fails pool i c work h = step_on pool i looping leaving pool.queue h refl (
      leaving_fails (after_step pool i (stopping looping) (leaving, pool.queue)) i c work
        (get_elem?-set_self pool.workers i (stopping looping) (stopping leaving) h))
