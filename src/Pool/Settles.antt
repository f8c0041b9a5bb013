-- ===== src/Pool/Settles.antt =====
-- After a stop request the threads come to rest: each is at the end of `run`, or waits for an item of an
-- empty queue.
use dottorrent.Base.{
  ℕ, suc, ◌+◌, ◌*◌, ◌≤◌, ◌<◌, ◌≡◌, refl, Bool, true, Option, none, some, List, [], ◌∷◌, get_elem?,
  length, arith, inl, inr, ◌⊎◌, sym, ap, subst, ◌∙◌,
}
use dottorrent.Queue.{Queue, pop, dequeue}
use dottorrent.Pool.{
  Phase, Worker, Pool, looping, popping, working, leaving, draining, handling, marking, sizing,
  emptying, finished, failed, run_step, step_of, worker_step, moved, take_work,
}
use dottorrent.Pool.Turn.{
  Turn, goes_on, leaves, wakes_up, takes, works_off, skips, drains, runs_dry, meets_wake,
  takes_pending, handles, marks, sees_none, sees_some, ends, drops, fails,
}
use dottorrent.Pool.Family.{Stepped, worker_step-Stepped, total, total-set, get_elem?-set}

-- Steps of any threads in any order, counted.
pub data Steps {ℓ} {T : Type ℓ} : ℕ → Pool T → Pool T → Type ℓ where
  no_step : {pool : Pool T} → Steps 0 pool pool
  step :
      {n : ℕ} {pool pool' pool'' : Pool T} (i : ℕ)
      → worker_step pool i ≡ some pool'
      → Steps n pool' pool''
      → Steps (suc n) pool pool''

module _ {ℓ} {T : Type ℓ} where
  -- How far a thread that is asked to stop is from the end, items of the queue apart.
  abbrev pub rank : Phase T → ℕ
  rank popping = 7
  rank (working t) = 7
  rank looping = 6
  rank leaving = 5
  rank (handling t) = 5
  rank draining = 4
  rank marking = 3
  rank sizing = 2
  rank emptying = 1
  rank finished = 0
  rank (failed t) = 0

  abbrev pub distance : Pool T → ℕ
  distance pool = 3 * length pool.queue.items + total (λ w. rank w.phase) pool.workers

  abbrev pub AllStopped : Pool T → Type ℓ
  AllStopped pool =
      (i : ℕ) (w : Worker T) → get_elem? pool.workers i ≡ some w → w.stop_requested ≡ true

  Turn-rank :
      {stop c : Bool} {ph ph' : Phase T} {xs xs' : List (Option T)}
      → Turn stop c ph xs ph' xs'
      → stop ≡ true
      → 3 * length xs' + rank ph' < 3 * length xs + rank ph
  Turn-rank (goes_on e) s = absurd (cc e)
  Turn-rank (leaves e) s = omega arith
  Turn-rank wakes_up s = omega arith
  Turn-rank (takes t) s = omega arith
  Turn-rank (works_off t) s = omega arith
  Turn-rank (skips e) s = omega arith
  Turn-rank (drains e) s = omega arith
  Turn-rank runs_dry s = omega arith
  Turn-rank meets_wake s = omega arith
  Turn-rank (takes_pending t) s = omega arith
  Turn-rank (handles t) s = omega arith
  Turn-rank marks s = omega arith
  Turn-rank sees_none s = omega arith
  Turn-rank (sees_some x) s = omega arith
  Turn-rank ends s = omega arith
  Turn-rank drops s = omega arith
  Turn-rank (fails t) s = omega arith

  pub Stepped-stopped :
      {pool pool' : Pool T} {i : ℕ} → Stepped pool pool' i → AllStopped pool → AllStopped pool'
  Stepped-stopped {pool} {pool'} {i} s a =
      let w = s.worker in
      subst AllStopped (s.after) (λ j v h.
        elim (get_elem?-set pool.workers i j (record w { phase = s.phase }) v h) [
          | inl (e, f) ↦ ap (λ u. u.stop_requested) (sym f) ∙ a i w (s.here)
          | inr e ↦ a j v e
        ])

  Stepped-distance :
      {pool pool' : Pool T} {i : ℕ}
      → Stepped pool pool' i
      → AllStopped pool
      → distance pool' < distance pool
  Stepped-distance {pool} {pool'} {i} s a =
      let w = s.worker in
      subst (λ p. distance p < distance pool) (s.after)
        (omega (
          arith,
          Turn-rank (s.turn) (a i w (s.here)),
          total-set (λ v. rank v.phase) pool.workers i w (record w { phase = s.phase }) (s.here),
        ))

  -- Once every thread is asked to stop, all runs of the threads are finite: a run of `n` steps brings the
  -- pool at least `n` nearer to the end, where each queued item counts three and each thread at most seven.
  pub stopped_runs_end :
      {n : ℕ} {pool pool' : Pool T}
      → Steps n pool pool'
      → AllStopped pool
      → n + distance pool' ≤ distance pool
  stopped_runs_end no_step a = omega arith
  stopped_runs_end {pool} (step {n} {pool'} i h r) a =
      let s = worker_step-Stepped pool pool' i h in
      omega (arith, Stepped-distance s a, stopped_runs_end r (Stepped-stopped s a))

  -- Where a thread that cannot move stands.
  abbrev pub IsAtRest : List (Option T) → Phase T → Type ℓ
  IsAtRest xs ph = (ph ≡ finished) ⊎ (((t : T) × (ph ≡ failed t)) ⊎ ((ph ≡ popping) × (xs ≡ [])))

  run_step-rest :
      (stop c : Bool) (q : Queue (Option T)) (ph : Phase T)
      → run_step stop c q ph ≡ none
      → IsAtRest q.items ph
  unfolding run_step pop
  run_step-rest stop c q finished h = inl refl
  run_step-rest stop c q (failed t) h = inr (inl (t, refl))
  run_step-rest stop c q popping h = inr (inr (refl, empty_of q.capacity q.items h))
    where
      empty_of : (n : ℕ) (xs : List (Option T)) → take_work (dequeue n xs) ≡ none → xs ≡ []
      empty_of n [] h = refl
      empty_of n (none ∷ xs) h = cc
      empty_of n (some t ∷ xs) h = cc
  run_step-rest stop c q looping h = cc
  run_step-rest stop c q (working t) h = cc
  run_step-rest stop c q leaving h = cc
  run_step-rest stop c q draining h = cc
  run_step-rest stop c q (handling t) h = cc
  run_step-rest stop c q marking h = cc
  run_step-rest stop c q sizing h = cc
  run_step-rest stop c q emptying h = cc

  moved-none :
      (pool : Pool T) (i : ℕ) (w : Worker T) (r : Option (Phase T × Queue (Option T)))
      → moved pool i w r ≡ none
      → r ≡ none
  moved-none pool i w none h = refl
  moved-none pool i w (some r) h = cc

  -- A thread that cannot move is at the end of `run`, has failed its last check, or waits for an item of an
  -- empty queue; so nothing but an empty queue ever blocks a thread.
  pub worker_step-rest :
      (pool : Pool T) (i : ℕ) (w : Worker T)
      → get_elem? pool.workers i ≡ some w
      → worker_step pool i ≡ none
      → IsAtRest pool.queue.items w.phase
  unfolding worker_step step_of
  worker_step-rest pool i w e h = run_step-rest w.stop_requested pool.cancelled pool.queue w.phase (
      moved-none pool i w (run_step w.stop_requested pool.cancelled pool.queue w.phase) (rw e at h))
