-- ===== src/Pool/Ends.antt =====
-- A stopped pool of one thread comes to the end of `run` with all its work done.
use dottorrent.Base.{
  ℕ, zero, suc, ◌≡◌, ◌≤◌, ◌-◌, ◌+◌, ◌≢◌, refl, Bool, true, Option, none, some, List, [], ◌∷◌, ◌++◌,
  append-nil, get_elem?, length, arith, inl, inr, sym, ap, subst, ◌∙◌, Option-cases,
}
use dottorrent.Pool.{Phase, Worker, Pool, popping, finished, worker_step}
use dottorrent.Pool.Turn.{
  Turn, goes_on, leaves, wakes_up, takes, works_off, skips, drains, runs_dry, meets_wake,
  takes_pending, handles, marks, sees_none, sees_some, ends, drops, fails, some-injective,
}
use dottorrent.Pool.Family.{Stepped, worker_step-Stepped}
use dottorrent.Pool.Shape.{no_work, IsFine}
use dottorrent.Pool.Closing.{IsOrderly, step-IsOrderly, not_failed}
use dottorrent.Pool.Settles.{
  Steps, no_step, step, AllStopped, distance, stopped_runs_end, Stepped-stopped, worker_step-rest,
}
use dottorrent.Pool.Single.{in_hand, in_hands, work_of, all_work, only_one, Stepped-order}

module _ {ℓ} {T : Type ℓ} where
  -- Whether the thread will find an item where it pops.
  abbrev pub IsFed : Pool T → Type ℓ
  IsFed pool =
      (i : ℕ) (w : Worker T)
      → get_elem? pool.workers i ≡ some w
      → w.phase ≡ popping
      → pool.queue.items ≢ []

  Turn-ne-popping :
      {stop c : Bool} {ph ph' : Phase T} {xs xs' : List (Option T)}
      → Turn stop c ph xs ph' xs'
      → stop ≡ true
      → ph' ≢ popping
  Turn-ne-popping (goes_on e) s p = cc
  Turn-ne-popping (leaves e) s p = cc
  Turn-ne-popping wakes_up s p = cc
  Turn-ne-popping (takes t) s p = cc
  Turn-ne-popping (works_off t) s p = cc
  Turn-ne-popping (skips e) s p = cc
  Turn-ne-popping (drains e) s p = cc
  Turn-ne-popping runs_dry s p = cc
  Turn-ne-popping meets_wake s p = cc
  Turn-ne-popping (takes_pending t) s p = cc
  Turn-ne-popping (handles t) s p = cc
  Turn-ne-popping marks s p = cc
  Turn-ne-popping sees_none s p = cc
  Turn-ne-popping (sees_some x) s p = cc
  Turn-ne-popping ends s p = cc
  Turn-ne-popping drops s p = cc
  Turn-ne-popping (fails t) s p = cc

  phase_of_one : (w v : Worker T) (i : ℕ) → get_elem? (w ∷ []) i ≡ some v → w.phase ≡ v.phase
  phase_of_one w v zero h = ap (λ u. u.phase) (some-injective h)
  phase_of_one w v (suc i) h = cc

  Stepped-IsFed :
      {pool pool' : Pool T} {i : ℕ}
      → Stepped pool pool' i
      → length pool.workers ≡ 1
      → AllStopped pool
      → IsFed pool'
  Stepped-IsFed {pool} {pool'} {i} s one stopped =
      let w = s.worker in
      let w' : Worker T = record w { phase = s.phase } in
      subst IsFed (s.after) (λ j v h p.
        let h' =
          subst (λ l. get_elem? l j ≡ some v) ((only_one pool.workers i w w' one (s.here)).1) h in
        absurd (Turn-ne-popping (s.turn) (stopped i w (s.here)) (phase_of_one w' v j h' ∙ p)))

  -- What the thread of a pool is asked to stop with.
  pub record IsStopping (pool : Pool T) : Type ℓ where
    pub one : length pool.workers ≡ 1
    pub stopped : AllStopped pool
    pub orderly : IsOrderly true pool
    pub fed : IsFed pool

  steps-IsStopping :
      {n : ℕ} {pool pool' : Pool T}
      → Steps n pool pool'
      → IsStopping pool
      → IsStopping pool' × (all_work pool' ≡ all_work pool)
  steps-IsStopping no_step s = (s, refl)
  steps-IsStopping {pool} (step {pool'} i h r) s =
      let t = worker_step-Stepped pool pool' i h in
      let o = Stepped-order t (s.one) in
      let next = steps-IsStopping r (record {
        one = o.1;
        stopped = Stepped-stopped t (s.stopped);
        orderly = step-IsOrderly true pool i pool' t (s.orderly);
        fed = Stepped-IsFed t (s.one) (s.stopped);
      }) in
      (next.0, next.1 ∙ o.0)

  -- The one thread of a stopped pool that cannot move is at the end of `run`, with nothing in hands.
  rest-finished :
      (pool : Pool T) (w : Worker T)
      → IsStopping pool
      → get_elem? pool.workers 0 ≡ some w
      → worker_step pool 0 ≡ none
      → w.phase ≡ finished
  rest-finished pool w s h none_left = elim (worker_step-rest pool 0 w h none_left) [
    | inl e ↦ e
    | inr (inl (t, e)) ↦
        absurd (not_failed true pool.queue.items w.phase t (s.orderly.fine 0 w h) e)
    | inr (inr (e, empty)) ↦ absurd (s.fed 0 w h e empty)
  ]

  no_work-work_of : (xs : List (Option T)) → no_work xs ≡ true → work_of xs ≡ []
  no_work-work_of [] h = refl
  no_work-work_of (none ∷ xs) h = no_work-work_of xs h
  no_work-work_of (some t ∷ xs) h = cc

  finished_all_work :
      (pool : Pool T) (w : Worker T)
      → IsStopping pool
      → get_elem? pool.workers 0 ≡ some w
      → w.phase ≡ finished
      → all_work pool ≡ pool.invoked
  finished_all_work pool w s h e =
      let alone = (only_one pool.workers 0 w w (s.one) h).0 in
      let no_more = subst (IsFine true pool.queue.items) e (s.orderly.fine 0 w h) in
      ap (λ l. pool.invoked ++ (in_hands l ++ work_of pool.queue.items)) alone
      ∙ (ap (λ ph. pool.invoked ++ ((in_hand ph ++ []) ++ work_of pool.queue.items)) e
          ∙ (ap (λ l. pool.invoked ++ l) (no_work-work_of pool.queue.items (no_more.1))
              ∙ append-nil pool.invoked))

  -- Where the thread of a stopping pool can take no further step.
  stuck_finished :
      {n : ℕ} {pool pool' : Pool T} (w : Worker T)
      → Steps n pool pool'
      → IsStopping pool
      → get_elem? pool'.workers 0 ≡ some w
      → worker_step pool' 0 ≡ none
      → (w.phase ≡ finished) × (pool'.invoked ≡ all_work pool)
  stuck_finished {pool} {pool'} w r s h stuck =
      let after = steps-IsStopping r s in
      let e = rest-finished pool' w (after.0) h stuck in
      (e, sym (finished_all_work pool' w (after.0) h e) ∙ after.1)

  -- Some steps, no more than the bound, lead to the end of `run` with this work done.
  abbrev pub EndsWithin : ℕ → Pool T → List T → Type ℓ
  EndsWithin bound pool done =
      (k : ℕ) × ((pool' : Pool T) × ((w : Worker T) × (Steps k pool pool'
            × ((k ≤ bound)
                × ((get_elem? pool'.workers 0 ≡ some w)
                    × ((w.phase ≡ finished) × (pool'.invoked ≡ done)))))))

  only_worker : (ws : List (Worker T)) → length ws ≡ 1 → (w : Worker T) × (get_elem? ws 0 ≡ some w)
  only_worker [] one = absurd (omega arith)
  only_worker (w ∷ ws) one = (w, refl)

  -- One step of the thread.
  step_nearer :
      (pool next : Pool T)
      → IsStopping pool
      → worker_step pool 0 ≡ some next
      → IsStopping next × ((all_work next ≡ all_work pool) × (1 + distance next ≤ distance pool))
  step_nearer pool next s taken =
      let one_step = step 0 taken no_step in
      let (stopping, same) = steps-IsStopping one_step s in
      (stopping, (same, stopped_runs_end one_step (s.stopped)))

  -- No step is left.
  ends_here :
      (bound : ℕ) (pool : Pool T)
      → IsStopping pool
      → worker_step pool 0 ≡ none
      → EndsWithin bound pool (all_work pool)
  ends_here bound pool s stuck =
      let (w, here) = only_worker pool.workers (s.one) in
      let (at_end, done) = stuck_finished w no_step s here stuck in
      (0, (pool, (w, (no_step, (omega arith, (here, (at_end, done)))))))

  ends_within :
      (bound : ℕ) (pool : Pool T)
      → distance pool ≤ bound
      → IsStopping pool
      → EndsWithin bound pool (all_work pool)
  ends_within zero pool near s = elim (Option-cases (worker_step pool 0)) [
    | inl stuck ↦ ends_here zero pool s stuck
    | inr (next, taken) ↦
        let (_, (_, nearer)) = step_nearer pool next s taken in absurd (omega (arith, nearer, near))
  ]
  ends_within (suc bound) pool near s = elim (Option-cases (worker_step pool 0)) [
    | inl stuck ↦ ends_here (suc bound) pool s stuck
    | inr (next, taken) ↦
        let (stopping, (same, nearer)) = step_nearer pool next s taken in
        let (k, (pool', (w, (steps, (few, (here, (at_end, done))))))) =
          ends_within bound next (omega (arith, nearer, near)) stopping in
        (
          suc k,
          (pool', (w, (step 0 taken steps, (omega (arith, few), (here, (at_end, done ∙ same)))))),
        )
  ]

  -- A pool of one thread that is asked to stop, is not cancelled, gets no further item, has its work in
  -- front of the wake-ups, and does not wait for an item of an empty queue: from wherever a run of `n` steps
  -- has come, the thread can go on to the end of `run`, in no more steps than what was left of the
  -- distance at the start, and then the work function got what it had got, the item in hands and
  -- all the queued work, in this order.
  pub single_finishes :
      {n : ℕ} {pool pool' : Pool T}
      → Steps n pool pool'
      → IsStopping pool
      → EndsWithin (distance pool - n) pool' (all_work pool)
  single_finishes {n} {pool} {pool'} run s =
      let (stopping, same) = steps-IsStopping run s in
      let left : distance pool' ≤ distance pool - n =
        omega (arith, stopped_runs_end run (s.stopped)) in
      subst (EndsWithin (distance pool - n) pool') same
        (ends_within (distance pool - n) pool' left stopping)
