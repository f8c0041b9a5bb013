-- ===== src/Pool/Closing.antt =====
-- The way of `storage_hasher::wait`: the producers end before a stop is requested or a wake-up is pushed.
-- Then the check of the last loop of `run` never fails, and the threads end with all the work done.
use dottorrent.Base.{
  ℕ, ◌+◌, ◌≡◌, ◌≢◌, refl, Bool, true, false, Option, none, some, List, [], ◌∷◌, ◌++◌, get_elem?,
  set, arith, inl, inr, ◌⊎◌, sym, ap, subst, ◌∙◌,
}
use dottorrent.Queue.{Queue, try_push}
use dottorrent.Pool.{Phase, Worker, Pool, finished, failed, stop_worker}
use dottorrent.Pool.Turn.{Turn}
use dottorrent.Pool.Family.{
  Moves, works, produces, wakes, tries_wake, stops, cancels, at_rest, move, Stepped,
  worker_step-Stepped, total, get_elem?-set,
}
use dottorrent.Pool.Shape.{
  no_work, only_work, work_first, IsFine, IsShaped, Turn-keeps, IsFine-others, IsFine-open,
  IsFine-close, work_first-append, only_work-append, no_work-append, only_work-first,
}
use dottorrent.Pool.Conserved.{
  counted, queued, held, accounted, moves-accounted, push-items, try_push-items,
}

module _ {ℓ} {T : Type ℓ} where
  -- A fresh or a running pool without a failure, with the producers ended or not.
  pub record IsOrderly (closed : Bool) (pool : Pool T) : Type ℓ where
    pub not_cancelled : pool.cancelled ≡ false
    pub shaped : IsShaped closed pool.queue.items
    pub unstopped :
        closed ≡ false
        → (i : ℕ) (w : Worker T) → get_elem? pool.workers i ≡ some w
        → w.stop_requested ≡ false
    pub fine :
        (i : ℕ) (w : Worker T)
        → get_elem? pool.workers i ≡ some w
        → IsFine closed pool.queue.items w.phase

  -- The order of the moves: work is produced only before the first stop or wake-up, and nobody cancels.
  abbrev pub InOrder : Bool → {pool pool' : Pool T} {ts : List T} → Moves pool ts pool' → Type 0
  InOrder closed at_rest = Unit
  InOrder closed (move (works i h) ms) = InOrder closed ms
  InOrder closed (move (produces t q h) ms) = (closed ≡ false) × InOrder closed ms
  InOrder closed (move (wakes q h) ms) = InOrder true ms
  InOrder closed (move tries_wake ms) = InOrder true ms
  InOrder closed (move (stops i w h) ms) = InOrder true ms
  InOrder closed (move cancels ms) = ⊥

  pub step-IsOrderly :
      (closed : Bool) (pool : Pool T) (i : ℕ) (pool' : Pool T)
      → Stepped pool pool' i
      → IsOrderly closed pool
      → IsOrderly closed pool'
  step-IsOrderly closed pool i pool' s o =
      let w = s.worker in
      let turn =
        subst (λ c. Turn w.stop_requested c w.phase pool.queue.items s.phase s.queue.items)
          (o.not_cancelled) (s.turn) in
      let k =
        Turn-keeps {closed = closed} turn (λ c. o.unstopped c i w (s.here)) (o.shaped)
          (o.fine i w (s.here)) in
      subst (IsOrderly closed) (s.after) (record {
        not_cancelled = o.not_cancelled;
        shaped = k.shaped;
        unstopped = λ c j v h.
            elim (get_elem?-set pool.workers i j (record w { phase = s.phase }) v h) [
              | inl (e, f) ↦ ap (λ u. u.stop_requested) (sym f) ∙ o.unstopped c i w (s.here)
              | inr e ↦ o.unstopped c j v e
            ];
        fine = λ j v h. elim (get_elem?-set pool.workers i j (record w { phase = s.phase }) v h) [
          | inl (e, f) ↦ subst (λ u. IsFine closed s.queue.items u.phase) f (k.fine)
          | inr e ↦
              IsFine-others closed pool.queue.items s.queue.items v.phase (k.others) (o.fine j v e)
        ];
      })

  -- A push of a wake-up by `wait` or a stop ends the time of the producers.
  closing-IsOrderly :
      (closed : Bool) (pool : Pool T) (q : Queue (Option T))
      → (q.items ≡ pool.queue.items) ⊎ (q.items ≡ pool.queue.items ++ none ∷ [])
      → IsOrderly closed pool
      → IsOrderly true (record pool { queue = q })
  closing-IsOrderly closed pool q c o = record {
    not_cancelled = o.not_cancelled;
    shaped = record {
      front = elim c [
        | inl e ↦ subst (λ l. work_first l ≡ true) (sym e) (o.shaped.front)
        | inr e ↦
            subst (λ l. work_first l ≡ true) (sym e)
              (work_first-append pool.queue.items (o.shaped.front))
      ];
      open_work = λ e. absurd (cc e);
    };
    unstopped = λ e. absurd (cc e);
    fine = λ i w h. elim c [
      | inl e ↦
          subst (λ l. IsFine true l w.phase) (sym e)
            (IsFine-close closed pool.queue.items w.phase (o.fine i w h))
      | inr e ↦
          subst (λ l. IsFine true l w.phase) (sym e)
            (IsFine-others true pool.queue.items (pool.queue.items ++ none ∷ []) w.phase
              (no_work-append pool.queue.items)
              (IsFine-close closed pool.queue.items w.phase (o.fine i w h)))
    ];
  }

  produce-IsOrderly :
      (pool : Pool T) (t : T) (q : Queue (Option T))
      → q.items ≡ pool.queue.items ++ some t ∷ []
      → IsOrderly false pool
      → IsOrderly false (record pool { queue = q })
  produce-IsOrderly pool t q e o =
      let more =
        subst (λ l. only_work l ≡ true) (sym e)
          (only_work-append pool.queue.items t (o.shaped.open_work refl)) in
      record {
        not_cancelled = o.not_cancelled;
        shaped = record { front = only_work-first q.items more; open_work = λ c. more };
        unstopped = o.unstopped;
        fine = λ i w h. IsFine-open pool.queue.items q.items w.phase (o.fine i w h);
      }

  stop-IsOrderly :
      (closed : Bool) (pool : Pool T) (i : ℕ) (w : Worker T)
      → get_elem? pool.workers i ≡ some w
      → IsOrderly closed pool
      → IsOrderly true (record pool { workers = set pool.workers i (stop_worker w) })
  stop-IsOrderly closed pool i w h o = record {
    not_cancelled = o.not_cancelled;
    shaped = record { front = o.shaped.front; open_work = λ e. absurd (cc e) };
    unstopped = λ e. absurd (cc e);
    fine = λ j v g. elim (get_elem?-set pool.workers i j (stop_worker w) v g) [
      | inl (e, f) ↦
          subst (λ u. IsFine true pool.queue.items u.phase) f
            (IsFine-close closed pool.queue.items w.phase (o.fine i w h))
      | inr e ↦ IsFine-close closed pool.queue.items v.phase (o.fine j v e)
    ];
  }

  -- Whether the producers have ended after the moves.
  abbrev pub closed_after : Bool → {pool pool' : Pool T} {ts : List T} → Moves pool ts pool' → Bool
  closed_after closed at_rest = closed
  closed_after closed (move (works i h) ms) = closed_after closed ms
  closed_after closed (move (produces t q h) ms) = closed_after closed ms
  closed_after closed (move _ ms) = closed_after true ms

  pub moves-IsOrderly :
      (closed : Bool) {pool pool' : Pool T} {ts : List T} (ms : Moves pool ts pool')
      → InOrder closed ms
      → IsOrderly closed pool
      → IsOrderly (closed_after closed ms) pool'
  moves-IsOrderly closed at_rest r o = o
  moves-IsOrderly closed {pool} (move {pool'} (works i h) ms) r o =
      moves-IsOrderly closed ms r
        (step-IsOrderly closed pool i pool' (worker_step-Stepped pool pool' i h) o)
  moves-IsOrderly closed {pool} (move (produces t q h) ms) (open_, r) o =
      moves-IsOrderly closed ms r (
        subst (λ b. IsOrderly b (record pool { queue = q })) (sym open_)
          (produce-IsOrderly pool t q (push-items pool.queue q (some t) h)
            (subst (λ b. IsOrderly b pool) open_ o)))
  moves-IsOrderly closed {pool} (move (wakes q h) ms) r o =
      moves-IsOrderly true ms r
        (closing-IsOrderly closed pool q (inr (push-items pool.queue q none h)) o)
  moves-IsOrderly closed {pool} (move tries_wake ms) r o = moves-IsOrderly true ms r (
      closing-IsOrderly closed pool ((try_push pool.queue none).1) (try_push-items pool.queue none)
        o)
  moves-IsOrderly closed {pool} (move (stops i w h) ms) r o =
      moves-IsOrderly true ms r (stop-IsOrderly closed pool i w h o)
  moves-IsOrderly closed (move cancels ms) r o = absurd r

  pub not_failed :
      (closed : Bool) (xs : List (Option T)) (ph : Phase T) (t : T)
      → IsFine closed xs ph
      → ph ≢ failed t
  not_failed closed xs ph t f e = cc (subst (IsFine closed xs) e f)

  -- On a pool that is not cancelled, whose threads are not stopped and whose queue holds work only: if no
  -- work is pushed after the first stop request or wake-up, and nobody cancels, then after every
  -- interleaving no thread has failed the check of the last loop of `run`.
  pub check_holds :
      {pool pool' : Pool T} {ts : List T} (ms : Moves pool ts pool')
      → InOrder false ms
      → IsOrderly false pool
      → (i : ℕ) (w : Worker T) (t : T) → get_elem? pool'.workers i ≡ some w
      → w.phase ≢ failed t
  check_holds {pool'} ms r o i w t h =
      let o' = moves-IsOrderly false ms r o in
      not_failed (closed_after false ms) pool'.queue.items w.phase t (o'.fine i w h)

  abbrev pub AllFinished : List (Worker T) → Type ℓ
  AllFinished [] = Unit
  AllFinished (w ∷ ws) = (w.phase ≡ finished) × AllFinished ws

  finished_held :
      (test : T → Bool) (ws : List (Worker T))
      → AllFinished ws
      → total (λ w. held test w.phase) ws ≡ 0
  finished_held test [] f = refl
  finished_held test (w ∷ ws) (e, f) = omega (arith, ap (held test) e, finished_held test ws f)

  pub no_work-queued :
      (test : T → Bool) (xs : List (Option T)) → no_work xs ≡ true → queued test xs ≡ 0
  no_work-queued test [] h = refl
  no_work-queued test (none ∷ xs) h = omega (arith, no_work-queued test xs h)
  no_work-queued test (some t ∷ xs) h = cc

  finished_no_work :
      (closed : Bool) (xs : List (Option T)) (ws : List (Worker T))
      → ws ≢ []
      → AllFinished ws
      → ((i : ℕ) (w : Worker T) → get_elem? ws i ≡ some w → IsFine closed xs w.phase)
      → no_work xs ≡ true
  finished_no_work closed xs [] ne f fine = absurd (ne refl)
  finished_no_work closed xs (w ∷ ws) ne (e, f) fine =
      (subst (IsFine closed xs) e (fine 0 w refl)).1

  -- On such a pool and after such an interleaving, where there are threads and all of them are at the end
  -- of `run`: of every kind of work item, the work function got as many as had been handed to it, in
  -- hands or in the queue before, and as were pushed meanwhile.
  pub all_work_done :
      (test : T → Bool) {pool pool' : Pool T} {ts : List T} (ms : Moves pool ts pool')
      → InOrder false ms
      → IsOrderly false pool
      → AllFinished pool'.workers
      → pool'.workers ≢ []
      → total (counted test) pool'.invoked ≡ accounted test pool + total (counted test) ts
  all_work_done test {pool} {pool'} ms r o f ne =
      let o' = moves-IsOrderly false ms r o in
      let rest =
        finished_no_work (closed_after false ms) pool'.queue.items pool'.workers ne f o'.fine in
      omega (
        arith,
        moves-accounted test ms,
        finished_held test pool'.workers f,
        no_work-queued test pool'.queue.items rest,
      )
