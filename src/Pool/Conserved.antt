-- ===== src/Pool/Conserved.antt =====
-- No interleaving loses or doubles work: every item is handed to the work function once, or is still in
-- the queue, or in the hands of a thread.
use dottorrent.Base.{
  ◌⊎◌, ℕ, ◌+◌, ◌≡◌, refl, Bool, Option, none, some, List, [], ◌∷◌, ◌++◌, length, ltb, ◌==◌,
  if◌then◌else◌, arith, inl, inr, Bool-cases, sym, ap, subst,
}
use dottorrent.Queue.{Queue, push, try_push}
use dottorrent.Pool.{Phase, Pool, working, handling, failed, stop_worker, invocation}
use dottorrent.Pool.Family.{
  Move, Moves, works, produces, wakes, tries_wake, stops, cancels, at_rest, move,
  worker_step-Stepped, total, total-set, total-append,
}
use dottorrent.Pool.Turn.{
  Turn, goes_on, leaves, wakes_up, takes, works_off, skips, drains, runs_dry, meets_wake,
  takes_pending, handles, marks, sees_none, sees_some, ends, drops, fails, some-injective,
}

module _ {ℓ} {A : Type ℓ} where
  pub push-items : (q q' : Queue A) (x : A) → push q x ≡ some q' → q'.items ≡ q.items ++ x ∷ []
  unfolding push
  push-items q q' x h = elim (Bool-cases (ltb (length q.items) q.capacity)) [
    | inl e ↦ ap (λ r. r.items) (sym (some-injective (rw e at h)))
    | inr e ↦ cc (rw e at h)
  ]

  pub try_push-items :
      (q : Queue A) (x : A)
      → ((try_push q x).1.items ≡ q.items) ⊎ ((try_push q x).1.items ≡ q.items ++ x ∷ [])
  unfolding try_push
  try_push-items q x = elim (Bool-cases (length q.items == q.capacity)) [
    | inl e ↦ inl (rw e refl)
    | inr e ↦ inr (rw e refl)
  ]

module _ {ℓ} {T : Type ℓ} (test : T → Bool) where
  -- One for an item that passes the test.
  abbrev pub counted : T → ℕ
  counted t = if test t then 1 else 0

  abbrev pub counted_entry : Option T → ℕ
  counted_entry none = 0
  counted_entry (some t) = counted t

  -- The item in the hands of a thread.
  abbrev pub held : Phase T → ℕ
  held (working t) = counted t
  held (handling t) = counted t
  held (failed t) = counted t
  held _ = 0

  abbrev pub queued : List (Option T) → ℕ
  queued = total counted_entry

  -- The items of a pool that pass the test: handed to the work function, in hands, or in the queue.
  abbrev pub accounted : Pool T → ℕ
  accounted pool =
      total counted pool.invoked
      + (total (λ w. held w.phase) pool.workers + queued pool.queue.items)

  Turn-held :
      {stop c : Bool} {ph ph' : Phase T} {xs xs' : List (Option T)}
      → Turn stop c ph xs ph' xs'
      → held ph + queued xs ≡ total counted (invocation ph) + (held ph' + queued xs')
  Turn-held (works_off t) = omega arith
  Turn-held (handles t) = omega arith
  Turn-held (goes_on e) = omega arith
  Turn-held (leaves e) = omega arith
  Turn-held wakes_up = omega arith
  Turn-held (takes t) = omega arith
  Turn-held (skips e) = omega arith
  Turn-held (drains e) = omega arith
  Turn-held runs_dry = omega arith
  Turn-held meets_wake = omega arith
  Turn-held (takes_pending t) = omega arith
  Turn-held marks = omega arith
  Turn-held sees_none = omega arith
  Turn-held (sees_some x) = omega arith
  Turn-held ends = omega arith
  Turn-held drops = omega arith
  Turn-held (fails t) = omega arith

  Move-accounted :
      {pool pool' : Pool T} {ts : List T}
      → Move pool ts pool'
      → accounted pool' ≡ accounted pool + total counted ts
  Move-accounted {pool} {pool'} (works i h) =
      let s = worker_step-Stepped pool pool' i h in
      subst (λ r. accounted r ≡ accounted pool + 0) (s.after)
        (omega (
          arith,
          Turn-held s.turn,
          total-set (λ w. held w.phase) pool.workers i s.worker
              (record s.worker { phase = s.phase }) s.here,
          total-append counted pool.invoked (invocation s.worker.phase),
        ))
  Move-accounted {pool} (produces t q h) = omega (
    arith,
    ap queued (push-items pool.queue q (some t) h),
    total-append counted_entry pool.queue.items (some t ∷ []),
  )
  Move-accounted {pool} (wakes q h) = omega (
    arith,
    ap queued (push-items pool.queue q none h),
    total-append counted_entry pool.queue.items (none ∷ []),
  )
  Move-accounted {pool} tries_wake = elim (try_push-items pool.queue none) [
    | inl e ↦ omega (arith, ap queued e)
    | inr e ↦ omega (arith, ap queued e, total-append counted_entry pool.queue.items (none ∷ []))
  ]
  Move-accounted {pool} (stops i w h) =
      omega (arith, total-set (λ w. held w.phase) pool.workers i w (stop_worker w) h)
  Move-accounted {pool} cancels = omega arith

  -- Through every interleaving of the steps of the threads, pushes, stops and cancellation, the work
  -- items of any kind that were handed to the work function, are in the hands of a thread or
  -- in the queue are, in number, those of before and those that were pushed meanwhile.
  pub moves-accounted :
      {pool pool' : Pool T} {ts : List T}
      → Moves pool ts pool'
      → accounted pool' ≡ accounted pool + total counted ts
  moves-accounted at_rest = omega arith
  moves-accounted (move {ts} {us} m ms) =
      omega (arith, Move-accounted m, moves-accounted ms, total-append counted ts us)
