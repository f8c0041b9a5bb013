-- ===== src/Pool/Family.antt =====
-- The moves of the threads and of those who use the pool, and sums over the threads.
use dottorrent.Base.{
  ℕ, zero, suc, ◌+◌, ◌≡◌, refl, true, Option, none, some, List, [], ◌∷◌, ◌++◌, get_elem?, set,
  arith, ◌⊎◌, inl, inr, Option-cases, ap,
}
use dottorrent.Queue.{Queue, push, try_push}
use dottorrent.Pool.Turn.{Turn, run_step-Turn, some-injective}
use dottorrent.Pool.{Phase, Worker, Pool, stop_worker, run_step, after_step, step_of, worker_step}

-- A move, with the work items that it adds to the queue: the step of a thread, a push of work by a
-- producer, the two pushes of `wait`, a `request_stop` of one jthread, and the store to `cancelled_`.
pub data Move {ℓ} {T : Type ℓ} : Pool T → List T → Pool T → Type ℓ where
  works : {pool pool' : Pool T} (i : ℕ) → worker_step pool i ≡ some pool' → Move pool [] pool'
  produces :
      {pool : Pool T} (t : T) (q : Queue (Option T))
      → push pool.queue (some t) ≡ some q
      → Move pool (t ∷ []) (record pool { queue = q })
  wakes :
      {pool : Pool T} (q : Queue (Option T))
      → push pool.queue none ≡ some q
      → Move pool [] (record pool { queue = q })
  tries_wake : {pool : Pool T} → Move pool [] (record pool { queue = (try_push pool.queue none).1 })
  stops :
      {pool : Pool T} (i : ℕ) (w : Worker T)
      → get_elem? pool.workers i ≡ some w
      → Move pool [] (record pool { workers = set pool.workers i (stop_worker w) })
  cancels : {pool : Pool T} → Move pool [] (record pool { cancelled = true })

-- Any interleaving of moves, with all the work added.
pub data Moves {ℓ} {T : Type ℓ} : Pool T → List T → Pool T → Type ℓ where
  at_rest : {pool : Pool T} → Moves pool [] pool
  move :
      {pool pool' pool'' : Pool T} {ts us : List T}
      → Move pool ts pool'
      → Moves pool' us pool''
      → Moves pool (ts ++ us) pool''

-- What a step of a thread is.
pub record Stepped {ℓ} {T : Type ℓ} (pool pool' : Pool T) (i : ℕ) : Type ℓ where
  pub worker : Worker T
  pub phase : Phase T
  pub queue : Queue (Option T)
  pub here : get_elem? pool.workers i ≡ some worker
  pub turn :
      Turn worker.stop_requested pool.cancelled worker.phase pool.queue.items phase queue.items
  pub after : after_step pool i worker (phase, queue) ≡ pool'

pub worker_step-Stepped {ℓ} :
    {T : Type ℓ} (pool pool' : Pool T) (i : ℕ)
    → worker_step pool i ≡ some pool'
    → Stepped pool pool' i
unfolding worker_step step_of
worker_step-Stepped pool pool' i h = elim (Option-cases (get_elem? pool.workers i)) [
  | inl e ↦ cc (rw e at h)
  | inr (w, e) ↦
      let h' = rw e at h in
      elim (Option-cases (run_step w.stop_requested pool.cancelled pool.queue w.phase)) [
        | inl r ↦ cc (rw r at h')
        | inr ((ph, q), r) ↦ record {
          worker = w;
          phase = ph;
          queue = q;
          here = e;
          turn = run_step-Turn w.stop_requested pool.cancelled pool.queue q w.phase ph r;
          after = some-injective (rw r at h');
        }
      ]
]

module _ {ℓ} {A : Type ℓ} (weight : A → ℕ) where
  abbrev pub total : List A → ℕ
  total [] = 0
  total (x ∷ xs) = weight x + total xs

  pub total-set :
      (xs : List A) (i : ℕ) (x y : A)
      → get_elem? xs i ≡ some x
      → total (set xs i y) + weight x ≡ total xs + weight y
  total-set [] i x y h = cc
  total-set (z ∷ xs) zero x y h = rw (some-injective h) (omega arith)
  total-set (z ∷ xs) (suc i) x y h = omega (arith, total-set xs i x y h)

  pub total-append : (xs ys : List A) → total (xs ++ ys) ≡ total xs + total ys
  total-append [] ys = omega arith
  total-append (x ∷ xs) ys = omega (arith, total-append xs ys)

module _ {ℓ} {A : Type ℓ} where
  -- What stands at a place of a list after a write.
  pub get_elem?-set :
      (xs : List A) (i j : ℕ) (x y : A)
      → get_elem? (set xs i x) j ≡ some y
      → ((i ≡ j) × (x ≡ y)) ⊎ (get_elem? xs j ≡ some y)
  get_elem?-set [] i j x y h = inr h
  get_elem?-set (z ∷ xs) zero zero x y h = inl (refl, some-injective h)
  get_elem?-set (z ∷ xs) zero (suc j) x y h = inr h
  get_elem?-set (z ∷ xs) (suc i) zero x y h = inr h
  get_elem?-set (z ∷ xs) (suc i) (suc j) x y h = elim (get_elem?-set xs i j x y h) [
    | inl (e, f) ↦ inl (ap suc e, f)
    | inr e ↦ inr e
  ]
