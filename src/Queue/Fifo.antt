-- ===== src/Queue/Fifo.antt =====
-- Any interleaving of calls on a queue hands the items out in the order in which they went in.
use dottorrent.Base.{
  ℕ, ◌≤◌, ◌<◌, ◌≡◌, refl, true, false, none, some, List, [], ◌∷◌, ◌++◌, append_assoc, append-nil,
  length, length-append, ltb, ◌==◌, arith, Bool-cases, inl, inr, sym, subst, ap, ◌∙◌, ltb→lt,
}
use dottorrent.Queue.{Queue, push, try_push, pop, try_pop, set_capacity, enqueue, dequeue}

some-injective {ℓ} : {A : Type ℓ} {v w : A} → some v ≡ some w → v ≡ w
some-injective h = cc

-- One call of some thread that gets the mutex: the queue before, what went in, what came out, the queue
-- after. A call that waits makes no step.
pub data Step {ℓ} {A : Type ℓ} : Queue A → List A → List A → Queue A → Type ℓ where
  pushes : {q q' : Queue A} (x : A) → push q x ≡ some q' → Step q (x ∷ []) [] q'
  tries_push : {q q' : Queue A} (x : A) → try_push q x ≡ (true, q') → Step q (x ∷ []) [] q'
  fails_push : {q q' : Queue A} (x : A) → try_push q x ≡ (false, q') → Step q [] [] q'
  pops : {q q' : Queue A} {x : A} → pop q ≡ some (x, q') → Step q [] (x ∷ []) q'
  tries_pop : {q q' : Queue A} {x : A} → try_pop q ≡ some (x, q') → Step q [] (x ∷ []) q'
  fails_pop : {q : Queue A} → try_pop q ≡ none → Step q [] [] q
  resizes : {q : Queue A} (n : ℕ) → Step q [] [] (set_capacity q n)

-- A sequence of calls, with all that went in and all that came out.
pub data Calls {ℓ} {A : Type ℓ} : Queue A → List A → List A → Queue A → Type ℓ where
  idle : {q : Queue A} → Calls q [] [] q
  call :
      {q q' q'' : Queue A} {xs ys xs' ys' : List A}
      → Step q xs ys q'
      → Calls q' xs' ys' q''
      → Calls q (xs ++ xs') (ys ++ ys') q''

module _ {ℓ} {A : Type ℓ} where
  push_items :
      (q q' : Queue A) (x : A)
      → push q x ≡ some q'
      → (q'.items ≡ q.items ++ x ∷ [])
        × ((q'.capacity ≡ q.capacity) × (length q.items < q.capacity))
  unfolding push
  push_items q q' x h = elim (Bool-cases (ltb (length q.items) q.capacity)) [
    | inl e ↦
        let same : enqueue q x ≡ q' = cc (rw e at h) in
        (ap (λ r. r.items) (sym same), (ap (λ r. r.capacity) (sym same), ltb→lt _ _ e))
    | inr e ↦ cc (rw e at h)
  ]

  try_push_items :
      (q q' : Queue A) (x : A)
      → try_push q x ≡ (true, q')
      → (q'.items ≡ q.items ++ x ∷ [])
        × ((q'.capacity ≡ q.capacity) × ((length q.items == q.capacity) ≡ false))
  unfolding try_push
  try_push_items q q' x h = elim (Bool-cases (length q.items == q.capacity)) [
    | inl e ↦ cc (rw e at h)
    | inr e ↦
        let same : enqueue q x ≡ q' = cc (rw e at h) in
        (ap (λ r. r.items) (sym same), (ap (λ r. r.capacity) (sym same), e))
  ]

  try_push_same : (q q' : Queue A) (x : A) → try_push q x ≡ (false, q') → q ≡ q'
  unfolding try_push
  try_push_same q q' x h = elim (Bool-cases (length q.items == q.capacity)) [
    | inl e ↦ cc (rw e at h)
    | inr e ↦ cc (rw e at h)
  ]

  dequeue_items :
      (n : ℕ) (xs : List A) (q' : Queue A) (x : A)
      → dequeue n xs ≡ some (x, q')
      → (xs ≡ x ∷ q'.items) × (q'.capacity ≡ n)
  dequeue_items n [] q' x h = cc
  dequeue_items n (y ∷ ys) q' x h =
      let same = some-injective h in rw (ap (λ r. r.0) same, sym (ap (λ r. r.1) same)) (refl, refl)

  -- Nothing is lost, doubled or overtaken.
  pub fifo-Step :
      {q q' : Queue A} {xs ys : List A} → Step q xs ys q' → q.items ++ xs ≡ ys ++ q'.items
  unfolding pop try_pop set_capacity
  fifo-Step {q} {q'} (pushes x h) = sym ((push_items q q' x h).0)
  fifo-Step {q} {q'} (tries_push x h) = sym ((try_push_items q q' x h).0)
  fifo-Step {q} {q'} (fails_push x h) =
      append-nil q.items ∙ ap (λ r. r.items) (try_push_same q q' x h)
  fifo-Step {q} {q'} (pops {x} h) = append-nil q.items ∙ (dequeue_items q.capacity q.items q' x h).0
  fifo-Step {q} {q'} (tries_pop {x} h) =
      append-nil q.items ∙ (dequeue_items q.capacity q.items q' x h).0
  fifo-Step {q} (fails_pop h) = append-nil q.items
  fifo-Step {q} (resizes n) = append-nil q.items

  -- What came out, and what is still in the queue behind it, is what was in the queue and what went in
  -- behind it, in the same order, for every sequence of calls.
  pub fifo_order :
      {q q' : Queue A} {xs ys : List A} → Calls q xs ys q' → q.items ++ xs ≡ ys ++ q'.items
  fifo_order {q} idle = append-nil q.items
  fifo_order {q} (call {q'} {q''} {xs} {ys} {xs'} {ys'} s c) =
      sym (append_assoc q.items xs xs')
      ∙ (ap (λ l. l ++ xs') (fifo-Step s)
          ∙ (append_assoc ys q'.items xs'
              ∙ (ap (λ l. ys ++ l) (fifo_order c) ∙ sym (append_assoc ys ys' q''.items))))

  -- No call of the sequence sets a capacity below the number of items that are in the queue then.
  abbrev pub KeepsRoom : {q q' : Queue A} {xs ys : List A} → Calls q xs ys q' → Type 0
  KeepsRoom idle = Unit
  KeepsRoom {q} (call (resizes n) c) = (length q.items ≤ n) × KeepsRoom c
  KeepsRoom (call _ c) = KeepsRoom c

  abbrev pub Fits : Queue A → Type 0
  Fits q = length q.items ≤ q.capacity

  Fits-enqueue :
      (q q' : Queue A) (x : A)
      → (q'.items ≡ q.items ++ x ∷ [])
      → q'.capacity ≡ q.capacity
      → length q.items < q.capacity
      → Fits q'
  Fits-enqueue q q' x e c h = rw (e, c) (omega (arith, length-append q.items (x ∷ [])))

  Fits-dequeue :
      (q q' : Queue A) (x : A)
      → (q.items ≡ x ∷ q'.items)
      → q'.capacity ≡ q.capacity
      → Fits q
      → Fits q'
  Fits-dequeue q q' x e c h = omega (arith, ap length e)

  -- A queue that is within its capacity stays within it, through every sequence of calls in which
  -- no `set_capacity` goes below the number of items then queued.
  pub calls_fit :
      {q q' : Queue A} {xs ys : List A} (c : Calls q xs ys q') → KeepsRoom c → Fits q → Fits q'
  unfolding pop try_pop set_capacity
  calls_fit idle _ fit = fit
  calls_fit {q} (call {q'} (pushes x h) c) k fit =
      let p = push_items q q' x h in calls_fit c k (Fits-enqueue q q' x (p.0) (p.1.0) (p.1.1))
  calls_fit {q} (call {q'} (tries_push x h) c) k fit =
      let p = try_push_items q q' x h in
      calls_fit c k (Fits-enqueue q q' x (p.0) (p.1.0) (grind (arith, p.1.1)))
  calls_fit {q} (call {q'} (fails_push x h) c) k fit =
      calls_fit c k (subst Fits (try_push_same q q' x h) fit)
  calls_fit {q} (call {q'} (pops {x} h) c) k fit =
      let p = dequeue_items q.capacity q.items q' x h in
      calls_fit c k (Fits-dequeue q q' x (p.0) (p.1) fit)
  calls_fit {q} (call {q'} (tries_pop {x} h) c) k fit =
      let p = dequeue_items q.capacity q.items q' x h in
      calls_fit c k (Fits-dequeue q q' x (p.0) (p.1) fit)
  calls_fit (call (fails_pop h) c) k fit = calls_fit c k fit
  calls_fit (call (resizes n) c) k fit = calls_fit c (k.1) (k.0)

  -- Where `set_capacity` goes below the number of items, `try_push` takes every further item.
  pub try_push_shrunk :
      (q : Queue A) (n : ℕ) (x : A)
      → n < length q.items
      → try_push (set_capacity q n) x ≡ (true, enqueue (set_capacity q n) x)
  unfolding try_push set_capacity
  try_push_shrunk q n x h = let e : (length q.items == n) ≡ false = ground arith in rw e refl
