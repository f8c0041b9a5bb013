-- ===== src/Pool/Single.antt =====
-- Pools of one thread, as the writers and verifiers of pieces use them: work is done in the order of the
-- queue.
use dottorrent.Base.{
  ℕ, zero, suc, ◌≡◌, refl, Bool, Option, none, some, List, [], ◌∷◌, ◌++◌, append-nil, append_assoc,
  get_elem?, set, length, length-set, arith, inl, inr, sym, ap, subst, ◌∙◌,
}
use dottorrent.Queue.{Queue, try_push}
use dottorrent.Pool.{Phase, Worker, Pool, working, handling, failed, invocation, stop_worker}
use dottorrent.Pool.Turn.{
  Turn, goes_on, leaves, wakes_up, takes, works_off, skips, drains, runs_dry, meets_wake,
  takes_pending, handles, marks, sees_none, sees_some, ends, drops, fails, some-injective,
}
use dottorrent.Pool.Family.{
  Move, Moves, works, produces, wakes, tries_wake, stops, cancels, at_rest, move, Stepped,
  worker_step-Stepped,
}
use dottorrent.Pool.Conserved.{push-items, try_push-items}

module _ {ℓ} {T : Type ℓ} where
  abbrev pub in_hand : Phase T → List T
  in_hand (working t) = t ∷ []
  in_hand (handling t) = t ∷ []
  in_hand (failed t) = t ∷ []
  in_hand _ = []

  -- The work in a queue.
  abbrev pub work_of : List (Option T) → List T
  work_of [] = []
  work_of (none ∷ xs) = work_of xs
  work_of (some t ∷ xs) = t ∷ work_of xs

  abbrev pub in_hands : List (Worker T) → List T
  in_hands [] = []
  in_hands (w ∷ ws) = in_hand w.phase ++ in_hands ws

  -- All the work of a pool, in order: done, in hands, and in the queue.
  abbrev pub all_work : Pool T → List T
  all_work pool = pool.invoked ++ (in_hands pool.workers ++ work_of pool.queue.items)

  Turn-order :
      {stop c : Bool} {ph ph' : Phase T} {xs xs' : List (Option T)}
      → Turn stop c ph xs ph' xs'
      → in_hand ph ++ work_of xs ≡ invocation ph ++ (in_hand ph' ++ work_of xs')
  Turn-order (goes_on e) = refl
  Turn-order (leaves e) = refl
  Turn-order wakes_up = refl
  Turn-order (takes t) = refl
  Turn-order (works_off t) = refl
  Turn-order (skips e) = refl
  Turn-order (drains e) = refl
  Turn-order runs_dry = refl
  Turn-order meets_wake = refl
  Turn-order (takes_pending t) = refl
  Turn-order (handles t) = refl
  Turn-order marks = refl
  Turn-order sees_none = refl
  Turn-order (sees_some x) = refl
  Turn-order ends = refl
  Turn-order drops = refl
  Turn-order (fails t) = refl

  pub only_one :
      (ws : List (Worker T)) (i : ℕ) (w w' : Worker T)
      → length ws ≡ 1
      → get_elem? ws i ≡ some w
      → (ws ≡ w ∷ []) × (set ws i w' ≡ w' ∷ [])
  only_one [] i w w' n h = cc
  only_one (v ∷ []) zero w w' n h = (ap (λ u. u ∷ []) (some-injective h), refl)
  only_one (v ∷ []) (suc i) w w' n h = cc
  only_one (v ∷ u ∷ ws) i w w' n h = absurd (omega arith)

  work_of-append :
      (xs : List (Option T)) (x : Option T)
      → work_of (xs ++ x ∷ []) ≡ work_of xs ++ work_of (x ∷ [])
  work_of-append [] x = refl
  work_of-append (none ∷ xs) x = work_of-append xs x
  work_of-append (some t ∷ xs) x = ap (◌∷◌ t) (work_of-append xs x)

  in_hands-one : (w : Worker T) (xs : List T) → in_hands (w ∷ []) ++ xs ≡ in_hand w.phase ++ xs
  in_hands-one w xs = ap (λ l. l ++ xs) (append-nil (in_hand w.phase))

  pub Stepped-order :
      {pool pool' : Pool T} {i : ℕ}
      → Stepped pool pool' i
      → length pool.workers ≡ 1
      → (all_work pool' ≡ all_work pool) × (length pool'.workers ≡ 1)
  Stepped-order {pool} {pool'} {i} s one =
      let w = s.worker in
      let w' : Worker T = record w { phase = s.phase } in
      let alone = only_one pool.workers i w w' one (s.here) in
      let old = work_of pool.queue.items in
      let new = work_of s.queue.items in
      subst (λ p. (all_work p ≡ all_work pool) × (length p.workers ≡ 1)) (s.after)
        (
          append_assoc pool.invoked (invocation w.phase) (in_hands (set pool.workers i w') ++ new)
              ∙ ap (λ l. pool.invoked ++ l)
                  (ap (λ l. invocation w.phase ++ (in_hands l ++ new)) (alone.1)
                    ∙ (ap (λ l. invocation w.phase ++ l) (in_hands-one w' new)
                        ∙ (sym (Turn-order (s.turn))
                            ∙ (sym (in_hands-one w old)
                                ∙ ap (λ l. in_hands l ++ old) (sym (alone.0)))))),
          ap length (alone.1),
        )

  in_hands-stop :
      (ws : List (Worker T)) (i : ℕ) (w : Worker T)
      → get_elem? ws i ≡ some w
      → in_hands (set ws i (stop_worker w)) ≡ in_hands ws
  in_hands-stop [] i w h = cc
  in_hands-stop (v ∷ ws) zero w h =
      ap (λ u. in_hand u.phase ++ in_hands ws) (sym (some-injective h))
  in_hands-stop (v ∷ ws) (suc i) w h = ap (λ l. in_hand v.phase ++ l) (in_hands-stop ws i w h)

  -- A queue with one more entry.
  all_work-enqueue :
      (pool : Pool T) (q : Queue (Option T)) (x : Option T)
      → q.items ≡ pool.queue.items ++ x ∷ []
      → all_work (record pool { queue = q }) ≡ all_work pool ++ work_of (x ∷ [])
  all_work-enqueue pool q x e =
      let hands = in_hands pool.workers in
      let old = work_of pool.queue.items in
      ap (λ l. pool.invoked ++ (hands ++ work_of l)) e
      ∙ (ap (λ l. pool.invoked ++ (hands ++ l)) (work_of-append pool.queue.items x)
          ∙ (ap (λ l. pool.invoked ++ l) (sym (append_assoc hands old (work_of (x ∷ []))))
              ∙ sym (append_assoc pool.invoked (hands ++ old) (work_of (x ∷ [])))))

  Move-order :
      {pool pool' : Pool T} {ts : List T}
      → Move pool ts pool'
      → length pool.workers ≡ 1
      → (all_work pool' ≡ all_work pool ++ ts) × (length pool'.workers ≡ 1)
  Move-order {pool} {pool'} (works i h) one =
      let r = Stepped-order (worker_step-Stepped pool pool' i h) one in
      ((r.0) ∙ sym (append-nil (all_work pool)), r.1)
  Move-order {pool} (produces t q h) one =
      (all_work-enqueue pool q (some t) (push-items pool.queue q (some t) h), one)
  Move-order {pool} (wakes q h) one =
      (all_work-enqueue pool q none (push-items pool.queue q none h), one)
  Move-order {pool} tries_wake one = elim (try_push-items pool.queue none) [
    | inl e ↦ (
      ap (λ l. pool.invoked ++ (in_hands pool.workers ++ work_of l)) e
          ∙ sym (append-nil (all_work pool)),
      one,
    )
    | inr e ↦ (all_work-enqueue pool ((try_push pool.queue none).1) none e, one)
  ]
  Move-order {pool} (stops i w h) one = (
    ap (λ l. pool.invoked ++ (l ++ work_of pool.queue.items)) (in_hands-stop pool.workers i w h)
        ∙ sym (append-nil (all_work pool)),
    length-set pool.workers i (stop_worker w) ∙ one,
  )
  Move-order {pool} cancels one = (sym (append-nil (all_work pool)), one)

  -- A pool of one thread hands the items to the work function in the order in which they were pushed,
  -- each once, through every interleaving of its steps, pushes, stops and cancellation: what is done,
  -- in hands and queued, read in this order, only grows at the end by what is pushed.
  pub single_order :
      {pool pool' : Pool T} {ts : List T}
      → Moves pool ts pool'
      → length pool.workers ≡ 1
      → all_work pool' ≡ all_work pool ++ ts
  single_order {pool} at_rest one = sym (append-nil (all_work pool))
  single_order {pool} (move {ts} {us} m ms) one =
      let r = Move-order m one in
      single_order ms (r.1) ∙ (ap (λ l. l ++ us) (r.0) ∙ append_assoc (all_work pool) ts us)
