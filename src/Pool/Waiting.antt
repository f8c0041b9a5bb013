-- ===== src/Pool/Waiting.antt =====
-- When `wait` has joined the threads, `done()` holds.
use dottorrent.Base.{
  ℕ, zero, suc, ◌≡◌, refl, Bool, true, false, Option, some, List, [], ◌∷◌, get_elem?, set, length,
  length-set, arith, inl, inr, ◌⊎◌, sym, ap, subst, ◌∙◌,
}
use dottorrent.Pool.{
  Phase, Worker, Pool, looping, popping, working, leaving, draining, handling, marking, sizing,
  emptying, finished, failed, mark, is_finished, all_joinable, all_done, done, stop_worker, joining,
  returned, wait_step,
}
use dottorrent.Pool.Turn.{
  Turn, goes_on, leaves, wakes_up, takes, works_off, skips, drains, runs_dry, meets_wake,
  takes_pending, handles, marks, sees_none, sees_some, ends, drops, fails, some-injective,
}
use dottorrent.Pool.Family.{
  Move, Moves, works, produces, wakes, tries_wake, stops, cancels, at_rest, move, Stepped,
  worker_step-Stepped, get_elem?-set,
}

-- A flag that is set stays set.
set_keeps :
    (flags : List Bool) (i j : ℕ)
    → get_elem? flags j ≡ some true
    → get_elem? (set flags i true) j ≡ some true
set_keeps [] i j h = h
set_keeps (b ∷ flags) zero zero h = refl
set_keeps (b ∷ flags) zero (suc j) h = h
set_keeps (b ∷ flags) (suc i) zero h = h
set_keeps (b ∷ flags) (suc i) (suc j) h = set_keeps flags i j h

module _ {ℓ} {T : Type ℓ} where
  -- A thread behind `done_[thread_idx] = true`.
  abbrev pub is_past : Phase T → Bool
  is_past sizing = true
  is_past emptying = true
  is_past finished = true
  is_past (failed t) = true
  is_past _ = false

  pub record IsMarked (pool : Pool T) : Type ℓ where
    pub is_started : pool.started ≡ true
    pub flags : length pool.done_flags ≡ length pool.workers
    pub marked :
        (i : ℕ) (w : Worker T)
        → get_elem? pool.workers i ≡ some w
        → is_past w.phase ≡ true
        → get_elem? pool.done_flags i ≡ some true

  set-true :
      (flags : List Bool) (ws : List (Worker T)) (i : ℕ) (w : Worker T)
      → length flags ≡ length ws
      → get_elem? ws i ≡ some w
      → get_elem? (set flags i true) i ≡ some true
  set-true [] [] i w n h = cc
  set-true [] (v ∷ ws) i w n h = absurd (omega arith)
  set-true (b ∷ flags) [] i w n h = cc
  set-true (b ∷ flags) (v ∷ ws) zero w n h = refl
  set-true (b ∷ flags) (v ∷ ws) (suc i) w n h = set-true flags ws i w (omega arith) h

  mark_keeps :
      (ph : Phase T) (flags : List Bool) (i j : ℕ)
      → get_elem? flags j ≡ some true
      → get_elem? (mark ph flags i) j ≡ some true
  mark_keeps marking flags i j h = set_keeps flags i j h
  mark_keeps looping flags i j h = h
  mark_keeps popping flags i j h = h
  mark_keeps (working t) flags i j h = h
  mark_keeps leaving flags i j h = h
  mark_keeps draining flags i j h = h
  mark_keeps (handling t) flags i j h = h
  mark_keeps sizing flags i j h = h
  mark_keeps emptying flags i j h = h
  mark_keeps finished flags i j h = h
  mark_keeps (failed t) flags i j h = h

  length-mark : (ph : Phase T) (flags : List Bool) (i : ℕ) → length (mark ph flags i) ≡ length flags
  length-mark marking flags i = length-set flags i true
  length-mark looping flags i = refl
  length-mark popping flags i = refl
  length-mark (working t) flags i = refl
  length-mark leaving flags i = refl
  length-mark draining flags i = refl
  length-mark (handling t) flags i = refl
  length-mark sizing flags i = refl
  length-mark emptying flags i = refl
  length-mark finished flags i = refl
  length-mark (failed t) flags i = refl

  -- A thread comes behind the mark only by setting it.
  Turn-past :
      {stop c : Bool} {ph ph' : Phase T} {xs xs' : List (Option T)}
      → Turn stop c ph xs ph' xs'
      → is_past ph' ≡ true
      → (ph ≡ marking) ⊎ (is_past ph ≡ true)
  Turn-past (goes_on e) p = cc
  Turn-past (leaves e) p = cc
  Turn-past wakes_up p = cc
  Turn-past (takes t) p = cc
  Turn-past (works_off t) p = cc
  Turn-past (skips e) p = cc
  Turn-past (drains e) p = cc
  Turn-past runs_dry p = cc
  Turn-past meets_wake p = cc
  Turn-past (takes_pending t) p = cc
  Turn-past (handles t) p = cc
  Turn-past marks p = inl refl
  Turn-past sees_none p = inr refl
  Turn-past (sees_some x) p = inr refl
  Turn-past ends p = inr refl
  Turn-past drops p = inr refl
  Turn-past (fails t) p = inr refl

  step-IsMarked :
      {pool pool' : Pool T} {i : ℕ} → Stepped pool pool' i → IsMarked pool → IsMarked pool'
  step-IsMarked {pool} {pool'} {i} s m =
      let w = s.worker in
      let w' : Worker T = record w { phase = s.phase } in
      subst IsMarked (s.after) (record {
        is_started = m.is_started;
        flags =
            length-mark w.phase pool.done_flags i ∙ (m.flags ∙ sym (length-set pool.workers i w'));
        marked = λ j v h p. elim (get_elem?-set pool.workers i j w' v h) [
          | inl (e, f) ↦ elim (Turn-past (s.turn) (ap (λ u. is_past u.phase) f ∙ p)) [
            | inl at_mark ↦
                subst (λ k. get_elem? (mark w.phase pool.done_flags i) k ≡ some true) e
                  (subst (λ ph. get_elem? (mark ph pool.done_flags i) i ≡ some true) (sym at_mark)
                    (set-true pool.done_flags pool.workers i w (m.flags) (s.here)))
            | inr past ↦
                subst (λ k. get_elem? (mark w.phase pool.done_flags i) k ≡ some true) e
                  (mark_keeps w.phase pool.done_flags i i (m.marked i w (s.here) past))
          ]
          | inr h' ↦ mark_keeps w.phase pool.done_flags i j (m.marked j v h' p)
        ];
      })

  Move-IsMarked :
      {pool pool' : Pool T} {ts : List T} → Move pool ts pool' → IsMarked pool → IsMarked pool'
  Move-IsMarked {pool} {pool'} (works i h) m = step-IsMarked (worker_step-Stepped pool pool' i h) m
  Move-IsMarked (produces t q h) m = record {
    is_started = m.is_started;
    flags = m.flags;
    marked = m.marked;
  }
  Move-IsMarked (wakes q h) m = record {
    is_started = m.is_started;
    flags = m.flags;
    marked = m.marked;
  }
  Move-IsMarked tries_wake m = record {
    is_started = m.is_started;
    flags = m.flags;
    marked = m.marked;
  }
  Move-IsMarked {pool} (stops i w h) m = record {
    is_started = m.is_started;
    flags = m.flags ∙ sym (length-set pool.workers i (stop_worker w));
    marked = λ j v g p. elim (get_elem?-set pool.workers i j (stop_worker w) v g) [
      | inl (e, f) ↦
          subst (λ k. get_elem? pool.done_flags k ≡ some true) e
            (m.marked i w h (ap (λ u. is_past u.phase) f ∙ p))
      | inr g' ↦ m.marked j v g' p
    ];
  }
  Move-IsMarked cancels m = record { is_started = m.is_started; flags = m.flags; marked = m.marked }

  pub moves-IsMarked :
      {pool pool' : Pool T} {ts : List T} → Moves pool ts pool' → IsMarked pool → IsMarked pool'
  moves-IsMarked at_rest m = m
  moves-IsMarked (move mv ms) m = moves-IsMarked ms (Move-IsMarked mv m)

  finished_past : (ph : Phase T) → is_finished ph ≡ true → is_past ph ≡ true
  finished_past finished h = refl
  finished_past looping h = cc
  finished_past popping h = cc
  finished_past (working t) h = cc
  finished_past leaving h = cc
  finished_past draining h = cc
  finished_past (handling t) h = cc
  finished_past marking h = cc
  finished_past sizing h = refl
  finished_past emptying h = refl
  finished_past (failed t) h = refl

  joined_done :
      (ws : List (Worker T)) (flags : List Bool)
      → length flags ≡ length ws
      → all_joinable ws ≡ true
      → ((i : ℕ) (w : Worker T)
          → get_elem? ws i ≡ some w
          → is_past w.phase ≡ true
          → get_elem? flags i ≡ some true)
      → all_done flags ≡ true
  unfolding all_joinable all_done
  joined_done [] [] n j m = refl
  joined_done [] (b ∷ flags) n j m = absurd (omega arith)
  joined_done (w ∷ ws) [] n j m = absurd (omega arith)
  joined_done (w ∷ ws) (b ∷ flags) n j m =
      let first : is_finished w.phase ≡ true = ground arith in
      let others : all_joinable ws ≡ true = ground arith in
      rw (some-injective (m 0 w refl (finished_past w.phase first)))
        (joined_done ws flags (omega arith) others (λ i v h p. m (suc i) v h p))

  finished_done :
      (pool : Pool T) → IsMarked pool → all_joinable pool.workers ≡ true → done pool ≡ true
  unfolding done
  finished_done pool m j =
      let flags = joined_done pool.workers pool.done_flags (m.flags) j (m.marked) in
      let started = m.is_started in ground arith

  -- From a started pool whose flags are set by the threads alone, after every interleaving: the check at
  -- the end of `wait` holds. The call returns from the joins, and never with its check unmet.
  pub wait_returns :
      {pool pool' : Pool T} {ts : List T}
      → Moves pool ts pool'
      → IsMarked pool
      → all_joinable pool'.workers ≡ true
      → wait_step pool' joining ≡ some (pool', returned)
  unfolding wait_step
  wait_returns {pool} {pool'} ms m j = rw (j, finished_done pool' (moves-IsMarked ms m) j) refl
