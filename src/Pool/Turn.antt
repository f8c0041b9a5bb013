-- ===== src/Pool/Turn.antt =====
-- The steps of `run` as a relation between a phase with the items of the queue and the next ones.
use dottorrent.Base.{
  ℕ, ◌≡◌, refl, Bool, true, false, Option, none, some, List, [], ◌∷◌, length, ◌==◌, if◌then◌else◌,
  arith, inl, inr, Bool-cases, subst, sym,
}
use dottorrent.Queue.{Queue, pop, try_pop, size, dequeue}
use dottorrent.Pool.{
  Phase, looping, popping, working, leaving, draining, handling, marking, sizing, emptying,
  finished, failed, run_step, take_work, take_pending, take_rest,
}

pub some-injective {ℓ} : {A : Type ℓ} {v w : A} → some v ≡ some w → v ≡ w
some-injective h = cc

pub data Turn {ℓ} {T : Type ℓ} (stop cancelled : Bool)
    : Phase T → List (Option T) → Phase T → List (Option T) → Type ℓ where
  goes_on : {xs : List (Option T)} → stop ≡ false → Turn stop cancelled looping xs popping xs
  leaves : {xs : List (Option T)} → stop ≡ true → Turn stop cancelled looping xs leaving xs
  wakes_up : {xs : List (Option T)} → Turn stop cancelled popping (none ∷ xs) looping xs
  takes : {xs : List (Option T)} (t : T) → Turn stop cancelled popping (some t ∷ xs) (working t) xs
  works_off : {xs : List (Option T)} (t : T) → Turn stop cancelled (working t) xs looping xs
  skips : {xs : List (Option T)} → cancelled ≡ true → Turn stop cancelled leaving xs marking xs
  drains : {xs : List (Option T)} → cancelled ≡ false → Turn stop cancelled leaving xs draining xs
  runs_dry : Turn stop cancelled draining [] marking []
  meets_wake : {xs : List (Option T)} → Turn stop cancelled draining (none ∷ xs) marking xs
  takes_pending :
      {xs : List (Option T)} (t : T) → Turn stop cancelled draining (some t ∷ xs) (handling t) xs
  handles : {xs : List (Option T)} (t : T) → Turn stop cancelled (handling t) xs draining xs
  marks : {xs : List (Option T)} → Turn stop cancelled marking xs sizing xs
  sees_none : Turn stop cancelled sizing [] finished []
  sees_some :
      {xs : List (Option T)} (x : Option T) → Turn stop cancelled sizing (x ∷ xs) emptying (x ∷ xs)
  ends : Turn stop cancelled emptying [] finished []
  drops : {xs : List (Option T)} → Turn stop cancelled emptying (none ∷ xs) emptying xs
  fails : {xs : List (Option T)} (t : T) → Turn stop cancelled emptying (some t ∷ xs) (failed t) xs

module _ {ℓ} {T : Type ℓ} (stop c : Bool) where
  abbrev TurnTo : Phase T → List (Option T) → Phase T × Queue (Option T) → Type ℓ
  TurnTo ph xs r = Turn stop c ph xs (r.0) (r.1.items)

  turn_looping :
      (q : Queue (Option T)) → TurnTo looping q.items (if stop then leaving else popping, q)
  turn_looping q = elim (Bool-cases stop) [
    | inl e ↦
        subst (λ b. TurnTo looping q.items (if b then leaving else popping, q)) (sym e) (leaves e)
    | inr e ↦
        subst (λ b. TurnTo looping q.items (if b then leaving else popping, q)) (sym e) (goes_on e)
  ]

  turn_leaving :
      (q : Queue (Option T)) → TurnTo leaving q.items (if c then marking else draining, q)
  turn_leaving q = elim (Bool-cases c) [
    | inl e ↦
        subst (λ b. TurnTo leaving q.items (if b then marking else draining, q)) (sym e) (skips e)
    | inr e ↦
        subst (λ b. TurnTo leaving q.items (if b then marking else draining, q)) (sym e) (drains e)
  ]

  turn_popping :
      (n : ℕ) (xs : List (Option T)) (r : Phase T × Queue (Option T))
      → take_work (dequeue n xs) ≡ some r
      → TurnTo popping xs r
  turn_popping n [] r h = cc
  turn_popping n (none ∷ xs) r h = subst (TurnTo popping (none ∷ xs)) (some-injective h) wakes_up
  turn_popping n (some t ∷ xs) r h =
      subst (TurnTo popping (some t ∷ xs)) (some-injective h) (takes t)

  turn_draining :
      (n : ℕ) (xs : List (Option T)) (q : Queue (Option T))
      → q.items ≡ xs
      → TurnTo draining xs (take_pending (dequeue n xs) q)
  turn_draining n [] q e = subst (λ l. Turn stop c draining [] marking l) (sym e) runs_dry
  turn_draining n (none ∷ xs) q e = meets_wake
  turn_draining n (some t ∷ xs) q e = takes_pending t

  turn_emptying :
      (n : ℕ) (xs : List (Option T)) (q : Queue (Option T))
      → q.items ≡ xs
      → TurnTo emptying xs (take_rest (dequeue n xs) q)
  turn_emptying n [] q e = subst (λ l. Turn stop c emptying [] finished l) (sym e) ends
  turn_emptying n (none ∷ xs) q e = drops
  turn_emptying n (some t ∷ xs) q e = fails t

  Turn-sizing :
      (xs : List (Option T))
      → Turn stop c sizing xs (if length xs == 0 then finished else emptying) xs
  Turn-sizing [] = sees_none
  Turn-sizing (x ∷ xs) =
      let ne : (length (x ∷ xs) == 0) ≡ false = ground arith in
      subst (λ b. Turn stop c sizing (x ∷ xs) (if b then finished else emptying) (x ∷ xs)) (sym ne)
        (sees_some x)

  pub run_step-Turn :
      (q q' : Queue (Option T)) (ph ph' : Phase T)
      → run_step stop c q ph ≡ some (ph', q')
      → Turn stop c ph q.items ph' q'.items
  unfolding run_step pop try_pop size
  run_step-Turn q q' looping ph' h =
      subst (TurnTo looping q.items) (some-injective h) (turn_looping q)
  run_step-Turn q q' popping ph' h = turn_popping q.capacity q.items (ph', q') h
  run_step-Turn q q' (working t) ph' h =
      subst (TurnTo (working t) q.items) (some-injective h) (works_off t)
  run_step-Turn q q' leaving ph' h =
      subst (TurnTo leaving q.items) (some-injective h) (turn_leaving q)
  run_step-Turn q q' draining ph' h =
      subst (TurnTo draining q.items) (some-injective h) (turn_draining q.capacity q.items q refl)
  run_step-Turn q q' (handling t) ph' h =
      subst (TurnTo (handling t) q.items) (some-injective h) (handles t)
  run_step-Turn q q' marking ph' h = subst (TurnTo marking q.items) (some-injective h) marks
  run_step-Turn q q' sizing ph' h =
      subst (TurnTo sizing q.items) (some-injective h) (Turn-sizing q.items)
  run_step-Turn q q' emptying ph' h =
      subst (TurnTo emptying q.items) (some-injective h) (turn_emptying q.capacity q.items q refl)
  run_step-Turn q q' finished ph' h = cc
  run_step-Turn q q' (failed t) ph' h = cc
