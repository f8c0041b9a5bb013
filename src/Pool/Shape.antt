-- ===== src/Pool/Shape.antt =====
-- What the threads rely on of the order in which work and wake-ups stand in the queue.
use dottorrent.Base.{
  ◌≡◌, refl, Bool, true, false, Option, none, some, List, [], ◌∷◌, ◌++◌, inl, inr, Bool-cases,
}
use dottorrent.Pool.{
  Phase, looping, popping, working, leaving, draining, handling, marking, sizing, emptying,
  finished, failed,
}
use dottorrent.Pool.Turn.{
  Turn, goes_on, leaves, wakes_up, takes, works_off, skips, drains, runs_dry, meets_wake,
  takes_pending, handles, marks, sees_none, sees_some, ends, drops, fails,
}

module _ {ℓ} {T : Type ℓ} where
  -- Only wake-ups, only work, and work in front of wake-ups.
  abbrev pub no_work : List (Option T) → Bool
  no_work [] = true
  no_work (none ∷ xs) = no_work xs
  no_work (some t ∷ xs) = false

  abbrev pub only_work : List (Option T) → Bool
  only_work [] = true
  only_work (none ∷ xs) = false
  only_work (some t ∷ xs) = only_work xs

  abbrev pub work_first : List (Option T) → Bool
  work_first [] = true
  work_first (none ∷ xs) = no_work xs
  work_first (some t ∷ xs) = work_first xs

  -- What a thread in a phase says of the queue, and whether the producers have ended.
  abbrev pub IsFine : Bool → List (Option T) → Phase T → Type 0
  IsFine closed xs leaving = closed ≡ true
  IsFine closed xs draining = closed ≡ true
  IsFine closed xs (handling t) = closed ≡ true
  IsFine closed xs marking = (closed ≡ true) × (no_work xs ≡ true)
  IsFine closed xs sizing = (closed ≡ true) × (no_work xs ≡ true)
  IsFine closed xs emptying = (closed ≡ true) × (no_work xs ≡ true)
  IsFine closed xs finished = (closed ≡ true) × (no_work xs ≡ true)
  IsFine closed xs (failed t) = true ≡ false
  IsFine closed xs _ = Unit

  pub record IsShaped (closed : Bool) (xs : List (Option T)) : Type 0 where
    pub front : work_first xs ≡ true
    pub open_work : closed ≡ false → only_work xs ≡ true

  no_work-first : (xs : List (Option T)) → no_work xs ≡ true → work_first xs ≡ true
  no_work-first [] h = refl
  no_work-first (none ∷ xs) h = h
  no_work-first (some t ∷ xs) h = cc

  pub only_work-first : (xs : List (Option T)) → only_work xs ≡ true → work_first xs ≡ true
  only_work-first [] h = refl
  only_work-first (none ∷ xs) h = cc
  only_work-first (some t ∷ xs) h = only_work-first xs h

  -- An item that leaves the queue.
  IsShaped-tail :
      {closed : Bool} (x : Option T) (xs : List (Option T))
      → IsShaped closed (x ∷ xs)
      → IsShaped closed xs
  IsShaped-tail none xs s = record {
    front = no_work-first xs (s.front);
    open_work = λ o. absurd (cc (s.open_work o));
  }
  IsShaped-tail (some t) xs s = record { front = s.front; open_work = s.open_work }

  pub record Kept (closed : Bool) (xs xs' : List (Option T)) (ph' : Phase T) : Type 0 where
    pub shaped : IsShaped closed xs'
    pub fine : IsFine closed xs' ph'
    pub others : no_work xs ≡ true → no_work xs' ≡ true

  pub Turn-keeps :
      {closed stop : Bool} {ph ph' : Phase T} {xs xs' : List (Option T)}
      → Turn stop false ph xs ph' xs'
      → (closed ≡ false → stop ≡ false)
      → IsShaped closed xs
      → IsFine closed xs ph
      → Kept closed xs xs' ph'
  Turn-keeps (goes_on e) unstopped s f = record { shaped = s; fine = tt; others = λ h. h }
  Turn-keeps {closed} (leaves e) unstopped s f = record {
    shaped = s;
    fine = elim (Bool-cases closed) [ inl c ↦ c | inr o ↦ absurd (cc (unstopped o)) ];
    others = λ h. h;
  }
  Turn-keeps {xs'} wakes_up unstopped s f = record {
    shaped = IsShaped-tail none xs' s;
    fine = tt;
    others = λ h. h;
  }
  Turn-keeps {xs'} (takes t) unstopped s f = record {
    shaped = IsShaped-tail (some t) xs' s;
    fine = tt;
    others = λ h. absurd (cc h);
  }
  Turn-keeps (works_off t) unstopped s f = record { shaped = s; fine = tt; others = λ h. h }
  Turn-keeps (skips e) unstopped s f = absurd (cc e)
  Turn-keeps (drains e) unstopped s f = record { shaped = s; fine = f; others = λ h. h }
  Turn-keeps runs_dry unstopped s f = record { shaped = s; fine = (f, refl); others = λ h. h }
  Turn-keeps {xs'} meets_wake unstopped s f = record {
    shaped = IsShaped-tail none xs' s;
    fine = (f, s.front);
    others = λ h. h;
  }
  Turn-keeps {xs'} (takes_pending t) unstopped s f = record {
    shaped = IsShaped-tail (some t) xs' s;
    fine = f;
    others = λ h. absurd (cc h);
  }
  Turn-keeps (handles t) unstopped s f = record { shaped = s; fine = f; others = λ h. h }
  Turn-keeps marks unstopped s f = record { shaped = s; fine = f; others = λ h. h }
  Turn-keeps sees_none unstopped s f = record { shaped = s; fine = f; others = λ h. h }
  Turn-keeps (sees_some x) unstopped s f = record { shaped = s; fine = f; others = λ h. h }
  Turn-keeps ends unstopped s f = record { shaped = s; fine = f; others = λ h. h }
  Turn-keeps {xs'} drops unstopped s f = record {
    shaped = IsShaped-tail none xs' s;
    fine = f;
    others = λ h. h;
  }
  Turn-keeps (fails t) unstopped s f = absurd (cc (f.1))

  pub IsFine-others :
      (closed : Bool) (xs xs' : List (Option T)) (ph : Phase T)
      → (no_work xs ≡ true → no_work xs' ≡ true)
      → IsFine closed xs ph
      → IsFine closed xs' ph
  IsFine-others closed xs xs' looping k f = tt
  IsFine-others closed xs xs' popping k f = tt
  IsFine-others closed xs xs' (working t) k f = tt
  IsFine-others closed xs xs' leaving k f = f
  IsFine-others closed xs xs' draining k f = f
  IsFine-others closed xs xs' (handling t) k f = f
  IsFine-others closed xs xs' marking k f = (f.0, k (f.1))
  IsFine-others closed xs xs' sizing k f = (f.0, k (f.1))
  IsFine-others closed xs xs' emptying k f = (f.0, k (f.1))
  IsFine-others closed xs xs' finished k f = (f.0, k (f.1))
  IsFine-others closed xs xs' (failed t) k f = f

  -- While producers may work, no thread is in a phase that looks at the queue's end.
  pub IsFine-open :
      (xs xs' : List (Option T)) (ph : Phase T) → IsFine false xs ph → IsFine false xs' ph
  IsFine-open xs xs' looping f = tt
  IsFine-open xs xs' popping f = tt
  IsFine-open xs xs' (working t) f = tt
  IsFine-open xs xs' leaving f = f
  IsFine-open xs xs' draining f = f
  IsFine-open xs xs' (handling t) f = f
  IsFine-open xs xs' marking f = absurd (cc (f.0))
  IsFine-open xs xs' sizing f = absurd (cc (f.0))
  IsFine-open xs xs' emptying f = absurd (cc (f.0))
  IsFine-open xs xs' finished f = absurd (cc (f.0))
  IsFine-open xs xs' (failed t) f = f

  pub IsFine-close :
      (closed : Bool) (xs : List (Option T)) (ph : Phase T)
      → IsFine closed xs ph
      → IsFine true xs ph
  IsFine-close true xs ph f = f
  IsFine-close false xs looping f = tt
  IsFine-close false xs popping f = tt
  IsFine-close false xs (working t) f = tt
  IsFine-close false xs leaving f = refl
  IsFine-close false xs draining f = refl
  IsFine-close false xs (handling t) f = refl
  IsFine-close false xs marking f = (refl, f.1)
  IsFine-close false xs sizing f = (refl, f.1)
  IsFine-close false xs emptying f = (refl, f.1)
  IsFine-close false xs finished f = (refl, f.1)
  IsFine-close false xs (failed t) f = f

  pub no_work-append : (xs : List (Option T)) → no_work xs ≡ true → no_work (xs ++ none ∷ []) ≡ true
  no_work-append [] h = refl
  no_work-append (none ∷ xs) h = no_work-append xs h
  no_work-append (some t ∷ xs) h = cc

  pub work_first-append :
      (xs : List (Option T)) → work_first xs ≡ true → work_first (xs ++ none ∷ []) ≡ true
  work_first-append [] h = refl
  work_first-append (none ∷ xs) h = no_work-append xs h
  work_first-append (some t ∷ xs) h = work_first-append xs h

  pub only_work-append :
      (xs : List (Option T)) (t : T) → only_work xs ≡ true → only_work (xs ++ some t ∷ []) ≡ true
  only_work-append [] t h = refl
  only_work-append (none ∷ xs) t h = cc
  only_work-append (some u ∷ xs) t h = only_work-append xs t h
