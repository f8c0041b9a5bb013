-- ===== src/Base/Split.antt =====
-- Consecutive parts of a fixed size, the last of which may be shorter, and lists numbered in steps.
use Prim.Native.Nat.{ℕ, zero, suc, ◌+◌, ◌-◌, ◌*◌, ◌≤◌, ◌<◌}
use mathlib.Core.Path.{◌≡◌, refl, sym, ap, ◌∙◌}
use mathlib.Core.List.{List, [], ◌∷◌, ◌++◌, append_assoc}
use native.Mathlib.Omega.{arith}
use dottorrent.Base.Lists.{length, take, drop, length-append}

module _ {ℓ} {A : Type ℓ} where
  pub take-append : (n : ℕ) (xs ys : List A) → length xs ≡ n → take n (xs ++ ys) ≡ xs
  take-append zero [] ys h = refl
  take-append zero (x ∷ xs) ys h = absurd (omega arith)
  take-append (suc n) [] ys h = absurd (omega arith)
  take-append (suc n) (x ∷ xs) ys h = ap (◌∷◌ x) (take-append n xs ys (omega arith))

  pub drop-append : (n : ℕ) (xs ys : List A) → length xs ≡ n → drop n (xs ++ ys) ≡ ys
  drop-append zero [] ys h = refl
  drop-append zero (x ∷ xs) ys h = absurd (omega arith)
  drop-append (suc n) [] ys h = absurd (omega arith)
  drop-append (suc n) (x ∷ xs) ys h = drop-append n xs ys (omega arith)

  pub take-drop : (n : ℕ) (xs : List A) → take n xs ++ drop n xs ≡ xs
  take-drop zero xs = refl
  take-drop (suc n) [] = refl
  take-drop (suc n) (x ∷ xs) = ap (◌∷◌ x) (take-drop n xs)

  pub take_all : (n : ℕ) (xs : List A) → length xs ≤ n → take n xs ≡ xs
  take_all zero [] h = refl
  take_all zero (x ∷ xs) h = absurd (omega arith)
  take_all (suc n) [] h = refl
  take_all (suc n) (x ∷ xs) h = ap (◌∷◌ x) (take_all n xs (omega arith))

  pub drop_all : (n : ℕ) (xs : List A) → length xs ≤ n → drop n xs ≡ []
  drop_all zero [] h = refl
  drop_all zero (x ∷ xs) h = absurd (omega arith)
  drop_all (suc n) [] h = refl
  drop_all (suc n) (x ∷ xs) h = drop_all n xs (omega arith)

  pub length-take : (n : ℕ) (xs : List A) → n ≤ length xs → length (take n xs) ≡ n
  length-take zero xs h = refl
  length-take (suc n) [] h = absurd (omega arith)
  length-take (suc n) (x ∷ xs) h = ap suc (length-take n xs (omega arith))

  pub length-drop : (n : ℕ) (xs : List A) → length (drop n xs) ≡ length xs - n
  length-drop zero xs = omega arith
  length-drop (suc n) [] = omega arith
  length-drop (suc n) (x ∷ xs) = omega (arith, length-drop n xs)

  drop_nil : (k : ℕ) → drop {A = A} k [] ≡ []
  drop_nil zero = refl
  drop_nil (suc k) = refl

  pub drop-drop : (m n : ℕ) (xs : List A) → drop n (drop m xs) ≡ drop (m + n) xs
  drop-drop zero n xs = let e : n ≡ 0 + n = omega arith in ap (λ k. drop k xs) e
  drop-drop (suc m) n [] = drop_nil n ∙ sym (drop_nil (suc m + n))
  drop-drop (suc m) n (x ∷ xs) =
      let e : suc (m + n) ≡ suc m + n = omega arith in
      drop-drop m n xs ∙ ap (λ k. drop k (x ∷ xs)) e

  -- The parts, with fuel for them.
  unfoldable pub split_fuel : ℕ → ℕ → List A → List (List A)
  split_fuel zero n xs = []
  split_fuel (suc fuel) n [] = []
  split_fuel (suc fuel) n (x ∷ xs) = take n (x ∷ xs) ∷ split_fuel fuel n (drop n (x ∷ xs))

  -- The consecutive parts of `n` entries, and what is left as the last part if anything is.
  abbrev pub split : ℕ → List A → List (List A)
  split n xs = split_fuel (length xs) n xs

  pub split_fuel_any :
      (fuel more n : ℕ) (xs : List A)
      → 0 < n
      → length xs ≤ fuel
      → length xs ≤ more
      → split_fuel fuel n xs ≡ split_fuel more n xs
  unfolding split_fuel
  split_fuel_any zero zero n xs p h k = refl
  split_fuel_any zero (suc more) n [] p h k = refl
  split_fuel_any zero (suc more) n (x ∷ xs) p h k = absurd (omega arith)
  split_fuel_any (suc fuel) zero n [] p h k = refl
  split_fuel_any (suc fuel) zero n (x ∷ xs) p h k = absurd (omega arith)
  split_fuel_any (suc fuel) (suc more) n [] p h k = refl
  split_fuel_any (suc fuel) (suc more) n (x ∷ xs) p h k =
      let d = length-drop n (x ∷ xs) in
      ap (◌∷◌ (take n (x ∷ xs)))
        (split_fuel_any fuel more n (drop n (x ∷ xs)) p (omega arith) (omega arith))

  pub split-nil : (n : ℕ) → split n [] ≡ []
  unfolding split_fuel
  split-nil n = refl

  -- The first part of a list that is not empty.
  pub split-step :
      (n : ℕ) (xs : List A) → 0 < n → 0 < length xs → split n xs ≡ take n xs ∷ split n (drop n xs)
  unfolding split_fuel
  split-step n [] p h = absurd (omega arith)
  split-step n (x ∷ xs) p h =
      let d = length-drop n (x ∷ xs) in
      ap (◌∷◌ (take n (x ∷ xs))) (
        split_fuel_any (length xs) (length (drop n (x ∷ xs))) n (drop n (x ∷ xs)) p (omega arith)
          (omega arith))

  -- A full part in front.
  pub split-full :
      (n : ℕ) (xs ys : List A) → 0 < n → length xs ≡ n → split n (xs ++ ys) ≡ xs ∷ split n ys
  split-full n xs ys p h =
      let l = length-append xs ys in
      split-step n (xs ++ ys) p (omega arith)
      ∙ (ap (λ l. l ∷ split n (drop n (xs ++ ys))) (take-append n xs ys h)
          ∙ ap (λ l. xs ∷ split n l) (drop-append n xs ys h))

  pub split-short : (n : ℕ) (xs : List A) → 0 < length xs → length xs ≤ n → split n xs ≡ xs ∷ []
  split-short n xs p h =
      split-step n xs (omega arith) p
      ∙ (ap (λ l. l ∷ split n (drop n xs)) (take_all n xs h)
          ∙ (ap (λ l. xs ∷ split n l) (drop_all n xs h) ∙ ap (◌∷◌ xs) (split-nil n)))

  -- The entries with numbers that start at `i` and grow by `step`.
  abbrev pub numbered : ℕ → ℕ → List A → List (ℕ × A)
  numbered step i [] = []
  numbered step i (x ∷ xs) = (i, x) ∷ numbered step (i + step) xs

  -- A part that is a whole number of parts in front.
  pub split-append :
      (n q : ℕ) (xs ys : List A)
      → 0 < n
      → length xs ≡ n * q
      → (split n (xs ++ ys) ≡ split n xs ++ split n ys) × (length (split n xs) ≡ q)
  unfolding split_fuel
  split-append n zero [] ys p h = (refl, refl)
  split-append n zero (x ∷ xs) ys p h = absurd (omega arith)
  split-append n (suc q) xs ys p h =
      let d = length-drop n xs in
      let t = length-take n xs (omega (arith, h)) in
      let (rest, many) = split-append n q (drop n xs) ys p (omega (arith, d, h)) in
      let first = split-full n (take n xs) (drop n xs) p t in
      let whole = ap (split n) (sym (take-drop n xs)) ∙ first in
      (
        ap (λ l. split n (l ++ ys)) (sym (take-drop n xs))
            ∙ (ap (split n) (append_assoc (take n xs) (drop n xs) ys)
                ∙ (split-full n (take n xs) (drop n xs ++ ys) p t
                    ∙ (ap (◌∷◌ (take n xs)) rest ∙ ap (λ l. l ++ split n ys) (sym whole)))),
        ap length whole ∙ ap suc many,
      )

  pub length-split_short :
      (n : ℕ) (xs : List A) → 0 < length xs → length xs ≤ n → length (split n xs) ≡ 1
  length-split_short n xs p h = ap length (split-short n xs p h)

  pub numbered-append :
      (step i : ℕ) (xs ys : List A)
      → numbered step i (xs ++ ys) ≡ numbered step i xs ++ numbered step (i + step * length xs) ys
  numbered-append step i [] ys =
      let e : i ≡ i + step * 0 = omega arith in ap (λ k. numbered step k ys) e
  numbered-append step i (x ∷ xs) ys =
      let e : i + step + step * length xs ≡ i + step * suc (length xs) = omega arith in
      ap (◌∷◌ (i, x)) (
        numbered-append step (i + step) xs ys
        ∙ ap (λ k. numbered step (i + step) xs ++ numbered step k ys) e)
