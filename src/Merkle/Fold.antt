-- ===== src/Merkle/Fold.antt =====
-- The hash of a subtree by recursion on its height: what the array computation is held against.
use dottorrent.Base.{ℕ, zero, suc, ◌+◌, ◌*◌, ◌^◌, ◌<◌, ◌≡◌, refl, arith}
use dottorrent.Base.Pow.{pow_step}
use mathlib.Core.Path.{ap₂}

module _ {H : Type 0} (combine : H → H → H) where
  -- The hash of the subtree of height `k` that is the `i`-th of its height, over the leaves `f`.
  abbrev pub subtree : ℕ → (ℕ → H) → ℕ → H
  subtree zero f i = f i
  subtree (suc k) f i = combine (subtree k f (2 * i)) (subtree k f (2 * i + 1))

  -- Only the leaves in range count.
  pub subtree-cong :
      (k m : ℕ) (f g : ℕ → H)
      → ((j : ℕ) → j < 2 ^ (m + k) → f j ≡ g j)
      → (i : ℕ) → i < 2 ^ m
      → subtree k f i ≡ subtree k g i
  subtree-cong zero m f g e i h = e i (let s : m + 0 ≡ m = omega arith in rw s h)
  subtree-cong (suc k) m f g e i h =
      let e' : (j : ℕ) → j < 2 ^ (suc m + k) → f j ≡ g j =
        λ j lt. e j (let s : m + suc k ≡ suc m + k = omega arith in rw s lt) in
      ap₂ combine (subtree-cong k (suc m) f g e' (2 * i) (omega (arith, pow_step m)))
        (subtree-cong k (suc m) f g e' (2 * i + 1) (omega (arith, pow_step m)))

  -- Hashing the leaves in pairs first gives a tree of one layer less.
  pub subtree-pairs :
      (k : ℕ) (f : ℕ → H) (i : ℕ)
      → subtree k (λ j. combine (f (2 * j)) (f (2 * j + 1))) i ≡ subtree (suc k) f i
  subtree-pairs zero f i = refl
  subtree-pairs (suc k) f i =
      ap₂ combine (subtree-pairs k f (2 * i)) (subtree-pairs k f (2 * i + 1))
