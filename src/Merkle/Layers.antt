-- ===== src/Merkle/Layers.antt =====
-- The loops of `update` without their checks, and what they leave in the array.
use dottorrent.Base.{
  ℕ, zero, suc, ◌+◌, ◌-◌, ◌*◌, ◌^◌, ◌≤◌, ◌<◌, ◌≡◌, refl, subst, ◌∙◌, List, arith, length, get_or,
  set, length-set, get_or-set_self, get_or-set_ne, ◌⊎◌, inl, inr,
}
use dottorrent.Base.Pow.{pow_step, pow_pos}
use mathlib.Core.Path.{ap₂}
use native.Mathlib.Decide.{dec_lt}
use dottorrent.Merkle.Fold.{subtree, subtree-cong, subtree-pairs}

module _ {H : Type 0} (initial : H) (combine : H → H → H) where
  abbrev pub at : List H → ℕ → ℕ → H
  at t layer j = get_or t (2 ^ layer - 1 + j) initial

  -- The hash of the j-th pair of the layer below `l`.
  unfoldable pub pair_hash : ℕ → List H → ℕ → H
  pair_hash l t j = combine (at t (suc l) (2 * j)) (at t (suc l) (2 * j + 1))

  -- The rounds of the inner loop from the j-th pair on, which write the layer `l`.
  unfoldable pub fill_layer : ℕ → ℕ → ℕ → List H → List H
  fill_layer l zero j t = t
  fill_layer l (suc rounds) j t =
      fill_layer l rounds (suc j) (set t (2 ^ l - 1 + j) (pair_hash l t j))

  unfoldable pub fill_layers : ℕ → List H → List H
  fill_layers zero t = t
  fill_layers (suc l) t = fill_layers l (fill_layer l (2 ^ l) 0 t)

  pub length-fill_layer :
      (l rounds j : ℕ) (t : List H) → length (fill_layer l rounds j t) ≡ length t
  unfolding fill_layer
  length-fill_layer l zero j t = refl
  length-fill_layer l (suc rounds) j t =
      length-fill_layer l rounds (suc j) _ ∙ length-set t (2 ^ l - 1 + j) (pair_hash l t j)

  pub length-fill_layers : (l : ℕ) (t : List H) → length (fill_layers l t) ≡ length t
  unfolding fill_layers
  length-fill_layers zero t = refl
  length-fill_layers (suc l) t = length-fill_layers l _ ∙ length-fill_layer l (2 ^ l) 0 t

  -- Entries outside the rounds' part of the layer stay.
  fill_layer_frame :
      (l rounds j n : ℕ) (t : List H)
      → (n < 2 ^ l - 1 + j) ⊎ (2 ^ l - 1 + j + rounds ≤ n)
      → get_or (fill_layer l rounds j t) n initial ≡ get_or t n initial
  unfolding fill_layer
  fill_layer_frame l zero j n t h = refl
  fill_layer_frame l (suc rounds) j n t h =
      fill_layer_frame l rounds (suc j) n _ (omega arith)
      ∙ get_or-set_ne t (2 ^ l - 1 + j) n (pair_hash l t j) initial (omega arith)

  -- Writing the layer `l` does not change the hash of a pair of the layer below.
  pair_hash-set :
      (l j k : ℕ) (t : List H)
      → j < 2 ^ l
      → pair_hash l (set t (2 ^ l - 1 + j) (pair_hash l t j)) k ≡ pair_hash l t k
  unfolding pair_hash
  pair_hash-set l j k t h =
      let v = pair_hash l t j in
      ap₂ combine
        (get_or-set_ne t (2 ^ l - 1 + j) (2 ^ suc l - 1 + 2 * k) v initial
          (omega (arith, pow_step l)))
        (get_or-set_ne t (2 ^ l - 1 + j) (2 ^ suc l - 1 + (2 * k + 1)) v initial
          (omega (arith, pow_step l)))

  -- An entry of the rounds' part is the hash of its pair.
  at-fill_layer :
      (l rounds j k : ℕ) (t : List H)
      → 2 ^ suc l ≤ length t + 1
      → j + rounds ≤ 2 ^ l
      → j ≤ k
      → k < j + rounds
      → at (fill_layer l rounds j t) l k ≡ pair_hash l t k
  unfolding fill_layer pair_hash
  at-fill_layer l zero j k t size fits lo hi = absurd (omega arith)
  at-fill_layer l (suc rounds) j k t size fits lo hi =
      let t' = set t (2 ^ l - 1 + j) (pair_hash l t j) in
      elim (dec_lt j k) [
        | yes lt ↦
            at-fill_layer l rounds (suc j) k t'
              (omega (arith, length-set t (2 ^ l - 1 + j) (pair_hash l t j))) (omega arith) lt
              (omega arith)
            ∙ pair_hash-set l j k t (omega arith)
        | no ge ↦
            let same : k ≡ j = omega arith in
            rw same (
              fill_layer_frame l rounds (suc j) (2 ^ l - 1 + j) t' (inl (omega arith))
              ∙ get_or-set_self t (2 ^ l - 1 + j) (pair_hash l t j) initial
                  (omega (arith, pow_step l)))
      ]

  -- After all layers up from `m + k`, a node of layer `m` is the hash of its subtree over the entries of
  -- layer `m + k`, and the layers below keep their entries.
  pub fill_layers_frame :
      (l n : ℕ) (t : List H)
      → 2 ^ l - 1 ≤ n
      → get_or (fill_layers l t) n initial ≡ get_or t n initial
  unfolding fill_layers
  fill_layers_frame zero n t h = refl
  fill_layers_frame (suc l) n t h =
      fill_layers_frame l n _ (omega (arith, pow_step l))
      ∙ fill_layer_frame l (2 ^ l) 0 n t (inr (omega (arith, pow_step l, pow_pos l)))

  pub at-fill_layers :
      (k m l i : ℕ) (t : List H)
      → m + k ≡ l
      → 2 ^ suc l ≤ length t + 1
      → i < 2 ^ m
      → at (fill_layers l t) m i ≡ subtree combine k (at t l) i
  unfolding fill_layers pair_hash
  at-fill_layers zero m l i t e size h =
      let s : m ≡ l = omega arith in rw s (fill_layers_frame l (2 ^ l - 1 + i) t (omega arith))
  at-fill_layers (suc k) m zero i t e size h = absurd (omega arith)
  at-fill_layers (suc k) m (suc l) i t e size h =
      let t' = fill_layer l (2 ^ l) 0 t in
      at-fill_layers k m l i t' (omega arith)
        (omega (arith, length-fill_layer l (2 ^ l) 0 t, pow_step (suc l))) h
      ∙ subtree-cong combine k m (at t' l) (pair_hash l t)
          (λ j lt.
            at-fill_layer l (2 ^ l) 0 j t (omega (arith, pow_step (suc l))) (omega arith)
              (omega arith)
              (let s : m + k ≡ l = omega arith in
                let w : j < 2 ^ l = subst (λ n. j < 2 ^ n) s lt in omega arith))
          i h
      ∙ subtree-pairs combine k (at t (suc l)) i
