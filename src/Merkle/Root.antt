-- ===== src/Merkle/Root.antt =====
-- `update`: the loops with their checks run through, and the array then holds the hash of each subtree.
use dottorrent.Base.{
  ℕ, zero, suc, ◌+◌, ◌-◌, ◌*◌, ◌/◌, ◌^◌, ◌≤◌, ◌<◌, ◌≡◌, refl, sym, ap, ◌∙◌, List, arith, ok,
  ok-injective, subst, ◌>>=◌, set,
}
use dottorrent.Base.Pow.{pow_step, pow_pos}
use dottorrent.Merkle.{
  nodes_in_layer, parent, update_layer, update_layers, update, get_node, root, data_at, get_leaf,
}
use dottorrent.Merkle.Layout.{IsTree, tree_height_lem}
use dottorrent.Merkle.Access.{nodes_in_layer_lem, get_node_lem, set_node_lem, set-IsTree}
use dottorrent.Merkle.Fold.{subtree, subtree-cong}
use dottorrent.Merkle.Layers.{
  at, pair_hash, fill_layer, fill_layers, at-fill_layers, length-fill_layers, length-fill_layer,
}

parent_odd : (j : ℕ) → parent (2 * j + 1) ≡ j
unfolding parent
parent_odd j = ground arith

module _ {H : Type 0} (initial : H) (combine : H → H → H) where
  update_layer_lem :
      (h l rounds j : ℕ) (t : List H)
      → IsTree h t
      → suc l ≤ h
      → j + rounds ≤ 2 ^ l
      → update_layer initial combine (suc l) rounds (2 * j) t
        ≡ ok (fill_layer initial combine l rounds j t)
  unfolding update_layer fill_layer pair_hash
  update_layer_lem h l zero j t tree below fits = refl
  update_layer_lem h l (suc rounds) j t tree below fits =
      let left = get_node_lem h t tree (suc l) (2 * j) below (omega (arith, pow_step l)) initial in
      let right =
        get_node_lem h t tree (suc l) (2 * j + 1) below (omega (arith, pow_step l)) initial in
      let above : suc l - 1 ≡ l = omega arith in
      let next : 2 * j + 2 ≡ 2 * suc j = omega arith in
      let v = pair_hash initial combine l t j in
      let write = set_node_lem h t tree l j (omega arith) (omega arith) v in
      rw (left, right, above, parent_odd j, next)
        (rw write (
          update_layer_lem h l rounds (suc j) (set t (2 ^ l - 1 + j) v) (set-IsTree h t _ v tree)
            below (omega arith)))

  update_layers_lem :
      (h l : ℕ) (t : List H)
      → IsTree h t
      → l ≤ h
      → update_layers initial combine l t ≡ ok (fill_layers initial combine l t)
  unfolding update_layers fill_layers
  update_layers_lem h zero t tree below = refl
  update_layers_lem h (suc l) t (small, size) below =
      let half : nodes_in_layer (suc l) / 2 ≡ 2 ^ l =
        omega (arith, nodes_in_layer_lem (suc l) (omega arith), pow_step l) in
      let t' = fill_layer initial combine l (2 ^ l) 0 t in
      let kept : IsTree h t' =
        (small, omega (arith, length-fill_layer initial combine l (2 ^ l) 0 t)) in
      rw (half, update_layer_lem h l (2 ^ l) 0 t (small, size) below (omega arith))
        (update_layers_lem h l t' kept (omega arith))

  -- The values of the leaves, as `get_leaf` returns them.
  abbrev pub HasLeaves : ℕ → List H → (ℕ → H) → Type 0
  HasLeaves h t f = (j : ℕ) → j < 2 ^ h → get_leaf initial t j ≡ ok (f j)

  -- A call of `update` on a well-sized tree returns a tree of the same size, in which each node is the
  -- hash of its subtree, computed by recursion from the leaves that the tree had.
  pub update_lem :
      (h : ℕ) (t : List H) (f : ℕ → H)
      → IsTree h t
      → HasLeaves h t f
      → (t' : List H) × (update initial combine t ≡ ok t')
        × IsTree h t'
        × ((m k i : ℕ)
            → m + k ≡ h
            → i < 2 ^ m
            → get_node initial t' m i ≡ ok (subtree combine k f i))
  unfolding update
  update_lem h t f (small, size) leaves =
      let t' = fill_layers initial combine h t in
      let leaf : (j : ℕ) → j < 2 ^ h → at initial combine t h j ≡ f j = λ j b. ok-injective (
        sym (get_node_lem h t (small, size) h j (omega arith) b initial)
        ∙ ap (λ l. get_node initial t l j) (sym (tree_height_lem h t (small, size)))
        ∙ (unfold get_leaf in leaves j b)) in
      let tree' : IsTree h t' = (small, omega (arith, length-fill_layers initial combine h t)) in
      (
        t',
        rw (tree_height_lem h t (small, size))
            (update_layers_lem h h t (small, size) (omega arith)),
        tree',
        λ m k i e lt.
            get_node_lem h t' tree' m i (omega arith) lt initial
            ∙ ap ok (
                at-fill_layers initial combine k m h i t e (omega (arith, size)) lt
                ∙ subtree-cong combine k m (at initial combine t h) f
                    (λ j b. leaf j (subst (λ n. j < 2 ^ n) e b)) i lt),
      )

  root-node : (h : ℕ) (t : List H) → IsTree h t → root initial t ≡ get_node initial t 0 0
  unfolding root data_at
  root-node h t (small, size) = sym (
      get_node_lem h t (small, size) 0 0 (omega arith) (omega arith) initial
      ∙ ground (arith, pow_step h, pow_pos h))

  -- On a well-sized tree of height `h` whose leaves hold `f`, `update` followed by `root` gives the hash of
  -- the whole tree by recursion from the leaves.
  pub root-update :
      (h : ℕ) (t : List H) (f : ℕ → H)
      → IsTree h t
      → HasLeaves h t f
      → (update initial combine t >>= λ t'. root initial t') ≡ ok (subtree combine h f 0)
  root-update h t f tree leaves =
      let (t', done, tree', nodes) = update_lem h t f tree leaves in
      rw done (root-node h t' tree' ∙ nodes 0 h 0 (omega arith) (omega arith))

  -- On a well-sized tree of height `h` whose leaves hold `f`, `update` followed by `get_node` of any node,
  -- in layer `m` and `k` layers above the leaves, gives the hash of its subtree by recursion from the leaves.
  pub get_node-update :
      (h m k i : ℕ) (t : List H) (f : ℕ → H)
      → IsTree h t
      → HasLeaves h t f
      → m + k ≡ h
      → i < 2 ^ m
      → (update initial combine t >>= λ t'. get_node initial t' m i) ≡ ok (subtree combine k f i)
  get_node-update h m k i t f tree leaves e lt =
      let (t', done, tree', nodes) = update_lem h t f tree leaves in rw done (nodes m k i e lt)
