-- ===== src/Merkle/Batch.antt =====
-- `update(multi_buffer_hasher&)`: it returns, and leaves the last node of each inner layer as it was.
use dottorrent.Base.{
  ℕ, zero, suc, ◌+◌, ◌-◌, ◌*◌, ◌/◌, ◌%◌, ◌^◌, ◌≤◌, ◌<◌, ◌≡◌, ◌≢◌, ◌⊎◌, inl, inr, refl, sym, ap, ◌∙◌,
  List, [], ◌∷◌, arith, ok, ◌>>=◌, length, get_or, set, get_or-set_ne,
}
use native.Mathlib.Decide.{dec_lt}
use dottorrent.Base.Pow.{pow_step, pow_pos, pow_mono}
use dottorrent.Merkle.{
  nodes_in_layer, parent, get_node, read_nodes, job_digests, write_parents, batch_layer,
  batch_layers, update_batch,
}
use dottorrent.Merkle.Layout.{IsTree, tree_height_lem}
use dottorrent.Merkle.Access.{nodes_in_layer_lem, get_node_lem, set_node_lem, set-IsTree}

parent_even : (j : ℕ) → parent (2 * j) ≡ j - 1
unfolding parent
parent_even j = ground arith

-- A node of layer `l` that is not its last, or the root, is not the last node of layer `m`.
place-ne :
    (l m p : ℕ) → 1 ≤ m → p < 2 ^ l → (p + 1 < 2 ^ l) ⊎ (l ≡ 0) → 2 ^ l - 1 + p ≢ 2 ^ suc m - 2
place-ne l m p h in_layer not_last e = elim (dec_lt l m) [
  | yes lt ↦ omega (arith, pow_step l, pow_step m, pow_mono (suc l) m lt, pow_pos l)
  | no ge ↦ elim (dec_lt m l) [
    | yes gt ↦ omega (arith, pow_mono (suc m) l gt, pow_pos m, pow_step m)
    | no le ↦
        let same : l ≡ m = omega arith in
        omega (arith, pow_step l, ap (λ n. 2 ^ n) same, ap (λ n. 2 ^ suc n) same)
  ]
]

module _ {H : Type 0} (initial : H) where
  -- The last nodes of the layers from 1 on hold what they held.
  abbrev pub SameLast : List H → List H → Type 0
  SameLast t t' =
      (m : ℕ) → 1 ≤ m → get_or t' (2 ^ suc m - 2) initial ≡ get_or t (2 ^ suc m - 2) initial

  write_parents_lem :
      (h l j : ℕ) (ds t : List H)
      → IsTree h t
      → suc l ≤ h
      → j + length ds ≤ 2 ^ l
      → (t' : List H) × (write_parents (suc l) ds (2 * j) t ≡ ok t') × IsTree h t' × SameLast t t'
  unfolding write_parents
  write_parents_lem h l j [] t tree below fits = (t, refl, tree, λ m p. refl)
  write_parents_lem h l j (d ∷ ds) t tree below fits =
      let place = 2 ^ l - 1 + (j - 1) in
      let not_last : (j - 1 + 1 < 2 ^ l) ⊎ (l ≡ 0) = not_last_of l j (omega arith) in
      let s = set t place d in
      let (t', done, tree', same) =
        write_parents_lem h l (suc j) ds s (set-IsTree h t place d tree) below (omega arith) in
      let above : suc l - 1 ≡ l = omega arith in
      let next : 2 * j + 2 ≡ 2 * suc j = omega arith in
      let write = set_node_lem h t tree l (j - 1) (omega arith) (omega arith) d in
      (
        t',
        rw (above, parent_even j, next, write) done,
        tree',
        λ m p.
            same m p
            ∙ get_or-set_ne t place (2 ^ suc m - 2) d initial
                (place-ne l m (j - 1) p (omega arith) not_last),
      )
    where
      not_last_of : (l j : ℕ) → j < 2 ^ l → (j - 1 + 1 < 2 ^ l) ⊎ (l ≡ 0)
      not_last_of zero j b = inr refl
      not_last_of (suc l) j b = inl (omega (arith, pow_step l, pow_pos l))

module _ {H : Type 0} (initial : H) (combine : H → H → H) where
  read_nodes_lem :
      (h layer jobs i : ℕ) (t : List H)
      → IsTree h t
      → layer ≤ h
      → i + 2 * jobs ≤ 2 ^ layer + 1
      → (vs : List H) × (read_nodes initial combine layer jobs i t ≡ ok vs) × (length vs ≡ jobs)
  unfolding read_nodes
  read_nodes_lem h layer zero i t tree below fits = ([], refl, refl)
  read_nodes_lem h layer (suc jobs) i t tree below fits =
      let (vs, done, size) = read_nodes_lem h layer jobs (i + 2) t tree below (omega arith) in
      let v = get_or t (2 ^ layer - 1 + i) initial in
      let read = get_node_lem h t tree layer i below (omega arith) initial in
      (v ∷ vs, rw (read, done) refl, ap suc size)

  length-job_digests :
      (xs ys : List H)
      → length xs ≡ length ys
      → length (job_digests initial combine xs ys) ≡ length xs
  unfolding job_digests
  length-job_digests [] ys e = refl
  length-job_digests (x ∷ xs) [] e = absurd (omega arith)
  length-job_digests (x ∷ xs) (y ∷ ys) e = ap suc (length-job_digests xs ys (omega arith))

  -- The layer's step, from the width of the layer and the two runs of reads.
  batch_layer_step :
      (layer width jobs : ℕ) (t xs ys : List H)
      → nodes_in_layer layer ≡ width
      → width ≡ 2 * jobs
      → read_nodes initial combine layer jobs 0 t ≡ ok xs
      → read_nodes initial combine layer jobs 1 t ≡ ok ys
      → batch_layer initial combine layer t
        ≡ write_parents layer (job_digests initial combine xs ys) 0 t
  unfolding batch_layer
  batch_layer_step layer width jobs t xs ys nodes twice firsts lasts =
      let half : width / 2 ≡ jobs = omega arith in
      let even : width % 2 ≡ 0 = omega arith in rw (nodes, even, half, firsts, lasts) refl

  batch_layer_lem :
      (h l : ℕ) (t : List H)
      → IsTree h t
      → suc l ≤ h
      → (t' : List H) × (batch_layer initial combine (suc l) t ≡ ok t')
        × IsTree h t'
        × SameLast initial t t'
  batch_layer_lem h l t tree below =
      let nodes = nodes_in_layer_lem (suc l) (omega arith) in
      let (xs, read_first, size) =
        read_nodes_lem h (suc l) (2 ^ l) 0 t tree below (omega (arith, pow_step l)) in
      let (ys, read_last, size') =
        read_nodes_lem h (suc l) (2 ^ l) 1 t tree below (omega (arith, pow_step l)) in
      let count = length-job_digests xs ys (omega arith) in
      let (t', done, tree', same) =
        write_parents_lem initial h l 0 (job_digests initial combine xs ys) t tree below
          (omega (arith, count)) in
      (
        t',
        batch_layer_step (suc l) (2 ^ suc l) (2 ^ l) t xs ys nodes (pow_step l) read_first read_last
            ∙ done,
        tree',
        same,
      )

  batch_layers_lem :
      (h l : ℕ) (t : List H)
      → IsTree h t
      → l ≤ h
      → (t' : List H) × (batch_layers initial combine l t ≡ ok t')
        × IsTree h t'
        × SameLast initial t t'
  unfolding batch_layers
  batch_layers_lem h zero t tree below = (t, refl, tree, λ m p. refl)
  batch_layers_lem h (suc l) t tree below =
      let (s, first, tree_s, same_s) = batch_layer_lem h l t tree below in
      let (t', done, tree', same) = batch_layers_lem h l s tree_s (omega arith) in
      (t', rw first done, tree', λ m p. same m p ∙ same_s m p)

  -- The batch version of `update` returns a tree of the same size, in which the last node of each layer
  -- between the root and the leaves is what it was before the call, whatever the hash function.
  pub update_batch_lem :
      (h : ℕ) (t : List H)
      → IsTree h t
      → (t' : List H) × (update_batch initial combine t ≡ ok t')
        × IsTree h t'
        × ((m : ℕ)
            → 1 ≤ m
            → m < h
            → get_node initial t' m (2 ^ m - 1) ≡ get_node initial t m (2 ^ m - 1))
  unfolding update_batch
  update_batch_lem h t tree =
      let (t', done, tree', same) = batch_layers_lem h h t tree (omega arith) in
      (
        t',
        rw (tree_height_lem h t tree) done,
        tree',
        λ m p b.
            let place : 2 ^ m - 1 + (2 ^ m - 1) ≡ 2 ^ suc m - 2 =
              omega (arith, pow_step m, pow_pos m) in
            get_node_lem h t' tree' m (2 ^ m - 1) (omega arith) (omega (arith, pow_pos m)) initial
            ∙ ap ok (rw place (same m p))
            ∙ sym (
                get_node_lem h t tree m (2 ^ m - 1) (omega arith) (omega (arith, pow_pos m))
                  initial),
      )

  -- On a well-sized tree, the batch version of `update` returns, and the last node of any layer between
  -- the root and the leaves is then read as it was before the call, whatever the hash function.
  pub get_node-update_batch :
      (h m : ℕ) (t : List H)
      → IsTree h t
      → 1 ≤ m
      → m < h
      → (update_batch initial combine t >>= λ t'. get_node initial t' m (2 ^ m - 1))
        ≡ get_node initial t m (2 ^ m - 1)
  get_node-update_batch h m t tree p b =
      let (t', done, tree', same) = update_batch_lem h t tree in rw done (same m p b)
