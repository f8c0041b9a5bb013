-- ===== src/Merkle.antt =====
-- include/dottorrent/merkle_tree.hpp: a binary hash tree in one array, layer behind layer from the
-- root on. The digest type and `combine`, what a hasher returns after two updates, are parameters: the
-- hash functions are those of the cryptographic libraries. The mutex is not modelled: one thread
-- calls. `1U << k` is a 32-bit shift, and the sums with `std::size_t` are 64-bit.
pub mod Layout
pub mod Access
pub mod Fold
pub mod Layers
pub mod Root
pub mod Batch
pub mod Examples
use dottorrent.Base.{
  ℕ, zero, suc, ◌+◌, ◌-◌, ◌*◌, ◌/◌, ◌%◌, ◌^◌, Bool, not, List, [], ◌∷◌, ltb, leb, ◌==◌,
  if◌then◌else◌, Run, ok, undefined, expects, ◌>>=◌, ◌>>◌, length, get_or, set, replicate,
}
use dottorrent.Utils.{log2_floor, log2_ceil}

-- `1U << k`, for k below 32.
unfoldable pub shl_one : ℕ → ℕ
shl_one k = 2 ^ k % 2 ^ 32

unfoldable pub nodes_in_layer : ℕ → ℕ
nodes_in_layer layer = shl_one layer

unfoldable pub total_node_count_for_height : ℕ → ℕ
total_node_count_for_height height = (shl_one (height + 1) + 2 ^ 32 - 1) % 2 ^ 32

unfoldable pub get_flat_index : ℕ → ℕ → ℕ
get_flat_index layer index = ((shl_one layer + 2 ^ 32 - 1) % 2 ^ 32 + index) % 2 ^ 64

unfoldable pub get_node_layer : ℕ → ℕ
get_node_layer flat_index = log2_floor ((flat_index + 1) % 2 ^ 64)

-- The layer of a node, and its place there.
unfoldable pub get_node_index : ℕ → ℕ × ℕ
get_node_index flat_index =
    let layer = get_node_layer flat_index in
    (layer % 2 ^ 32, (flat_index + 2 ^ 64 - get_flat_index layer 0) % 2 ^ 64 % 2 ^ 32)

unfoldable pub parent : ℕ → ℕ
parent flat_idx = if flat_idx == 0 then 0 else (flat_idx - 1) / 2

unfoldable pub left_child : ℕ → ℕ
left_child flat_idx = (flat_idx * 2 + 1) % 2 ^ 64

unfoldable pub right_child : ℕ → ℕ
right_child flat_idx = (flat_idx * 2 + 2) % 2 ^ 64

module _ {H : Type 0} where
  -- data_.size()
  abbrev pub node_count : List H → ℕ
  node_count t = length t

  unfoldable pub leaf_count : List H → ℕ
  leaf_count t = (length t + 1) / 2

  -- The height is read off the size of the array; `size - 1` wraps for an empty one.
  unfoldable pub tree_height : List H → ℕ
  tree_height t = get_node_layer ((length t + 2 ^ 64 - 1) % 2 ^ 64)

-- The tree of the given number of leaves, each node set to `value`. What it held is dropped.
pub set_leaf_nodes : {H : Type 0} → ℕ → H → Run (List H)
set_leaf_nodes leaf_nodes value =
    let height = if not (leaf_nodes == 0) then log2_ceil leaf_nodes else 1 in
    let count = total_node_count_for_height height in
    do expects (leb 1 count); ok (replicate count value)

module _ {H : Type 0} (initial : H) where
  -- data_[i]; beyond the end the access is undefined.
  unfoldable pub data_at : List H → ℕ → Run H
  data_at t i = if ltb i (length t) then ok (get_or t i initial) else undefined

  unfoldable pub root : List H → Run H
  root t = data_at t 0

  unfoldable pub get_node : List H → ℕ → ℕ → Run H
  get_node t layer index = do
    expects (leb layer (tree_height t))
    expects (ltb index (nodes_in_layer layer))
    data_at t (get_flat_index layer index)

  unfoldable pub get_leaf : List H → ℕ → Run H
  get_leaf t index = get_node t (tree_height t) index

-- The check before the write lets one index too many through.
unfoldable pub set_node : {H : Type 0} → List H → ℕ → ℕ → H → Run (List H)
set_node t layer index value = do
  expects (leb layer (tree_height t))
  expects (ltb index (nodes_in_layer layer))
  let flat_index = get_flat_index layer index
  expects (leb flat_index (length t))
  if ltb flat_index (length t) then ok (set t flat_index value) else undefined

unfoldable pub set_leaf : {H : Type 0} → List H → ℕ → H → Run (List H)
set_leaf t index value = set_node t (tree_height t) index value

module _ {H : Type 0} (initial : H) (combine : H → H → H) where
  -- The inner loop, with the rounds left and the loop variable `i`, which each round raises by two.
  pub update_layer : ℕ → ℕ → ℕ → List H → Run (List H)
  update_layer layer zero i t = ok t
  update_layer layer (suc rounds) i t = do
    left ← get_node initial t layer i
    right ← get_node initial t layer (i + 1)
    t' ← set_node t (layer - 1) (parent (i + 1)) (combine left right)
    update_layer layer rounds (i + 2) t'

  -- The outer loop, from a layer up to the one below the root.
  pub update_layers : ℕ → List H → Run (List H)
  update_layers zero t = ok t
  update_layers (suc layer) t = do
    t' ← update_layer (suc layer) (nodes_in_layer (suc layer) / 2) 0 t
    update_layers layer t'

  -- update(single_buffer_hasher&)
  pub update : List H → Run (List H)
  update t = update_layers (tree_height t) t

  -- The values of every second node of a layer, from `i` on: what is submitted for the jobs.
  pub read_nodes : ℕ → ℕ → ℕ → List H → Run (List H)
  read_nodes layer zero i t = ok []
  read_nodes layer (suc jobs) i t = do
    v ← get_node initial t layer i
    vs ← read_nodes layer jobs (i + 2) t
    ok (v ∷ vs)

  -- The digests of the jobs, in the order of the jobs.
  pub job_digests : List H → List H → List H
  job_digests (x ∷ xs) (y ∷ ys) = combine x y ∷ job_digests xs ys
  job_digests _ _ = []

-- The loop that writes the digests, with the loop variable `i`. It asks for the parent of `i` and not of
-- `i + 1`.
pub write_parents : {H : Type 0} → ℕ → List H → ℕ → List H → Run (List H)
write_parents layer [] i t = ok t
write_parents layer (digest ∷ ds) i t = do
  t' ← set_node t (layer - 1) (parent i) digest
  write_parents layer ds (i + 2) t'

module _ {H : Type 0} (initial : H) (combine : H → H → H) where
  pub batch_layer : ℕ → List H → Run (List H)
  batch_layer layer t =
      let n_nodes = nodes_in_layer layer in
      do
        expects (n_nodes % 2 == 0)
        firsts ← read_nodes initial combine layer (n_nodes / 2) 0 t
        lasts ← read_nodes initial combine layer (n_nodes / 2) 1 t
        write_parents layer (job_digests initial combine firsts lasts) 0 t

  pub batch_layers : ℕ → List H → Run (List H)
  batch_layers zero t = ok t
  batch_layers (suc layer) t = do t' ← batch_layer (suc layer) t; batch_layers layer t'

  -- update(multi_buffer_hasher&), which is compiled where ISA-L is used.
  pub update_batch : List H → Run (List H)
  update_batch t = batch_layers (tree_height t) t
