-- ===== src/Merkle/Layout.antt =====
-- Where the nodes of a tree stand: the shifts below 32, the size, and the height read off it.
use dottorrent.Base.{
  ℕ, suc, ◌+◌, ◌-◌, ◌*◌, ◌%◌, ◌^◌, ◌≤◌, ◌<◌, ◌≡◌, refl, true, false, List, arith, ◌==◌, leb, ok,
  length, replicate, length-replicate,
}
use dottorrent.Base.Pow.{pow_step, pow_pos, pow_mono, pow_lt_cancel}
use dottorrent.Utils.{log2_ceil, log2_floor}
use dottorrent.Utils.Log.{log2_floor_unique, log2_ceil_lem}
use dottorrent.Merkle.{
  shl_one, total_node_count_for_height, get_flat_index, get_node_layer, tree_height, set_leaf_nodes,
  leaf_count, parent, left_child, right_child, get_node_index,
}

-- The greatest height with a size that fits 32 bits.
abbrev pub max_height : ℕ
max_height = 30

pub pow_below : (k : ℕ) → k ≤ suc max_height → (0 < 2 ^ k) × (2 ^ k ≤ 2 ^ 31)
pow_below k h = (pow_pos k, pow_mono k 31 h)

pub shl_one_lem : (k : ℕ) → k ≤ suc max_height → shl_one k ≡ 2 ^ k
unfolding shl_one
shl_one_lem k h = omega (arith, pow_below k h)

pub get_flat_index_lem :
    (layer index : ℕ)
    → layer ≤ suc max_height
    → index < 2 ^ layer
    → get_flat_index layer index ≡ 2 ^ layer - 1 + index
unfolding get_flat_index
get_flat_index_lem layer index h k = omega (arith, pow_below layer h, shl_one_lem layer h)

-- The sizes of the trees that the array can hold.
abbrev pub IsTree : {H : Type 0} → ℕ → List H → Type 0
IsTree h t = (h ≤ max_height) × (length t + 1 ≡ 2 ^ suc h)

pub tree_height_lem : {H : Type 0} (h : ℕ) (t : List H) → IsTree h t → tree_height t ≡ h
unfolding tree_height get_node_layer
tree_height_lem h t (small, size) =
    let below = pow_below (suc h) (omega arith) in
    let n = (length t + 2 ^ 64 - 1) % 2 ^ 64 in
    let place : (n + 1) % 2 ^ 64 ≡ length t = omega (arith, pow_step h, pow_pos h) in
    rw place (
      log2_floor_unique (length t) h (omega arith) (omega (arith, pow_step h, pow_pos h))
        (omega arith))

total_node_count_lem : (k : ℕ) → k ≤ max_height → total_node_count_for_height k ≡ 2 ^ suc k - 1
unfolding total_node_count_for_height
total_node_count_lem k h =
    let next : suc k ≡ k + 1 = omega arith in
    rw (← next) (omega (arith, pow_below (suc k) (omega arith), shl_one_lem (suc k) (omega arith)))

-- For 1 to 2^30 leaves, a fresh tree is the array of a whole binary tree with each node set to the
-- value, whose last layer has room for the leaves and is less than twice as wide.
pub set_leaf_nodes_lem :
    {H : Type 0} (n : ℕ) (value : H)
    → 0 < n
    → n ≤ 2 ^ max_height
    → (set_leaf_nodes n value ≡ ok (replicate (2 ^ suc (log2_ceil n) - 1) value))
      × IsTree (log2_ceil n) (replicate (2 ^ suc (log2_ceil n) - 1) value)
      × (n ≤ 2 ^ log2_ceil n)
      × (2 ^ log2_ceil n < 2 * n)
unfolding set_leaf_nodes
set_leaf_nodes_lem n value p h =
    let (fits, least) = log2_ceil_lem n p (omega arith) in
    let small : log2_ceil n < 31 = pow_lt_cancel (log2_ceil n) 31 (omega arith) in
    let below = pow_below (suc (log2_ceil n)) (omega arith) in
    let count = total_node_count_lem (log2_ceil n) (omega arith) in
    let some_leaf : (n == 0) ≡ false = ground arith in
    let nodes : leb 1 (2 ^ suc (log2_ceil n) - 1) ≡ true =
      ground (arith, pow_step (log2_ceil n), pow_pos (log2_ceil n)) in
    (
      rw (some_leaf, set_leaf_nodes) (rw count (rw nodes refl)),
      (omega arith, omega (arith, length-replicate (2 ^ suc (log2_ceil n) - 1) value)),
      fits,
      least,
    )

-- The number of leaves that the size gives.
pub leaf_count_lem : {H : Type 0} (h : ℕ) (t : List H) → IsTree h t → leaf_count t ≡ 2 ^ h
unfolding leaf_count
leaf_count_lem h t (small, size) = omega (arith, pow_step h)

-- For a node in a layer of at most 30, the children are the two nodes below it in the next layer,
-- and it is the parent of both.
pub children_lem :
    (layer index : ℕ)
    → layer ≤ max_height
    → index < 2 ^ layer
    → (left_child (get_flat_index layer index) ≡ get_flat_index (suc layer) (2 * index))
      × (right_child (get_flat_index layer index) ≡ get_flat_index (suc layer) (2 * index + 1))
      × (parent (get_flat_index (suc layer) (2 * index)) ≡ get_flat_index layer index)
      × (parent (get_flat_index (suc layer) (2 * index + 1)) ≡ get_flat_index layer index)
unfolding left_child right_child parent
children_lem layer index h k =
    let below = pow_below (suc layer) (omega arith) in
    let here = get_flat_index_lem layer index (omega arith) k in
    let left =
      get_flat_index_lem (suc layer) (2 * index) (omega arith) (omega (arith, pow_step layer)) in
    let right =
      get_flat_index_lem (suc layer) (2 * index + 1) (omega arith)
        (omega (arith, pow_step layer)) in
    let two = pow_step layer in
    (
      omega (arith, here, left, two),
      omega (arith, here, right, two),
      ground (arith, here, left, two),
      ground (arith, here, right, two),
    )

-- For a node in a layer of at most 30, its place in the array gives its layer and index back.
pub get_node_index_lem :
    (layer index : ℕ)
    → layer ≤ max_height
    → index < 2 ^ layer
    → get_node_index (get_flat_index layer index) ≡ (layer, index)
unfolding get_node_index get_node_layer
get_node_index_lem layer index h k =
    let below = pow_below layer (omega arith) in
    let here = get_flat_index_lem layer index (omega arith) k in
    let first = get_flat_index_lem layer 0 (omega arith) (pow_pos layer) in
    let place : (get_flat_index layer index + 1) % 2 ^ 64 ≡ 2 ^ layer + index =
      omega (arith, here) in
    let found : log2_floor ((get_flat_index layer index + 1) % 2 ^ 64) ≡ layer =
      rw place
        (log2_floor_unique _ layer (omega arith) (omega arith) (omega (arith, pow_step layer))) in
    rw (found, here, first) (ground arith)
