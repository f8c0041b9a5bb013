-- ===== src/Merkle/Access.antt =====
-- `get_node`, `set_node` and their checks on a well-sized tree: each access in range passes.
use dottorrent.Base.{
  ℕ, ◌+◌, ◌-◌, ◌^◌, ◌≤◌, ◌<◌, ◌≡◌, List, arith, ok, length, get_or, set, length-set,
}
use dottorrent.Base.Pow.{pow_step, pow_mono}
use dottorrent.Merkle.{nodes_in_layer, data_at, get_node, set_node}
use dottorrent.Merkle.Layout.{max_height, IsTree, shl_one_lem, get_flat_index_lem, tree_height_lem}

pub nodes_in_layer_lem : (k : ℕ) → k ≤ max_height → nodes_in_layer k ≡ 2 ^ k
unfolding nodes_in_layer
nodes_in_layer_lem k h = shl_one_lem k (omega arith)

module _ {H : Type 0} (h : ℕ) (t : List H) (tree : IsTree h t) (layer index : ℕ)
    (in_tree : layer ≤ h) (in_layer : index < 2 ^ layer) where
  place_in_array : 2 ^ layer - 1 + index < length t
  place_in_array = omega (arith, pow_step h, pow_mono layer h in_tree)

  -- Reading a node returns the entry of the array at its place.
  pub get_node_lem :
      (initial : H) → get_node initial t layer index ≡ ok (get_or t (2 ^ layer - 1 + index) initial)
  unfolding get_node data_at
  get_node_lem initial =
      rw
        (
          tree_height_lem h t tree,
          nodes_in_layer_lem layer (omega arith),
          get_flat_index_lem layer index (omega arith) in_layer,
        )
        (ground (arith, place_in_array))

  -- Writing a node changes the entry of the array at its place.
  pub set_node_lem : (v : H) → set_node t layer index v ≡ ok (set t (2 ^ layer - 1 + index) v)
  unfolding set_node
  set_node_lem v =
      rw
        (
          tree_height_lem h t tree,
          nodes_in_layer_lem layer (omega arith),
          get_flat_index_lem layer index (omega arith) in_layer,
        )
        (ground (arith, place_in_array))

-- Writing an entry leaves a tree of the same height.
pub set-IsTree :
    {H : Type 0} (h : ℕ) (t : List H) (i : ℕ) (v : H) → IsTree h t → IsTree h (set t i v)
set-IsTree h t i v (small, size) = (small, omega (arith, length-set t i v))
