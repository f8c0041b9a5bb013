-- ===== src/Merkle/Examples.antt =====
-- Runs on small trees. The digests are numbers, and a pair is hashed to a number that depends on both.
use dottorrent.Base.{
  ℕ, zero, suc, ◌+◌, ◌-◌, ◌^◌, ◌≡◌, ◌*◌, refl, List, [], ◌∷◌, arith, ok, ◌>>=◌, get_or,
}
use dottorrent.Merkle.{
  get_node, get_leaf, update, update_batch, get_flat_index, tree_height, get_node_layer,
  nodes_in_layer, shl_one, data_at,
}
use dottorrent.Utils.{log2_floor, countl_zero}
use dottorrent.Merkle.Layout.{IsTree}
use dottorrent.Merkle.Fold.{subtree}
use dottorrent.Merkle.Root.{HasLeaves, get_node-update}
use dottorrent.Merkle.Batch.{get_node-update_batch}

abbrev mix : ℕ → ℕ → ℕ
mix a b = 10 * a + b

abbrev small_tree : List ℕ
small_tree = 0 ∷ 0 ∷ 0 ∷ 1 ∷ 2 ∷ 3 ∷ 4 ∷ []

abbrev small_leaves : ℕ → ℕ
small_leaves j = get_or (1 ∷ 2 ∷ 3 ∷ 4 ∷ []) j 0

small_tree-IsTree : IsTree 2 small_tree
small_tree-IsTree = (omega arith, refl)

small_tree-HasLeaves : HasLeaves 0 mix 2 small_tree small_leaves
unfolding get_leaf get_node tree_height get_node_layer log2_floor countl_zero nodes_in_layer shl_one
    data_at get_flat_index
small_tree-HasLeaves zero h = refl
small_tree-HasLeaves (suc zero) h = refl
small_tree-HasLeaves (suc (suc zero)) h = refl
small_tree-HasLeaves (suc (suc (suc zero))) h = refl
small_tree-HasLeaves (suc (suc (suc (suc j)))) h = absurd (omega arith)

-- The root of the four leaves.
root_test : subtree mix 2 small_leaves 0 ≡ 154
root_test = refl

get_node-update_example :
    (update 0 mix small_tree >>= λ t. get_node 0 t 1 1) ≡ ok (subtree mix 1 small_leaves 1)
get_node-update_example =
    get_node-update 0 mix 2 1 1 1 small_tree small_leaves small_tree-IsTree small_tree-HasLeaves
      refl (omega arith)

get_node-update_batch_example :
    (update_batch 0 mix small_tree >>= λ t. get_node 0 t 1 (2 ^ 1 - 1))
    ≡ get_node 0 small_tree 1 (2 ^ 1 - 1)
get_node-update_batch_example =
    get_node-update_batch 0 mix 2 1 small_tree small_tree-IsTree (omega arith) (omega arith)
