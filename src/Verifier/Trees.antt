-- ===== src/Verifier/Trees.antt =====
-- src/v2_piece_writer.cpp and src/v2_piece_verifier.cpp: the trees that collect the leaf hashes of the
-- files, and what happens when the last leaf of a file has come. What SHA-256 gives for two digests is
-- the parameter `combine`.
use dottorrent.Base.{
  ℕ, zero, suc, ◌+◌, ◌-◌, ◌/◌, ◌%◌, Bool, true, none, some, List, [], ◌∷◌, Bytes, bytes_eq, length,
  get_elem?, take, drop, set, replicate, ltb, leb, ◌==◌, if◌then◌else◌, Run, ok, undefined, expects,
  ◌>>=◌, ◌>>◌,
}
use dottorrent.Utils.{log2_floor}
use dottorrent.Merkle.{
  set_leaf_nodes, set_leaf, update, root, tree_height, get_flat_index, nodes_in_layer,
}
use dottorrent.Entry.{
  FileEntry, is_padding_file, piece_layer, pieces_root, set_piece_layer, set_pieces_root,
}
use dottorrent.Storage.{FileStorage, add64, sub64, at, entry_at}
use dottorrent.Storage.Verify.{zero_hash}
use dottorrent.Verifier.Offsets.{offsets_from, map_size_from, front_to_back}

abbrev pub v2_block_size : ℕ
v2_block_size = 16384

-- The trees of a writer or a verifier, and the count of blocks hashed for each file.
pub record Trees : Type 0 where
  pub merkle_trees : List (List Bytes)
  pub file_blocks_hashed : List ℕ

-- The tree of an entry; a padding file gets a tree without nodes.
unfoldable pub new_tree : FileEntry → Run (List Bytes)
new_tree e =
    if is_padding_file e
    then ok []
    else set_leaf_nodes (sub64 (add64 e.file_size v2_block_size) 1 / v2_block_size) zero_hash

unfoldable pub new_trees : List FileEntry → Run (List (List Bytes))
unfolding new_tree
new_trees [] = ok []
new_trees (e ∷ es) = do t ← new_tree e; ts ← new_trees es; ok (t ∷ ts)

-- v2_piece_writer::initialize_trees
unfoldable pub initialize_trees : FileStorage → Run Trees
unfolding new_trees
initialize_trees s = do
  ts ← new_trees s.files
  ok (record { merkle_trees = ts; file_blocks_hashed = replicate (length s.files) 0 })

-- merkle_tree::get_layer from the root on.
unfoldable pub get_layer : List Bytes → ℕ → Run (List Bytes)
get_layer t depth = do
  expects (leb depth (tree_height t))
  if leb (get_flat_index depth 0 + nodes_in_layer depth) (length t)
      then ok (take (nodes_in_layer depth) (drop (get_flat_index depth 0) t))
      else undefined

abbrev pub element_at {ℓ} : {A : Type ℓ} → List A → ℕ → Run A
element_at xs i = elim (get_elem? xs i) [ none ↦ undefined | some x ↦ ok x ]

unfoldable pub subspan_first : List Bytes → ℕ → Run (List Bytes)
subspan_first xs n = if leb n (length xs) then ok (take n xs) else undefined

module _ (combine : Bytes → Bytes → Bytes) where
  -- The entry with its root and its layer, from the hashed tree.
  unfoldable pub entry_with_layers : ℕ → List Bytes → FileEntry → Run FileEntry
  unfolding get_layer subspan_first
  entry_with_layers piece_size tree entry =
      let layer_offset = log2_floor piece_size - log2_floor v2_block_size in
      let layer_data_nodes_size = sub64 (add64 entry.file_size piece_size) 1 / piece_size in
      do
        hash ← root zero_hash tree
        if leb (tree_height tree) layer_offset
            then ok (set_piece_layer (set_pieces_root entry hash) [])
            else (do
              layer_view ← get_layer tree (tree_height tree - layer_offset)
              layer ←
                  if length layer_view == layer_data_nodes_size
                  then ok layer_view
                  else subspan_first layer_view layer_data_nodes_size
              ok (set_piece_layer (set_pieces_root entry hash) layer))

  -- v2_piece_writer::set_piece_layers_and_root
  unfoldable pub set_piece_layers_and_root : FileStorage → Trees → ℕ → Run (FileStorage × Trees)
  unfolding entry_with_layers
  set_piece_layers_and_root s trees file_index = do
    expects (leb v2_block_size s.piece_size)
    expects (s.piece_size % v2_block_size == 0)
    tree ← element_at trees.merkle_trees file_index
    tree' ← update zero_hash combine tree
    entry ← at s file_index
    entry' ← entry_with_layers s.piece_size tree' entry
    ok (
      record s { files = set s.files file_index entry' },
      record trees { merkle_trees = set trees.merkle_trees file_index tree' },
    )

  -- The leaf of a piece is set, and a block of its file is counted: the trees, with the blocks counted before
  -- and those of the file. Writer and verifier both do this first.
  unfoldable pub add_leaf : FileStorage → Trees → ℕ → ℕ → Bytes → Run (Trees × (ℕ × ℕ))
  add_leaf s trees file_index leaf_index hash = do
    entry ← entry_at s file_index
    tree ← element_at trees.merkle_trees file_index
    tree' ← set_leaf tree leaf_index hash
    counted ← element_at trees.file_blocks_hashed file_index
    ok (
      record {
        merkle_trees = set trees.merkle_trees file_index tree';
        file_blocks_hashed = set trees.file_blocks_hashed file_index (add64 counted 1);
      },
      (counted, sub64 (add64 entry.file_size v2_block_size) 1 / v2_block_size),
    )

  -- v2_piece_writer::set_finished_piece for a leaf.
  unfoldable pub write_leaf : FileStorage → Trees → ℕ → ℕ → Bytes → Run (FileStorage × Trees)
  unfolding add_leaf set_piece_layers_and_root
  write_leaf s trees file_index leaf_index hash = do
    r ← add_leaf s trees file_index leaf_index hash
    if leb (r.1.1) (add64 (r.1.0) 1)
        then set_piece_layers_and_root s (r.0) file_index
        else ok (s, r.0)

-- A verifier for v2: its trees, the offsets of the files and the piece map.
pub record V2Verifier : Type 0 where
  pub trees : Trees
  pub file_offsets : List ℕ
  pub piece_map : List ℕ

-- v2_piece_verifier::initialize_offsets_and_trees
unfoldable pub initialize_offsets_and_trees : FileStorage → Run V2Verifier
unfolding initialize_trees
initialize_offsets_and_trees s = do
  expects (leb v2_block_size s.piece_size)
  expects (s.piece_size % v2_block_size == 0)
  trees ← initialize_trees s
  offsets ← offsets_from s.files (0 ∷ [])
  count ← map_size_from 0 s.files
  ok (record {
    trees = trees;
    file_offsets = front_to_back offsets [];
    piece_map = replicate count 0;
  })

-- One byte of the piece map.
unfoldable pub mark_piece : List ℕ → ℕ → Bool → Run (List ℕ)
mark_piece piece_map i b =
    if ltb i (length piece_map) then ok (set piece_map i (if b then 1 else 0)) else undefined

-- std::fill_n with 1.
unfoldable pub fill_ones : List ℕ → ℕ → ℕ → Run (List ℕ)
unfolding mark_piece
fill_ones piece_map i zero = ok piece_map
fill_ones piece_map i (suc n) = do
  piece_map' ← mark_piece piece_map i true
  fill_ones piece_map' (i + 1) n

-- The loop that compares the two layers as far as both go.
unfoldable pub compare_layers : List ℕ → ℕ → List Bytes → List Bytes → Run (List ℕ)
unfolding mark_piece
compare_layers piece_map i [] reference = ok piece_map
compare_layers piece_map i (x ∷ xs) [] = ok piece_map
compare_layers piece_map i (x ∷ xs) (y ∷ ys) = do
  piece_map' ← mark_piece piece_map i (bytes_eq x y)
  compare_layers piece_map' (i + 1) xs ys

-- The pieces of a file whose tree is hashed.
unfoldable pub mark_file : ℕ → List Bytes → FileEntry → List ℕ → ℕ → Run (List ℕ)
unfolding fill_ones compare_layers get_layer subspan_first
mark_file piece_size tree entry piece_map entry_index = do
  expected ← pieces_root entry
  found ← root zero_hash tree
  reference ← piece_layer entry
  let whole_file_complete = bytes_eq expected found
  let is_single_piece_file = length reference == 0
  let layer_offset = log2_floor piece_size - log2_floor v2_block_size
  if is_single_piece_file
      then (do
        expects (ltb entry_index (length piece_map))
        mark_piece piece_map entry_index whole_file_complete)
      else if whole_file_complete
      then fill_ones piece_map entry_index (length reference)
      else (do
        layer ← get_layer tree (sub64 (tree_height tree) layer_offset)
        view ← subspan_first layer (sub64 (add64 entry.file_size piece_size) 1 / piece_size)
        compare_layers piece_map entry_index view reference)

module _ (combine : Bytes → Bytes → Bytes) where
  -- v2_piece_verifier::verify_piece_layers_and_root
  unfoldable pub verify_piece_layers_and_root : FileStorage → V2Verifier → ℕ → Run V2Verifier
  unfolding mark_file
  verify_piece_layers_and_root s v file_index = do
    tree ← element_at v.trees.merkle_trees file_index
    tree' ← update zero_hash combine tree
    entry ← at s file_index
    entry_index ← element_at v.file_offsets file_index
    piece_map' ← mark_file s.piece_size tree' entry v.piece_map entry_index
    ok (record v {
      trees = record v.trees { merkle_trees = set v.trees.merkle_trees file_index tree' };
      piece_map = piece_map';
    })

  -- v2_piece_verifier::verify_finished_piece
  unfoldable pub verify_leaf : FileStorage → V2Verifier → ℕ → ℕ → Bytes → Run V2Verifier
  unfolding verify_piece_layers_and_root
  verify_leaf s v file_index leaf_index hash = do
    r ← add_leaf combine s v.trees file_index leaf_index hash
    if leb (r.1.1) (add64 (r.1.0) 1)
        then verify_piece_layers_and_root s (record v { trees = r.0 }) file_index
        else ok (record v { trees = r.0 })
