-- ===== src/Storage/Verify.antt =====
-- `verify_piece_layers` of include/dottorrent/file_storage.hpp: the piece layer of each file is hashed in a
-- tree, whose root is compared with the one of the file. What SHA-256 gives for two digests is the
-- parameter `combine`.
pub mod Leaves
use dottorrent.Base.{
  ℕ, suc, ◌+◌, Bool, List, [], ◌∷◌, Bytes, length, replicate, Run, ok, ◌>>=◌, bytes_eq,
}
use dottorrent.Merkle.{set_leaf_nodes, set_leaf, update, root}
use dottorrent.Entry.{FileEntry, piece_layer, pieces_root}
use dottorrent.Storage.{FileStorage}

abbrev pub zero_hash : Bytes
zero_hash = replicate 32 0

-- The loop that sets the leaves, from the index on.
unfoldable pub set_leaves : {H : Type 0} → ℕ → List H → List H → Run (List H)
set_leaves idx [] tree = ok tree
set_leaves idx (l ∷ layers) tree = do tree' ← set_leaf tree idx l; set_leaves (suc idx) layers tree'

module _ (combine : Bytes → Bytes → Bytes) where
  -- One round of the loop over the files.
  unfoldable pub verify_entry : FileEntry → Run Bool
  verify_entry entry = do
    layers ← piece_layer entry
    fresh ← set_leaf_nodes (length layers) zero_hash
    filled ← set_leaves 0 layers fresh
    hashed ← update zero_hash combine filled
    found ← root zero_hash hashed
    expected ← pieces_root entry
    ok (bytes_eq found expected)

  unfoldable pub verify_entries : List FileEntry → Run (List Bool)
  verify_entries [] = ok []
  verify_entries (entry ∷ entries) = do
    result ← verify_entry entry
    results ← verify_entries entries
    ok (result ∷ results)

  unfoldable pub verify_piece_layers : FileStorage → Run (List Bool)
  verify_piece_layers storage = verify_entries storage.files
