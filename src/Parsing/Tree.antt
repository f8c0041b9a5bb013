-- ===== src/Parsing/Tree.antt =====
-- src/metafile_parsing.cpp: the files of the tree of a v2 metafile, by a loop with a stack of its own.
use dottorrent.Base.{
  ℕ, zero, suc, ◌==◌, List, [], ◌∷◌, ◌++◌, Bytes, codes, length, if◌then◌else◌, Run, ok, undefined,
  ◌>>=◌,
}
use dottorrent.Entry.{FilePath, FileEntry}
use dottorrent.Storage.{add_files}
use dottorrent.Metafile.{Metafile}
use dottorrent.Bencode.{Dict, Bencode, access, at_key}
use dottorrent.Parsing.{info_dict}
use dottorrent.Parsing.Paths.{root_directory, path_append, relative_path}
use dottorrent.Parsing.Files.{parse_file_entry_v2, parse_file_list_v1, set_roots}

-- The path of the components, which are kept from the back of the vector on.
unfoldable pub components_path : List Bytes → FilePath
unfolding path_append
components_path [] = []
components_path (component ∷ before) = path_append (components_path before) component

module _ {V : Type 0} (B : Bencode V) where
  -- The entries of a frame that are still to come, the frames below it, the components and the results. Without a
  -- round left there is no result, which stands as `undefined`.
  unfoldable pub tree_loop : ℕ → List (Dict V) → List Bytes → List FileEntry → Run (List FileEntry)
  unfolding components_path
  tree_loop zero frames components out = undefined
  tree_loop (suc rounds) [] components out = ok out
  tree_loop (suc rounds) ([] ∷ frames) [] out = undefined
  tree_loop (suc rounds) ([] ∷ frames) (component ∷ components) out =
      tree_loop rounds frames components out
  tree_loop (suc rounds) (((key, v) ∷ rest) ∷ frames) components out = do
    value ← access (B.get_dict v)
    if length key == 0
        then (do
          entry ← parse_file_entry_v2 B v (relative_path (components_path components))
          tree_loop rounds (rest ∷ frames) components (out ++ entry ∷ []))
        else tree_loop rounds (value ∷ rest ∷ frames) (key ∷ components) out

  -- The loop, given a number of rounds.
  unfoldable pub file_tree_entries : ℕ → V → Run (List FileEntry)
  unfolding tree_loop
  file_tree_entries rounds root = do
    info ← info_dict B root
    v ← at_key (codes "file tree") info
    file_tree ← access (B.get_dict v)
    tree_loop rounds (file_tree ∷ []) (root_directory ∷ []) []

  unfoldable pub parse_file_tree_v2 : ℕ → V → Metafile → Run Metafile
  unfolding file_tree_entries
  parse_file_tree_v2 rounds root m = do
    entries ← file_tree_entries rounds root
    ok (record m { storage = add_files m.storage entries })

  unfoldable pub parse_file_list_and_tree_hybrid : ℕ → V → Metafile → Run Metafile
  unfolding file_tree_entries
  parse_file_list_and_tree_hybrid rounds root m = do
    m' ← parse_file_list_v1 B root m
    entries ← file_tree_entries rounds root
    fs ← set_roots m'.storage.files entries
    ok (record m' { storage = record m'.storage { files = fs } })
