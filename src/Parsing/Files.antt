-- ===== src/Parsing/Files.antt =====
-- src/metafile_parsing.cpp: the list of the files, and the hashes of their pieces.
use dottorrent.Base.{
  to_u64, ℕ, zero, suc, ◌+◌, ◌*◌, ◌/◌, ◌||◌, Option, none, some, List, [], ◌∷◌, Bytes, codes,
  length, take, drop, ltb, ◌==◌, if◌then◌else◌, Run, ok, throws, violation, undefined, ◌>>=◌,
  parse_error, invalid_argument,
}
use dottorrent.Base.Split.{split}
use dottorrent.Attributes.{make_file_attributes, single, multi}
use dottorrent.Checksum.{is_hash_function_name, make_checksum}
use dottorrent.Entry.{
  FilePath, FileEntry, path_eq, is_padding_file, make_entry, pieces_root, set_pieces_root,
  set_piece_layer, add_checksum,
}
use dottorrent.Storage.{
  FileStorage, add_file, set_file_mode, allocate_pieces, set_piece_hash, set_piece_size,
}
use dottorrent.Metafile.{Metafile}
use dottorrent.Bencode.{Dict, Bencode, found, access, catch_access, find_key, at_key}
use dottorrent.Parsing.{dict_of, info_dict}
use dottorrent.Parsing.Paths.{path_append, path_elements}

-- The digest of a text of the right size.
abbrev pub digest_of : ℕ → Bytes → Run Bytes
digest_of size s = if length s == size then ok s else throws invalid_argument

unfoldable pub digests_of : List Bytes → Run (List Bytes)
digests_of [] = ok []
digests_of (s ∷ ss) = do h ← digest_of 32 s; hs ← digests_of ss; ok (h ∷ hs)

-- The hashes in a string of 20 bytes for each, from the given one on.
unfoldable pub set_pieces : ℕ → ℕ → Bytes → FileStorage → Run FileStorage
set_pieces zero idx pieces s = ok s
set_pieces (suc more) idx pieces s = do
  hash ← digest_of 20 (take 20 (drop (20 * idx) pieces))
  s' ← set_piece_hash s idx hash
  set_pieces more (idx + 1) pieces s'

-- The first entry of the path gets the root; `none` where there is no such entry.
unfoldable pub set_root_at : FilePath → Bytes → List FileEntry → Option (List FileEntry)
set_root_at path root [] = none
set_root_at path root (e ∷ es) =
    let rest = set_root_at path root es in
    if path_eq path e.path
    then some (set_pieces_root e root ∷ es)
    else elim rest [ none ↦ none | some es' ↦ some (e ∷ es') ]

-- An iterator at the end is dereferenced where no entry has the path.
unfoldable pub set_roots : List FileEntry → List FileEntry → Run (List FileEntry)
unfolding set_root_at
set_roots files [] = ok files
set_roots files (e ∷ es) =
    let rest = set_roots files es in
    if ltb 0 e.file_size
    then (do
      root ← pieces_root e
      files' ← found (set_root_at e.path root files) (undefined) (λ fs. ok fs)
      set_roots files' es)
    else rest

module _ {V : Type 0} (B : Bencode V) where
  unfoldable pub append_all : FilePath → List V → Run FilePath
  append_all p [] = ok p
  append_all p (c ∷ cs) = do s ← B.get_as_string c; append_all (path_append p s) cs

  unfoldable pub parse_path : V → Run FilePath
  unfolding append_all
  parse_path v = found (B.get_list v) (violation) (λ cs. append_all [] cs)

  unfoldable pub parse_file_attributes : Dict V → Run (Option ℕ)
  parse_file_attributes file = found (find_key (codes "attr") file) (ok none) (λ v. do
    desc ← access (B.get_string v)
    attributes ← make_file_attributes desc
    ok (some attributes))

  -- The path is assigned through an optional without a value.
  unfoldable pub parse_symlink : Dict V → Run (Option FilePath)
  unfolding parse_path
  parse_symlink file =
      found (find_key (codes "symlink") file) (ok none) (λ v. do target ← parse_path v; undefined)

  -- The fields that are named like a hash function.
  unfoldable pub parse_checksums : Dict V → FileEntry → Run FileEntry
  parse_checksums [] e = ok e
  parse_checksums ((k, v) ∷ file) e =
      let rest = parse_checksums file e in
      if is_hash_function_name k
      then (do
        s ← access (B.get_string v)
        checksum ← make_checksum k s
        parse_checksums file (add_checksum e (checksum.0) (checksum.1)))
      else rest

  unfoldable pub parse_file_name : Dict V → Run FilePath
  unfolding parse_path
  parse_file_name file =
      found (find_key (codes "path") file)
        (found (find_key (codes "name") file) (throws parse_error)
          (λ v. do s ← B.get_as_string v; ok (path_elements s)))
        (λ v. parse_path v)

  abbrev pub parse_length : Dict V → Run ℕ
  parse_length file =
      found (find_key (codes "length") file) (throws parse_error)
        (λ v. do n ← access (B.get_integer v); ok (to_u64 n))

  unfoldable pub parse_file_entry_v1 : V → Run FileEntry
  unfolding parse_file_name parse_file_attributes parse_symlink parse_checksums
  parse_file_entry_v1 v = do
    file ← dict_of B v
    path ← parse_file_name file
    size ← parse_length file
    attributes ← parse_file_attributes file
    symlink ← parse_symlink file
    entry ← make_entry path size attributes symlink
    parse_checksums file entry

  -- Only an empty file may have no root.
  abbrev pub parse_pieces_root : Dict V → ℕ → Run (Option Bytes)
  parse_pieces_root file size =
      found (find_key (codes "pieces root") file)
        (if ltb 0 size then throws parse_error else ok none)
        (λ v. do s ← access (B.get_string v); root ← digest_of 32 s; ok (some root))

  abbrev pub with_root : FileEntry → Option Bytes → FileEntry
  with_root e none = e
  with_root e (some root) = set_pieces_root e root

  unfoldable pub parse_file_entry_v2 : V → FilePath → Run FileEntry
  unfolding parse_file_attributes parse_symlink parse_checksums
  parse_file_entry_v2 v path = do
    file ← dict_of B v
    size ← parse_length file
    root ← parse_pieces_root file size
    attributes ← parse_file_attributes file
    symlink ← parse_symlink file
    entry ← make_entry path size attributes symlink
    parse_checksums file (with_root entry root)

  unfoldable pub add_entries_v1 : FileStorage → List V → Run FileStorage
  unfolding parse_file_entry_v1
  add_entries_v1 s [] = ok s
  add_entries_v1 s (f ∷ fs) = do e ← parse_file_entry_v1 f; add_entries_v1 (add_file s e) fs

  unfoldable pub parse_file_list_v1 : V → Metafile → Run Metafile
  unfolding add_entries_v1 parse_file_entry_v1
  parse_file_list_v1 root m = do
    info ← info_dict B root
    catch_access (
        found (find_key (codes "files") info)
          (do
            d ← dict_of B root
            v ← at_key (codes "info") d
            e ← parse_file_entry_v1 v
            ok (record m { storage = set_file_mode (add_file m.storage e) single }))
          (λ v. do
            fs ← access (B.get_list v)
            s ← add_entries_v1 m.storage fs
            ok (record m { storage = set_file_mode s multi })))

  -- allocate_pieces and one hash for each 20 bytes; what is left over is ignored.
  unfoldable pub parse_pieces_v1 : V → Metafile → Run Metafile
  unfolding set_pieces
  parse_pieces_v1 root m = do
    info ← info_dict B root
    found (find_key (codes "pieces") info) (throws parse_error) (λ v. do
      pieces ← access (B.get_string v)
      s ← set_pieces (length pieces / 20) 0 pieces (allocate_pieces m.storage)
      ok (record m { storage = s }))

  unfoldable pub parse_piece_size : V → Metafile → Run Metafile
  parse_piece_size root m = do
    info ← info_dict B root
    found (find_key (codes "piece length") info) (throws parse_error) (λ v. do
      n ← access (B.get_integer v)
      s ← set_piece_size m.storage (to_u64 n)
      ok (record m { storage = s }))

  -- The layer of a file that is at least as large as a piece, where there is one.
  unfoldable pub parse_layer : ℕ → Dict V → FileEntry → Run FileEntry
  unfolding digests_of
  parse_layer piece_size layers f =
      if ltb f.file_size piece_size || is_padding_file f then ok f else (do
        root ← pieces_root f
        found (find_key root layers) (ok f) (λ v. do
          s ← access (B.get_string v)
          hashes ← digests_of (split 32 s)
          ok (set_piece_layer f hashes)))

  unfoldable pub parse_layers : ℕ → Dict V → List FileEntry → Run (List FileEntry)
  unfolding parse_layer
  parse_layers piece_size layers [] = ok []
  parse_layers piece_size layers (f ∷ fs) = do
    f' ← parse_layer piece_size layers f
    fs' ← parse_layers piece_size layers fs
    ok (f' ∷ fs')

  unfoldable pub parse_piece_layers_v2 : V → Metafile → Run Metafile
  unfolding parse_layers
  parse_piece_layers_v2 root m = do
    d ← dict_of B root
    v ← found (find_key (codes "piece layers") d) (throws parse_error) (λ v. ok v)
    layers ← found (B.get_dict v) (throws parse_error) (λ layers. ok layers)
    fs ← parse_layers m.storage.piece_size layers m.storage.files
    ok (record m { storage = record m.storage { files = fs } })
