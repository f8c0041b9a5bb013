-- ===== src/Serialization.antt =====
-- src/metafile_serialization.cpp, the conversions of include/dottorrent/serialization/, and the strings of
-- hashes of src/file_storage.cpp: a metafile as a bencode value. What bencode does is the parameter `B`.
pub mod Torrents
pub mod Hashes
pub mod Fields
use dottorrent.Base.{
  negsuc, pos, to_i64, ℤ, ℕ, zero, suc, ◌+◌, ◌^◌, Bool, true, false, not, Option, none, some, List,
  [], ◌∷◌, ◌++◌, map, Bytes, codes, length, ltb, ◌==◌, if◌then◌else◌, Run, ok, throws, violation,
  undefined, ◌>>=◌, ◌>>◌, invalid_argument, bad_optional_access,
}
use dottorrent.Base.Decimal.{to_decimal}
use dottorrent.Hex.{to_hexadecimal_string}
use dottorrent.Attributes.{FileMode, empty, single, multi, v1, v2, hybrid, attributes_to_string}
use dottorrent.Entry.{FilePath, FileEntry, is_symlink, is_padding_file, pieces_root, piece_layer}
use dottorrent.Storage.{FileStorage, file_mode, at}
use dottorrent.Announce.{AnnounceUrl}
use dottorrent.InfoHash.{InfoHash, deref}
use dottorrent.Metafile.{DhtNode, Metafile}
use dottorrent.Bencode.{Dict, Bencode, access, find_key, insert_or_assign}

-- The tiers of the list: one more begins where the tier of an entry is not the current one.
unfoldable pub tiers_from : ℕ → List Bytes → List AnnounceUrl → List (List Bytes)
tiers_from current part [] = part ∷ []
tiers_from current part (a ∷ announces) =
    let same = tiers_from current (part ++ a.url ∷ []) announces in
    let next = tiers_from (suc current) (a.url ∷ []) announces in
    if current == a.tier then same else part ∷ next

unfoldable pub announce_tiers : List AnnounceUrl → List (List Bytes)
unfolding tiers_from
announce_tiers [] = []
announce_tiers (a ∷ announces) = tiers_from 0 [] (a ∷ announces)

abbrev pub join_all : List Bytes → Bytes
join_all [] = []
join_all (s ∷ ss) = s ++ join_all ss

unfoldable pub make_v1_pieces_string : FileStorage → Bytes
make_v1_pieces_string s = join_all s.pieces

unfoldable pub make_v2_piece_layers_string : FileEntry → Run Bytes
make_v2_piece_layers_string e = do layer ← piece_layer e; ok (join_all layer)

-- filename(), which is empty behind a slash.
abbrev pub filename : FilePath → Bytes
filename [] = []
filename ((c ∷ []) ∷ []) = if c == b'/' then [] else c ∷ []
filename (x ∷ []) = x
filename (x ∷ y ∷ p) = filename (y ∷ p)

-- The hexadecimal MD5 of the decimal number that `std::hash` gives for the list.
unfoldable pub make_cross_seed_hash :
    (List AnnounceUrl → ℕ) → (Bytes → Bytes) → List AnnounceUrl → Bytes
make_cross_seed_hash hash md5 announces = to_hexadecimal_string (md5 (to_decimal (hash announces)))

abbrev pub symlink_target : FileEntry → Run FilePath
symlink_target e = elim e.symlink_path [ none ↦ throws bad_optional_access | some p ↦ ok p ]

abbrev pub is_filled : Bytes → Bool
is_filled [] = false
is_filled (c ∷ s) = true

abbrev pub is_some_list {ℓ} : {A : Type ℓ} → List A → Bool
is_some_list [] = false
is_some_list (x ∷ xs) = true

module _ {V : Type 0} (B : Bencode V) where
  abbrev pub put_if : Bool → Bytes → V → Dict V → Dict V
  put_if b key v d = if b then insert_or_assign key v d else d

  abbrev pub strings : List Bytes → V
  strings ss = B.list (map B.string ss)

  abbrev pub number : ℕ → V
  number n = B.integer (to_i64 n)

  unfoldable pub put_checksums : List (Bytes × Bytes) → Dict V → Dict V
  put_checksums [] d = d
  put_checksums ((name, value) ∷ cs) d = put_checksums cs (insert_or_assign name (B.string value) d)

  abbrev pub put_attributes : FileEntry → Dict V → Dict V
  put_attributes e d = elim e.attributes [
    | none ↦ d
    | some a ↦ insert_or_assign (codes "attr") (B.string (attributes_to_string a)) d
  ]

  unfoldable pub put_symlink : FileEntry → Dict V → Run (Dict V)
  put_symlink e d =
      if is_symlink e
      then (do
        target ← symlink_target e
        ok (insert_or_assign (codes "symlink path") (strings target) d))
      else ok d

  -- An element of `files`.
  unfoldable pub make_file_info_v1 : FileEntry → Run V
  unfolding put_symlink put_checksums
  make_file_info_v1 e =
      let sized = insert_or_assign (codes "length") (number e.file_size) [] in
      let placed = insert_or_assign (codes "path") (strings e.path) sized in
      do
        linked ← put_symlink e (put_attributes e placed)
        ok (B.dict (put_checksums e.checksums linked))

  unfoldable pub make_file_list : List FileEntry → Run (List V)
  unfolding make_file_info_v1
  make_file_list [] = ok []
  make_file_list (e ∷ es) = do v ← make_file_info_v1 e; vs ← make_file_list es; ok (v ∷ vs)

  abbrev pub name_of : Metafile → V
  name_of m = B.string (if is_filled m.name then m.name else filename m.storage.root_directory)

  -- The v1 files of a storage, by its mode; `named` for the name beside a list of files.
  unfoldable pub put_files_in_mode : FileMode → Metafile → Bool → Dict V → Run (Dict V)
  unfolding make_file_list
  put_files_in_mode empty m named d = ok d
  put_files_in_mode single m named d = do
    file ← at m.storage 0
    let sized = insert_or_assign (codes "length") (number file.file_size) d
    ok (insert_or_assign (codes "name") (B.string (filename file.path)) sized)
  put_files_in_mode multi m named d = do
    vs ← make_file_list m.storage.files
    ok (put_if named (codes "name") (name_of m) (insert_or_assign (codes "files") (B.list vs) d))

  unfoldable pub put_files_v1 : Metafile → Bool → Dict V → Run (Dict V)
  unfolding put_files_in_mode
  put_files_v1 m named d = put_files_in_mode (file_mode m.storage) m named d

  unfoldable pub put_fields : Dict V → Dict V → Dict V
  put_fields [] d = d
  put_fields ((k, v) ∷ fields) d = put_fields fields (insert_or_assign k v d)

  -- What ends each info dictionary.
  unfoldable pub put_last : (List AnnounceUrl → Bytes) → Metafile → Dict V → Dict V → Dict V
  unfolding put_fields
  put_last cross_seed m other d =
      let private_ = put_if m.is_private (codes "private") (B.integer (pos 1)) d in
      let sourced = put_if (is_filled m.source) (codes "source") (B.string m.source) private_ in
      put_if m.enable_cross_seeding (codes "cross_seed_entry")
        (B.string (cross_seed m.announce_list)) (put_fields other sourced)

  unfoldable pub make_bvalue_infodict_v1 :
      (List AnnounceUrl → Bytes) → Metafile → Dict V → Run (Dict V)
  unfolding put_files_v1 put_last make_v1_pieces_string
  make_bvalue_infodict_v1 cross_seed m other = do
    files ← put_files_v1 m true []
    let sized = insert_or_assign (codes "piece length") (number m.storage.piece_size) files
    let hashed =
        insert_or_assign (codes "pieces") (B.string (make_v1_pieces_string m.storage)) sized
    ok (put_last cross_seed m other hashed)

  -- The value of a file in the tree; only v2 metafiles have its checksums there.
  unfoldable pub make_file_info_v2 : Bool → FileEntry → Run V
  unfolding put_symlink put_checksums
  make_file_info_v2 checksums e = do
    let sized = insert_or_assign (codes "length") (number e.file_size) (put_attributes e [])
    rooted ←
        if not (e.file_size == 0)
        then (do
          root ← pieces_root e
          ok (insert_or_assign (codes "pieces root") (B.string root) sized))
        else ok sized
    linked ← put_symlink e rooted
    ok (B.dict (if checksums then put_checksums e.checksums linked else linked))

  -- The value at the end of a path of dictionaries, which are made where they are missing.
  unfoldable pub tree_insert : FilePath → V → Dict V → Run (Dict V)
  tree_insert [] v d = ok (insert_or_assign [] v d)
  tree_insert (component ∷ path) v d = do
    below ← elim (find_key component d) [ none ↦ ok [] | some x ↦ access (B.get_dict x) ]
    below' ← tree_insert path v below
    ok (insert_or_assign component (B.dict below') d)

  unfoldable pub make_file_tree : Bool → List FileEntry → Dict V → Run (Dict V)
  unfolding make_file_info_v2 tree_insert
  make_file_tree checksums [] d = ok d
  make_file_tree checksums (e ∷ es) d = do
    v ← make_file_info_v2 checksums e
    d' ← tree_insert e.path v d
    make_file_tree checksums es d'

  unfoldable pub make_bvalue_infodict_v2 :
      (List AnnounceUrl → Bytes) → Metafile → Dict V → Run (Dict V)
  unfolding make_file_tree put_last
  make_bvalue_infodict_v2 cross_seed m other = do
    let named = insert_or_assign (codes "name") (name_of m) []
    let versioned = insert_or_assign (codes "meta version") (B.integer (pos 2)) named
    let sized = insert_or_assign (codes "piece length") (number m.storage.piece_size) versioned
    tree ← make_file_tree true m.storage.files []
    ok (put_last cross_seed m other (insert_or_assign (codes "file tree") (B.dict tree) sized))

  abbrev pub without_padding : List FileEntry → List FileEntry
  without_padding [] = []
  without_padding (e ∷ es) =
      if is_padding_file e then without_padding es else e ∷ without_padding es

  unfoldable pub make_bvalue_infodict_hybrid :
      (List AnnounceUrl → Bytes) → Metafile → Dict V → Run (Dict V)
  unfolding put_files_v1 make_file_tree put_last make_v1_pieces_string
  make_bvalue_infodict_hybrid cross_seed m other = do
    files ← put_files_v1 m false []
    tree ← make_file_tree false (without_padding m.storage.files) []
    let treed = insert_or_assign (codes "file tree") (B.dict tree) files
    let named = insert_or_assign (codes "name") (name_of m) treed
    let sized = insert_or_assign (codes "piece length") (number m.storage.piece_size) named
    let hashed =
        insert_or_assign (codes "pieces") (B.string (make_v1_pieces_string m.storage)) sized
    ok (
        put_last cross_seed m other
          (insert_or_assign (codes "meta version") (B.integer (pos 2)) hashed))
