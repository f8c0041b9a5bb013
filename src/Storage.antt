-- ===== src/Storage.antt =====
-- include/dottorrent/file_storage.hpp and src/file_storage.cpp: the files of a torrent, their sizes, the
-- v1 piece hashes, and the functions that lay the files out on pieces. `std::size_t` is 64 bits, with
-- its wrap-around written out. What the constructor leaves uninitialised (`index_valid_`) and the index
-- for directories are not modelled, nor the paths below a root directory.
pub mod Totals
pub mod Pieces
pub mod Modes
pub mod Alignment
pub mod Verify
pub mod Examples
use dottorrent.Base.{
  ℕ, zero, suc, ◌+◌, ◌-◌, ◌*◌, ◌/◌, ◌%◌, ◌^◌, Bool, true, false, not, ◌&&◌, ◌||◌, Option, none,
  some, List, [], ◌∷◌, ◌++◌, map, Bytes, length, get_elem?, set, take, drop, replicate, ltb, leb,
  ◌==◌, if◌then◌else◌, Run, ok, throws, violation, undefined, expects, ◌>>=◌, ◌>>◌, out_of_range,
}
use dottorrent.Utils.{log2_floor}
use dottorrent.Attributes.{FileMode, empty, multi, v1, v2, hybrid}
use dottorrent.Entry.{
  FilePath, FileEntry, is_symlink, is_padding_file, set_last_modified_time, entry_eq,
  make_padding_file_entry,
}

-- Sums and differences of `std::size_t`.
abbrev pub add64 : ℕ → ℕ → ℕ
add64 a b = (a + b) % 2 ^ 64

abbrev pub sub64 : ℕ → ℕ → ℕ
sub64 a b = (a + 2 ^ 64 - b) % 2 ^ 64

pub record FileStorage : Type 0 where
  pub total_file_size : ℕ
  -- The member `total_regular_file_size_`, which no function reads.
  pub regular_file_size : ℕ
  pub piece_size : ℕ
  pub root_directory : FilePath
  pub mode : FileMode
  pub files : List FileEntry
  pub pieces : List Bytes
  pub index_valid : Bool

abbrev pub file_count : FileStorage → ℕ
file_count s = length s.files

unfoldable pub add_file : FileStorage → FileEntry → FileStorage
add_file s file = record s {
  index_valid = false;
  total_file_size = add64 s.total_file_size file.file_size;
  regular_file_size =
      if not (is_padding_file file)
      then add64 s.regular_file_size file.file_size
      else s.regular_file_size;
  files = s.files ++ file ∷ [];
}

unfoldable pub add_files : FileStorage → List FileEntry → FileStorage
unfolding add_file
add_files s [] = s
add_files s (e ∷ es) = add_files (add_file s e) es

-- `erase` moves each entry behind the removed one into the place in front of it. The move assignment of an entry
-- moves `checksums_` of the target into itself, which leaves an empty std::map.
abbrev pub moved_down : FileEntry → FileEntry
moved_down e = record e { checksums = [] }

-- The first entry that is equal to the given one, and the others as `erase` leaves them.
unfoldable pub put_back :
    FileEntry → Option (FileEntry × List FileEntry) → Option (FileEntry × List FileEntry)
put_back x none = none
put_back x (some (y, ys)) = some (y, x ∷ ys)

unfoldable pub find_entry : FileEntry → List FileEntry → Option (FileEntry × List FileEntry)
unfolding put_back
find_entry entry [] = none
find_entry entry (x ∷ xs) =
    if entry_eq x entry then some (x, map moved_down xs) else put_back x (find_entry entry xs)

unfoldable pub remove_found : FileStorage → Option (FileEntry × List FileEntry) → FileStorage
remove_found s none = record s { index_valid = false }
remove_found s (some (found, others)) = record s {
  index_valid = false;
  total_file_size = sub64 s.total_file_size found.file_size;
  regular_file_size =
      if not (is_padding_file found)
      then sub64 s.regular_file_size found.file_size
      else s.regular_file_size;
  files = others;
}

unfoldable pub remove_file : FileStorage → FileEntry → FileStorage
unfolding find_entry remove_found
remove_file s entry = remove_found s (find_entry entry s.files)

unfoldable pub clear : FileStorage → FileStorage
clear s = record s { index_valid = false; files = []; total_file_size = 0 }

-- operator[]
unfoldable pub entry_at : FileStorage → ℕ → Run FileEntry
entry_at s index = elim (get_elem? s.files index) [ none ↦ violation | some e ↦ ok e ]

-- at(pos), which throws where the index is too large.
unfoldable pub at : FileStorage → ℕ → Run FileEntry
at s pos = elim (get_elem? s.files pos) [ none ↦ throws out_of_range | some e ↦ ok e ]

unfoldable pub set_time_at : FileStorage → ℕ → ℕ → Run FileStorage
unfolding set_last_modified_time
set_time_at s index time = do
  expects (ltb index (file_count s))
  e ← at s index
  ok (record s { files = set s.files index (set_last_modified_time e time) })

-- The sum of the sizes, and that without padding files.
unfoldable pub sum_sizes : List FileEntry → ℕ
sum_sizes [] = 0
sum_sizes (e ∷ es) = add64 e.file_size (sum_sizes es)

unfoldable pub total_regular_file_size : List FileEntry → ℕ
total_regular_file_size [] = 0
total_regular_file_size (e ∷ es) =
    add64 (if not (is_padding_file e) then e.file_size else 0) (total_regular_file_size es)

unfoldable pub regular_file_count : List FileEntry → ℕ
regular_file_count [] = 0
regular_file_count (e ∷ es) =
    if not (is_padding_file e) then regular_file_count es + 1 else regular_file_count es

unfoldable pub set_file_mode : FileStorage → FileMode → FileStorage
set_file_mode s mode = record s { mode = mode }

unfoldable pub file_mode : FileStorage → FileMode
file_mode s = if file_count s == 0 then empty else if file_count s == 1 then s.mode else multi

-- Entries that need no v2 data, or have it.
unfoldable pub all_have_v2_data : List FileEntry → Bool
all_have_v2_data [] = true
all_have_v2_data (e ∷ es) =
    (if is_padding_file e || (is_symlink e || e.file_size == 0) then true else e.has_v2_data)
    && all_have_v2_data es

abbrev pub is_empty {ℓ} : {A : Type ℓ} → List A → Bool
is_empty [] = true
is_empty (x ∷ xs) = false

unfoldable pub protocol : FileStorage → ℕ
unfolding all_have_v2_data
protocol s =
    let has_v1 = not (is_empty s.pieces) in
    let has_v2 = all_have_v2_data s.files in
    if has_v1 && has_v2
    then hybrid
    else if has_v1
    then v1
    else if has_v2
    then v2
    else if s.total_file_size == 0
    then v1
    else 0

unfoldable pub piece_count : FileStorage → ℕ
piece_count s =
    if s.piece_size == 0 then 0 else sub64 (add64 s.total_file_size s.piece_size) 1 / s.piece_size

-- std::has_single_bit
unfoldable pub has_single_bit : ℕ → Bool
has_single_bit x = not (x == 0) && 2 ^ log2_floor x == x

unfoldable pub set_piece_size : FileStorage → ℕ → Run FileStorage
unfolding has_single_bit
set_piece_size s size = do
  expects (leb (16 * 1024) size)
  expects (has_single_bit size)
  ok (record s { piece_size = size })

-- The new hashes are zero.
unfoldable pub allocate_pieces : FileStorage → FileStorage
unfolding piece_count
allocate_pieces s = record s { pieces = replicate (piece_count s) (replicate 20 0) }

unfoldable pub get_piece_hash : FileStorage → ℕ → Run Bytes
unfolding piece_count
get_piece_hash s index = do
  expects (ltb index (piece_count s))
  elim (get_elem? s.pieces index) [ none ↦ undefined | some hash ↦ ok hash ]

unfoldable pub set_piece_hash : FileStorage → ℕ → Bytes → Run FileStorage
unfolding piece_count
set_piece_hash s index hash = do
  expects (ltb index (length s.pieces))
  expects (length s.pieces == piece_count s)
  ok (record s { pieces = set s.pieces index hash })

-- The pair of the first piece of a file and the one behind its last; the division by a piece size of
-- zero is undefined.
unfoldable pub get_pieces_offsets : FileStorage → ℕ → Run (ℕ × ℕ)
unfolding at sum_sizes
get_pieces_offsets s file_index = do
  expects (ltb file_index (file_count s))
  entry ← at s file_index
  let cumulative_size = sum_sizes (take file_index s.files)
  if s.piece_size == 0
      then undefined
      else ok (
        cumulative_size / s.piece_size,
        add64 (cumulative_size / s.piece_size)
            (sub64 (add64 entry.file_size s.piece_size) 1 / s.piece_size),
      )

-- The scans, with the sum so far.
unfoldable pub exclusive_scan : ℕ → List FileEntry → List ℕ
exclusive_scan sum [] = []
exclusive_scan sum (e ∷ es) = sum ∷ exclusive_scan (add64 sum e.file_size) es

unfoldable pub exclusive_file_size_scan : FileStorage → List ℕ
unfolding exclusive_scan
exclusive_file_size_scan s = exclusive_scan 0 s.files

unfoldable pub inclusive_scan : (FileEntry → ℕ) → ℕ → List FileEntry → List ℕ
inclusive_scan size sum [] = []
inclusive_scan size sum (e ∷ es) = add64 sum (size e) ∷ inclusive_scan size (add64 sum (size e)) es

unfoldable pub inclusive_file_size_scan_v1 : FileStorage → List ℕ
unfolding inclusive_scan
inclusive_file_size_scan_v1 s = inclusive_scan (λ e. e.file_size) 0 s.files

unfoldable pub inclusive_file_size_scan_v2 : FileStorage → List ℕ
unfolding inclusive_scan
inclusive_file_size_scan_v2 s =
    inclusive_scan (λ e. if is_padding_file e then 0 else e.file_size) 0 s.files

-- The loop of `is_piece_aligned`.
unfoldable pub aligned_from : ℕ → ℕ → Bool → List FileEntry → Bool
aligned_from piece_size bytes_offset is_aligned [] = is_aligned
aligned_from piece_size bytes_offset is_aligned (e ∷ es) =
    aligned_from piece_size (add64 bytes_offset e.file_size)
      (if not (is_padding_file e) then is_aligned && bytes_offset % piece_size == 0 else is_aligned)
      es

unfoldable pub is_piece_aligned : FileStorage → Run Bool
unfolding aligned_from
is_piece_aligned s = do
  expects (not (s.piece_size == 0))
  ok (aligned_from s.piece_size 0 true s.files)

-- The loop of `optimize_alignment` over the entries but the last, and the last, with the entries and the
-- padding bytes so far.
unfoldable pub align_from :
    ℕ → FileEntry → List FileEntry → List FileEntry → ℕ → Run (List FileEntry × ℕ)
align_from piece_size entry [] aligned_entries total_padding_bytes =
    ok (aligned_entries ++ entry ∷ [], total_padding_bytes)
align_from piece_size entry (next ∷ rest) aligned_entries total_padding_bytes =
    let bytes_till_next_piece = piece_size - entry.file_size % piece_size in
    let plain =
      align_from piece_size next rest (aligned_entries ++ entry ∷ []) total_padding_bytes in
    let padded = λ (pad : FileEntry).
      align_from piece_size next rest (aligned_entries ++ entry ∷ pad ∷ [])
        (add64 total_padding_bytes bytes_till_next_piece) in
    do
      expects (not (bytes_till_next_piece == 0))
      if not (bytes_till_next_piece == piece_size)
          then (do pad ← make_padding_file_entry bytes_till_next_piece; padded pad)
          else plain

-- `file_count() - 1` wraps for an empty storage, and the loop then reads a file that is not there.
unfoldable pub optimize_alignment : FileStorage → Run FileStorage
unfolding align_from add_files clear
optimize_alignment s = do
  expects (not (s.piece_size == 0))
  r ← elim s.files [ [] ↦ violation | e ∷ es ↦ align_from s.piece_size e es [] 0 ]
  let s' = add_files (clear s) r.0
  expects (s'.total_file_size == add64 (total_regular_file_size s'.files) r.1)
  ok s'
