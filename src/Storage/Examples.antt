-- ===== src/Storage/Examples.antt =====
-- A storage of two files, with a piece size of 16 KiB.
use dottorrent.Base.{
  ◌++◌, bytes_eq, ℕ, ◌+◌, ◌*◌, ◌%◌, ◌^◌, ◌<◌, ◌≤◌, ◌≡◌, ◌≢◌, refl, true, false, not, ◌&&◌, ◌||◌,
  none, some, List, [], ◌∷◌, Bytes, codes, arith, replicate, if◌then◌else◌, ◌==◌, ok, violation,
  ◌>>=◌, take,
}
use dottorrent.Merkle.Fold.{subtree}
use dottorrent.Storage.Verify.{verify_entry}
use dottorrent.Storage.Verify.Leaves.{layer_leaf, verify_entry_lem}
use dottorrent.Utils.{log2_ceil, log2_floor, countl_zero}
use dottorrent.Attributes.{single, v1, v2, padding_file}
use dottorrent.Entry.{FileEntry}
use dottorrent.Entry.{is_padding_file}
use dottorrent.Storage.{
  FileStorage, piece_count, allocate_pieces, get_pieces_offsets, sum_sizes, set_piece_size,
  protocol, is_empty, all_have_v2_data, optimize_alignment, is_piece_aligned,
}
use dottorrent.Storage.Totals.{
  IsCounted, StorageCall, added, removed, cleared, run_calls, run_calls-IsCounted,
}
use dottorrent.Storage.Pieces.{get_pieces_offsets_lem}
use dottorrent.Storage.Modes.{protocol_bits}
use dottorrent.Storage.Alignment.{old_padding}
use dottorrent.Storage.Alignment.Outcome.{optimize_alignment_padded}
use dottorrent.Storage.Alignment.Boundaries.{
  regular_files, optimize_alignment_keeps, optimize_alignment_aligns,
}

abbrev file : ℕ → FileEntry
file size = record {
  path = codes "a" ∷ [];
  file_size = size;
  checksums = [];
  has_v2_data = false;
  root_hash = replicate 32 0;
  layer = [];
  attributes = none;
  symlink_path = none;
  last_modified_time = none;
}

abbrev pad : FileEntry
pad = record (file 7) { attributes = some padding_file }

abbrev holding : List FileEntry → ℕ → FileStorage
holding files total = record {
  total_file_size = total;
  regular_file_size = 0;
  piece_size = 16384;
  root_directory = [];
  mode = single;
  files = files;
  pieces = [];
  index_valid = false;
}

abbrev two_files : FileStorage
two_files = holding (file 20000 ∷ file 5 ∷ []) 20005

two_files-IsCounted : IsCounted two_files
two_files-IsCounted = record {
  sized = (omega arith, (omega arith, tt));
  counted = unfold sum_sizes in refl;
}

abbrev calls : List StorageCall
calls = added (file 3) ∷ removed (file 3) ∷ cleared ∷ added (file 4) ∷ []

run_calls-IsCounted_example : IsCounted (run_calls two_files calls)
run_calls-IsCounted_example =
    run_calls-IsCounted calls two_files (omega arith, (tt, (tt, (omega arith, tt))))
      two_files-IsCounted

abbrev hash : Bytes
hash = replicate 20 7

allocated_room : 1 < piece_count (allocate_pieces two_files)
unfolding piece_count allocate_pieces
allocated_room = omega arith

abbrev aligned_files : FileStorage
aligned_files = holding (file 32768 ∷ file 20000 ∷ []) 52768

aligned_boundary : sum_sizes (take 1 aligned_files.files) % 16384 ≡ 0
unfolding sum_sizes
aligned_boundary = refl

aligned_fits : sum_sizes (take 1 aligned_files.files) + 20000 + 16384 ≤ 2 ^ 64
unfolding sum_sizes
aligned_fits = omega arith

get_pieces_offsets_lem_example :
    (first last : ℕ) × (get_pieces_offsets aligned_files 1 ≡ ok (first, last))
    × (first * 16384 ≡ sum_sizes (take 1 aligned_files.files))
    × (sum_sizes (take 1 aligned_files.files) + 20000 ≤ last * 16384)
    × (last * 16384 < sum_sizes (take 1 aligned_files.files) + 20000 + 16384)
get_pieces_offsets_lem_example =
    get_pieces_offsets_lem aligned_files 1 (file 20000) (omega arith) refl aligned_boundary
      aligned_fits

set_piece_size_test : set_piece_size two_files 32768 ≡ ok (record two_files { piece_size = 32768 })
unfolding set_piece_size log2_floor countl_zero
set_piece_size_test = refl

protocol_bits_example :
    protocol two_files
    ≡ (if not (is_empty two_files.pieces)
          || (not (all_have_v2_data two_files.files) && two_files.total_file_size == 0)
        then v1
        else 0)
      + (if all_have_v2_data two_files.files then v2 else 0)
protocol_bits_example = protocol_bits two_files

two_files_unpadded : old_padding two_files.files ≡ 0
unfolding old_padding is_padding_file
two_files_unpadded = refl

two_files_some : two_files.files ≢ []
two_files_some e = cc

optimize_alignment_keeps_example :
    (s' : FileStorage) × (optimize_alignment two_files ≡ ok s')
    × (regular_files s'.files ≡ regular_files two_files.files)
    × (s'.piece_size ≡ 16384)
optimize_alignment_keeps_example =
    optimize_alignment_keeps two_files (omega arith) two_files_some two_files_unpadded

optimize_alignment_aligns_example : (optimize_alignment two_files >>= is_piece_aligned) ≡ ok true
optimize_alignment_aligns_example =
    optimize_alignment_aligns two_files (omega arith) two_files_some two_files_unpadded (2 ^ 50)
      refl

padded_files : 0 < old_padding (holding (file 3 ∷ pad ∷ []) 10).files
unfolding old_padding is_padding_file
padded_files = omega arith

optimize_alignment_padded_example : optimize_alignment (holding (file 3 ∷ pad ∷ []) 10) ≡ violation
optimize_alignment_padded_example =
    optimize_alignment_padded (holding (file 3 ∷ pad ∷ []) 10) (omega arith) padded_files

abbrev hashed_file : FileEntry
hashed_file = record (file 50000) { has_v2_data = true; layer = hash ∷ replicate 32 1 ∷ hash ∷ [] }

abbrev combine : Bytes → Bytes → Bytes
combine a b = take 32 (a ++ b)

verify_entry_lem_example :
    verify_entry combine hashed_file
    ≡ ok (bytes_eq (subtree combine (log2_ceil 3) (layer_leaf hashed_file) 0) hashed_file.root_hash)
verify_entry_lem_example = verify_entry_lem combine hashed_file refl (omega arith) (omega arith)
