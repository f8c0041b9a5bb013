-- ===== src/Verifier/Examples.antt =====
-- The v1 pipeline on two files with pieces of four bytes, where the digest is the text itself, and the
-- offsets of three entries.
use dottorrent.Base.{
  ◌+◌, ℕ, ◌*◌, ◌<◌, ◌≡◌, refl, true, false, none, some, List, [], ◌∷◌, map, Bytes, replicate, arith,
  ok, ◌>>=◌, inr,
}
use dottorrent.Attributes.{multi, padding_file}
use dottorrent.Entry.{FileEntry, is_padding_file, has_attribute}
use dottorrent.Storage.{FileStorage, piece_count}
use dottorrent.Reader.{file}
use dottorrent.Reader.Files.{ArePresent}
use dottorrent.Verifier.Whole.{
  CanRead, hash_storage, hash_storage_lem, verify_storage, verify_storage_lem, verify-hash_storage,
  digests_of,
}
use dottorrent.Reader.Times.{with_times}
use dottorrent.Verifier.Pieces.{matches}
use dottorrent.Verifier.Offsets.{
  offsets_lem, offsets_from, map_size_from, front_to_back, expected_offsets, sum_pieces, pieces_of,
}

abbrev entry : ℕ → FileEntry
entry size = record {
  path = (97 ∷ []) ∷ [];
  file_size = size;
  checksums = [];
  has_v2_data = true;
  root_hash = [];
  layer = [];
  attributes = none;
  symlink_path = none;
  last_modified_time = none;
}

abbrev two_files : FileStorage
two_files = record {
  total_file_size = 11;
  regular_file_size = 11;
  piece_size = 4;
  root_directory = [];
  mode = multi;
  files = entry 5 ∷ entry 6 ∷ [];
  pieces = replicate 3 [];
  index_valid = false;
}

abbrev texts : List Bytes
texts = (1 ∷ 2 ∷ 3 ∷ 4 ∷ 5 ∷ []) ∷ (6 ∷ 7 ∷ 8 ∷ 9 ∷ 10 ∷ 11 ∷ []) ∷ []

texts_present : ArePresent (entry 5 ∷ entry 6 ∷ []) texts
unfolding is_padding_file has_attribute
texts_present = ((refl, refl), ((refl, refl), tt))

three_pieces : piece_count two_files ≡ 3
unfolding piece_count
three_pieces = refl

readable :
    (pieces_per_chunk : ℕ)
    → 0 < pieces_per_chunk
    → pieces_per_chunk < 3
    → CanRead two_files (4 * pieces_per_chunk) pieces_per_chunk texts
readable n pos small = record {
  present = texts_present;
  sized = refl;
  few_files = omega arith;
  fits = omega arith;
  positive = omega arith;
  some_pieces = pos;
  whole = refl;
  chunk_fits = omega (arith, small);
  few_pieces = omega (arith, three_pieces);
}

hash_storage_lem_example :
    hash_storage (λ d. d) (λ i. 100 + i) two_files (4 * 2) (map file texts)
    ≡ ok (record two_files {
      files = with_times (λ i. 100 + i) 0 two_files.files;
      pieces = digests_of (λ d. d) two_files texts;
    })
unfolding piece_count
hash_storage_lem_example =
    hash_storage_lem (λ d. d) (λ i. 100 + i) two_files (4 * 2) 2 texts
      (readable 2 (omega arith) (omega arith)) refl

verify_storage_lem_example :
    verify_storage (λ d. d) two_files (4 * 2) (map file texts)
    ≡ ok (matches (replicate 3 []) (digests_of (λ d. d) two_files texts))
unfolding piece_count
verify_storage_lem_example =
    verify_storage_lem (λ d. d) two_files (4 * 2) 2 texts (readable 2 (omega arith) (omega arith))
      refl

verify-hash_storage_example :
    (do
      s ← hash_storage (λ d. d) (λ i. 100 + i) two_files (4 * 2) (map file texts)
      verify_storage (λ d. d) s (4 * 1) (map file texts))
    ≡ ok (replicate (piece_count two_files) 1)
unfolding piece_count
verify-hash_storage_example =
    verify-hash_storage (λ d. d) (λ i. 100 + i) two_files (4 * 2) 2 (4 * 1) 1 texts
      (readable 2 (omega arith) (omega arith)) (readable 1 (omega arith) (omega arith)) refl

abbrev pad : FileEntry
pad = record (entry 3) { attributes = some padding_file }

abbrev long : FileEntry
long = record (entry 5) { layer = replicate 2 [] }

offsets_lem_example :
    ((r : List ℕ) × (offsets_from (long ∷ pad ∷ entry 1 ∷ []) (0 ∷ []) ≡ ok r)
      × (front_to_back r [] ≡ expected_offsets 0 (long ∷ pad ∷ entry 1 ∷ [])))
    × (map_size_from 0 (long ∷ pad ∷ entry 1 ∷ []) ≡ ok (sum_pieces (long ∷ pad ∷ entry 1 ∷ [])))
unfolding pieces_of is_padding_file has_attribute
offsets_lem_example =
    offsets_lem (long ∷ pad ∷ entry 1 ∷ []) (inr refl, (inr refl, (inr refl, tt))) (omega arith)
