-- ===== src/Verifier.antt =====
-- src/v1_piece_writer.cpp, src/v1_piece_verifier.cpp, src/v2_piece_writer.cpp and
-- src/v2_piece_verifier.cpp: what the pool of a writer or a verifier does with one hashed piece. The calls
-- that these classes pass on to their pools are those of the pools. A percentage is the pair of its counts,
-- without the division of doubles.
pub mod Pieces
pub mod Trees
pub mod Whole
pub mod Offsets
pub mod Progress
pub mod Examples
use dottorrent.Base.{
  ℕ, zero, suc, ◌+◌, ◌-◌, ◌*◌, ◌/◌, ◌%◌, ◌^◌, Bool, true, false, Option, none, some, List, [], ◌∷◌,
  ◌++◌, Bytes, bytes_eq, length, take, drop, set, replicate, ltb, leb, ◌==◌, if◌then◌else◌, Run, ok,
  throws, violation, undefined, expects, ◌>>=◌, ◌>>◌,
}
use dottorrent.Storage.{
  FileStorage, piece_count, get_piece_hash, set_piece_hash, get_pieces_offsets, add64, sub64,
}

-- v1_piece_writer::set_finished_piece, and that of v2_piece_writer for a v1 piece.
unfoldable pub set_finished_piece : FileStorage → ℕ × Bytes → Run FileStorage
set_finished_piece s piece = set_piece_hash s (piece.0) (piece.1)

unfoldable pub set_finished_pieces : FileStorage → List (ℕ × Bytes) → Run FileStorage
unfolding set_finished_piece
set_finished_pieces s [] = ok s
set_finished_pieces s (p ∷ ps) = do s' ← set_finished_piece s p; set_finished_pieces s' ps

-- The constructor of v1_piece_verifier: one entry for each piece, none of them verified.
unfoldable pub new_piece_map : FileStorage → List ℕ
new_piece_map s = replicate (piece_count s) 0

unfoldable pub verify_finished_piece : FileStorage → List ℕ → ℕ × Bytes → Run (List ℕ)
verify_finished_piece s piece_map piece = do
  expects (ltb (piece.0) (piece_count s))
  real_hash ← get_piece_hash s (piece.0)
  if ltb (piece.0) (length piece_map)
      then ok (set piece_map (piece.0) (if bytes_eq real_hash (piece.1) then 1 else 0))
      else undefined

unfoldable pub verify_finished_pieces : FileStorage → List ℕ → List (ℕ × Bytes) → Run (List ℕ)
unfolding verify_finished_piece
verify_finished_pieces s piece_map [] = ok piece_map
verify_finished_pieces s piece_map (p ∷ ps) = do
  piece_map' ← verify_finished_piece s piece_map p
  verify_finished_pieces s piece_map' ps

-- The number of entries that are 1.
unfoldable pub count_ones : List ℕ → ℕ
count_ones [] = 0
count_ones (b ∷ bs) = if b == 1 then suc (count_ones bs) else count_ones bs

-- v1_piece_verifier::percentage: the complete pieces and all pieces of a file; a file without pieces is
-- complete. The range must lie in the piece map.
unfoldable pub percentage : FileStorage → List ℕ → ℕ → Run (ℕ × ℕ)
unfolding count_ones get_pieces_offsets
percentage s piece_map file_index = do
  range ← get_pieces_offsets s file_index
  let number_of_pieces = sub64 (range.1) (range.0)
  if number_of_pieces == 0
      then ok (1, 1)
      else if leb (range.1) (length piece_map)
      then ok (count_ones (take number_of_pieces (drop (range.0) piece_map)), number_of_pieces)
      else undefined
