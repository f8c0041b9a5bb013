-- ===== src/Verifier/Progress.antt =====
-- v2_piece_verifier::percentage of src/v2_piece_verifier.cpp: how much of a file is verified.
use dottorrent.Base.{
  ℕ, ◌+◌, ◌<◌, ◌^◌, ◌≡◌, ◌||◌, List, [], ◌∷◌, length, take, drop, ltb, leb, ◌==◌, if◌then◌else◌,
  Run, ok, undefined, expects, ◌>>=◌, ◌>>◌, arith, ap, ◌∙◌, Bool-cases, inl, inr,
}
use dottorrent.Entry.{FileEntry, is_padding_file}
use dottorrent.Storage.{FileStorage, add64, entry_at}
use dottorrent.Verifier.{count_ones}
use dottorrent.Verifier.Offsets.{
  entry_pieces, pieces_of, sum_pieces, AllHaveData, entry_pieces_ok, pieces_of_padding,
}
use dottorrent.Verifier.Trees.{V2Verifier}

-- The sum over the files before the given one, a padding file for nothing.
unfoldable pub pieces_before : ℕ → List FileEntry → Run ℕ
unfolding entry_pieces
pieces_before sum [] = ok sum
pieces_before sum (e ∷ es) =
    if is_padding_file e
    then pieces_before (add64 sum 0) es
    else (do n ← entry_pieces e; pieces_before (add64 sum n) es)

-- The pair of the complete pieces and all pieces of a file. The index may be the number of files for
-- the first check, since the list of the offsets has its end; the access of the entry refuses it. An
-- exception ends the program, since the function is `noexcept`.
unfoldable pub v2_percentage : FileStorage → V2Verifier → ℕ → Run (ℕ × ℕ)
unfolding pieces_before count_ones
v2_percentage s v file_index = do
  expects (ltb file_index (length v.file_offsets))
  entry ← entry_at s file_index
  if is_padding_file entry || (entry.file_size == 0) then ok (1, 1) else (do
    number_of_pieces ← entry_pieces entry
    first ← pieces_before 0 (take file_index s.files)
    if leb (first + number_of_pieces) (length v.piece_map)
        then ok (count_ones (take number_of_pieces (drop first v.piece_map)), number_of_pieces)
        else undefined)

-- The sum is the number of pieces of the regular files before, where they have v2 data and the sum fits
-- 64 bits: the offset of the file.
pub pieces_before_lem :
    (sum : ℕ) (es : List FileEntry)
    → AllHaveData es
    → sum + sum_pieces es < 2 ^ 64
    → pieces_before sum es ≡ ok (sum + sum_pieces es)
unfolding pieces_before
pieces_before_lem sum [] have fits = ap ok (omega arith)
pieces_before_lem sum (e ∷ es) (has, have) fits = elim (Bool-cases (is_padding_file e)) [
  | inl pad ↦
      let none_here = pieces_of_padding e pad in
      let same : add64 sum 0 + sum_pieces es ≡ sum + (pieces_of e + sum_pieces es) =
        omega (arith, none_here, fits) in
      rw pad (pieces_before_lem (add64 sum 0) es have (omega (arith, same, fits)) ∙ ap ok same)
  | inr regular ↦
      let same : add64 sum (pieces_of e) + sum_pieces es ≡ sum + (pieces_of e + sum_pieces es) =
        omega (arith, fits) in
      rw (regular, entry_pieces_ok e regular has)
        (pieces_before_lem (add64 sum (pieces_of e)) es have (omega (arith, same, fits))
          ∙ ap ok same)
]
