-- ===== src/Storage/Alignment/Outcome.antt =====
-- What a call of `optimize_alignment` comes to: the new storage, or the failed check at its end.
use dottorrent.Base.{
  ℕ, ◌^◌, ◌<◌, ◌≡◌, refl, sym, ap, ◌∙◌, false, List, [], ◌∷◌, ◌++◌, append-nil, append_assoc, arith,
  Bool-cases, inl, inr, if◌then◌else◌, ◌==◌, Run, ok, violation, expects, ◌>>◌,
}
use dottorrent.Entry.{FileEntry}
use dottorrent.Storage.{
  FileStorage, add64, add_file, add_files, clear, sum_sizes, total_regular_file_size,
  optimize_alignment,
}
use dottorrent.Storage.Totals.{sum_sizes-lt}
use dottorrent.Storage.Alignment.{
  aligned_entries, padding_bytes, old_padding, align_from_lem, sum-aligned_entries, old_padding-lt,
  padding_bytes-lt,
}

files-add_files : (es : List FileEntry) (s : FileStorage) → (add_files s es).files ≡ s.files ++ es
unfolding add_files
files-add_files [] s = sym (append-nil s.files)
files-add_files (e ∷ es) s =
    files-add_files es (add_file s e) ∙ (unfold add_file in append_assoc s.files (e ∷ []) es)

piece_size-add_files :
    (es : List FileEntry) (s : FileStorage) → (add_files s es).piece_size ≡ s.piece_size
unfolding add_files
piece_size-add_files [] s = refl
piece_size-add_files (e ∷ es) s = piece_size-add_files es (add_file s e) ∙ (unfold add_file in refl)

total-add_files :
    (es : List FileEntry) (s : FileStorage)
    → s.total_file_size < 2 ^ 64
    → (add_files s es).total_file_size ≡ add64 s.total_file_size (sum_sizes es)
unfolding add_files
total-add_files [] s h = unfold sum_sizes in omega arith
total-add_files (e ∷ es) s h =
    total-add_files es (add_file s e) (unfold add_file in omega arith)
    ∙ (unfold add_file sum_sizes in omega arith)

-- The storage with the given entries alone.
pub refilled : FileStorage → List FileEntry → FileStorage
refilled s es = add_files (clear s) es

pub files-refilled : (s : FileStorage) (es : List FileEntry) → (refilled s es).files ≡ es
unfolding refilled clear
files-refilled s es = files-add_files es (clear s)

pub piece_size-refilled :
    (s : FileStorage) (es : List FileEntry) → (refilled s es).piece_size ≡ s.piece_size
unfolding refilled clear
piece_size-refilled s es = piece_size-add_files es (clear s)

total-refilled :
    (s : FileStorage) (es : List FileEntry) → (refilled s es).total_file_size ≡ sum_sizes es
unfolding refilled clear
total-refilled s es = total-add_files es (clear s) (omega arith) ∙ omega (arith, sum_sizes-lt es)

eq_shift : (t w z : ℕ) → w < 2 ^ 64 → z < 2 ^ 64 → t ≡ add64 w z → (t == w) ≡ (z == 0)
eq_shift t w z hw hz e = ground arith

-- The check at the end passes if no padding file was there before.
sizes_agree :
    (p : ℕ) (e : FileEntry) (rest : List FileEntry)
    → (sum_sizes (aligned_entries p e rest)
        == add64 (total_regular_file_size (aligned_entries p e rest)) (padding_bytes p e rest))
      ≡ (old_padding (e ∷ rest) == 0)
sizes_agree p e rest =
    eq_shift (sum_sizes (aligned_entries p e rest))
      (add64 (total_regular_file_size (aligned_entries p e rest)) (padding_bytes p e rest))
      (old_padding (e ∷ rest)) (omega arith) (old_padding-lt (e ∷ rest))
      (sum-aligned_entries p e rest)

-- The last two steps, from the entries and the padding bytes.
finish : FileStorage → List FileEntry → ℕ → Run FileStorage
finish s es bytes = do
  let s' = refilled s es
  expects (s'.total_file_size == add64 (total_regular_file_size s'.files) bytes)
  ok s'

finish_lem :
    (s : FileStorage) (p : ℕ) (e : FileEntry) (rest : List FileEntry)
    → finish s (aligned_entries p e rest) (padding_bytes p e rest) ≡ (
        if old_padding (e ∷ rest) == 0
        then ok (refilled s (aligned_entries p e rest))
        else violation)
unfolding finish
finish_lem s p e rest =
    rw
      (
        total-refilled s (aligned_entries p e rest),
        files-refilled s (aligned_entries p e rest),
        sizes_agree p e rest,
      )
      (elim (Bool-cases (old_padding (e ∷ rest) == 0)) [ inl z ↦ rw z refl | inr n ↦ rw n refl ])

optimize_step :
    (s : FileStorage) (e : FileEntry) (rest : List FileEntry)
    → 0 < s.piece_size
    → s.files ≡ e ∷ rest
    → optimize_alignment s
      ≡ finish s (aligned_entries s.piece_size e rest) (padding_bytes s.piece_size e rest)
unfolding optimize_alignment finish refilled
optimize_step s e rest h files =
    let some_size : (s.piece_size == 0) ≡ false = ground arith in
    let run = align_from_lem s.piece_size e rest [] 0 h (omega arith) in
    let bytes : add64 0 (padding_bytes s.piece_size e rest) ≡ padding_bytes s.piece_size e rest =
      omega (arith, padding_bytes-lt s.piece_size e rest) in
    rw (some_size, files) (rw run (rw bytes refl))

-- A storage of some files with a piece size: if its padding files hold no byte, the result is the same
-- storage over the new entries; if they hold some, the check of the sizes fails.
pub optimize_alignment_lem :
    (s : FileStorage) (e : FileEntry) (rest : List FileEntry)
    → 0 < s.piece_size
    → s.files ≡ e ∷ rest
    → optimize_alignment s ≡ (
        if old_padding (e ∷ rest) == 0
        then ok (refilled s (aligned_entries s.piece_size e rest))
        else violation)
optimize_alignment_lem s e rest h files =
    optimize_step s e rest h files ∙ finish_lem s s.piece_size e rest

no_padding : old_padding [] ≡ 0
unfolding old_padding
no_padding = refl

-- With a positive piece size, a storage whose padding files hold some bytes, summed in 64 bits,
-- fails the check at the end of `optimize_alignment`.
pub optimize_alignment_padded :
    (s : FileStorage)
    → 0 < s.piece_size
    → 0 < old_padding s.files
    → optimize_alignment s ≡ violation
optimize_alignment_padded s h some_padding = of_files s.files refl
  where
    of_files : (es : List FileEntry) → s.files ≡ es → optimize_alignment s ≡ violation
    of_files [] same = absurd (omega (arith, some_padding, ap old_padding same, no_padding))
    of_files (e ∷ es) same =
        let padded : (old_padding (e ∷ es) == 0) ≡ false = ground (arith, ap old_padding same) in
        optimize_alignment_lem s e es h same ∙ rw padded refl
