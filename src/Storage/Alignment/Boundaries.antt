-- ===== src/Storage/Alignment/Boundaries.antt =====
-- Each file of the new entries starts at a piece boundary, and the regular files are the old ones.
use native.Mathlib.Nat.{mod-lt, div-add-mod', add-mul-mod_self_right, mul-mod_left, zero-mod}
use dottorrent.Base.{
  ℕ, ◌+◌, ◌-◌, ◌*◌, ◌/◌, ◌%◌, ◌^◌, ◌<◌, ◌≡◌, ◌≢◌, refl, sym, ap, ◌∙◌, true, false, List, [], ◌∷◌,
  arith, Bool-cases, inl, inr, if◌then◌else◌, ◌==◌, ok, ◌>>=◌,
}
use dottorrent.Entry.{FileEntry, is_padding_file}
use dottorrent.Storage.{FileStorage, add64, aligned_from, is_piece_aligned, optimize_alignment}
use dottorrent.Storage.Alignment.{
  till_next, padding, is_padding_file-padding, file_size-padding, aligned_entries, old_padding,
}
use dottorrent.Storage.Alignment.Outcome.{
  refilled, files-refilled, piece_size-refilled, optimize_alignment_lem,
}

module _ (p q : ℕ) (pos : 0 < p) (divides : q * p ≡ 2 ^ 64) where
  -- Wrapping at 2^64 does not change the place in a piece.
  wrap_mod : (n : ℕ) → n % 2 ^ 64 % p ≡ n % p
  wrap_mod n =
      let parts : n % 2 ^ 64 + n / 2 ^ 64 * q * p ≡ n =
        omega (arith, ap (λ (m : ℕ). n / 2 ^ 64 * m) divides) in
      sym (add-mul-mod_self_right (n % 2 ^ 64) (n / 2 ^ 64 * q) p) ∙ ap (λ m. m % p) parts

  -- From a boundary, a file and its padding lead to a boundary.
  next_boundary : (off size : ℕ) → off % p ≡ 0 → add64 (add64 off size) (p - size % p) % p ≡ 0
  next_boundary off size h =
      let off_parts = div-add-mod' off p in
      let size_parts = div-add-mod' size p in
      let below = mod-lt size {m = p} pos in
      let whole : off + size + (p - size % p) ≡ (off / p + size / p + 1) * p =
        omega (arith, off_parts, size_parts) in
      let unwrapped : add64 (add64 off size) (p - size % p)
          ≡ (off + size + (p - size % p)) % 2 ^ 64 =
        omega arith in
      ap (λ m. m % p) unwrapped ∙ wrap_mod _ ∙ ap (λ m. m % p) whole ∙ mul-mod_left _ p

  whole_file : (off size : ℕ) → off % p ≡ 0 → size % p ≡ 0 → add64 off size % p ≡ 0
  whole_file off size h k =
      let off_parts = div-add-mod' off p in
      let size_parts = div-add-mod' size p in
      let whole : off + size ≡ (off / p + size / p) * p = omega (arith, off_parts, size_parts) in
      wrap_mod _ ∙ ap (λ m. m % p) whole ∙ mul-mod_left _ p

  -- One entry at a boundary keeps the answer.
  aligned_step :
      (off : ℕ) (e : FileEntry) (es : List FileEntry)
      → off % p ≡ 0
      → aligned_from p off true (e ∷ es) ≡ aligned_from p (add64 off e.file_size) true es
  unfolding aligned_from
  aligned_step off e es h = ground (arith, h)

  aligned_step_padding :
      (off n : ℕ) (es : List FileEntry)
      → aligned_from p off true (padding n ∷ es) ≡ aligned_from p (add64 off n) true es
  unfolding aligned_from
  aligned_step_padding off n es = rw (is_padding_file-padding n, file_size-padding n) refl

  aligned-aligned_entries :
      (off : ℕ) (e : FileEntry) (rest : List FileEntry)
      → off % p ≡ 0
      → aligned_from p off true (aligned_entries p e rest) ≡ true
  unfolding aligned_entries
  aligned-aligned_entries off e [] h = aligned_step off e [] h ∙ (unfold aligned_from in refl)
  aligned-aligned_entries off e (f ∷ rest) h = elim (Bool-cases (till_next p e == p)) [
    | inl same ↦
        let whole : e.file_size % p ≡ 0 = ground (arith, mod-lt e.file_size {m = p} pos) in
        rw same (
          aligned_step off e _ h
          ∙ aligned-aligned_entries (add64 off e.file_size) f rest
              (whole_file off e.file_size h whole))
    | inr other ↦ rw other (
        aligned_step off e _ h
        ∙ aligned_step_padding (add64 off e.file_size) (till_next p e) (aligned_entries p f rest)
        ∙ aligned-aligned_entries (add64 (add64 off e.file_size) (till_next p e)) f rest
            (next_boundary off e.file_size h))
  ]

-- The entries that are no padding files.
pub regular_files : List FileEntry → List FileEntry
regular_files [] = []
regular_files (e ∷ es) = if is_padding_file e then regular_files es else e ∷ regular_files es

regular-aligned_entries :
    (p : ℕ) (e : FileEntry) (rest : List FileEntry)
    → regular_files (aligned_entries p e rest) ≡ regular_files (e ∷ rest)
unfolding regular_files aligned_entries
regular-aligned_entries p e [] = refl
regular-aligned_entries p e (f ∷ rest) = elim (Bool-cases (till_next p e == p)) [
  | inl same ↦ rw same (unfold regular_files in rw (regular-aligned_entries p f rest) refl)
  | inr other ↦
      rw (other, regular_files, is_padding_file-padding (till_next p e))
        (rw (regular-aligned_entries p f rest) refl)
]

outcome :
    (s : FileStorage) (es : List FileEntry)
    → 0 < s.piece_size
    → s.files ≡ es
    → es ≢ []
    → old_padding es ≡ 0
    → (e : FileEntry) × (rest : List FileEntry) × (s.files ≡ e ∷ rest)
      × (optimize_alignment s ≡ ok (refilled s (aligned_entries s.piece_size e rest)))
outcome s [] pos same some_file unpadded = absurd (some_file refl)
outcome s (e ∷ rest) pos same some_file unpadded =
    let z : (old_padding (e ∷ rest) == 0) ≡ true = ground (arith, unpadded) in
    (e, rest, same, optimize_alignment_lem s e rest pos same ∙ rw z refl)

is_piece_aligned-refilled :
    (s : FileStorage) (q : ℕ) (e : FileEntry) (rest : List FileEntry)
    → 0 < s.piece_size
    → q * s.piece_size ≡ 2 ^ 64
    → is_piece_aligned (refilled s (aligned_entries s.piece_size e rest)) ≡ ok true
unfolding is_piece_aligned
is_piece_aligned-refilled s q e rest pos divides =
    let some_size : (s.piece_size == 0) ≡ false = ground arith in
    rw
      (
        piece_size-refilled s (aligned_entries s.piece_size e rest),
        files-refilled s (aligned_entries s.piece_size e rest),
        some_size,
      )
      (rw (aligned-aligned_entries s.piece_size q pos divides 0 e rest (zero-mod s.piece_size))
        refl)

module _ (s : FileStorage) (pos : 0 < s.piece_size) (some_file : s.files ≢ [])
    (unpadded : old_padding s.files ≡ 0) where
  -- On a storage with a file, a positive piece size and padding files that hold no byte,
  -- `optimize_alignment` returns a storage with the same regular files, in their order, and the
  -- same piece size.
  pub optimize_alignment_keeps :
      (s' : FileStorage) × (optimize_alignment s ≡ ok s')
      × (regular_files s'.files ≡ regular_files s.files)
      × (s'.piece_size ≡ s.piece_size)
  optimize_alignment_keeps =
      let (e, rest, same, done) = outcome s s.files pos refl some_file unpadded in
      let es = aligned_entries s.piece_size e rest in
      (
        refilled s es,
        done,
        ap regular_files (files-refilled s es)
            ∙ regular-aligned_entries s.piece_size e rest
            ∙ ap regular_files (sym same),
        piece_size-refilled s es,
      )

  -- On a storage with a file, a positive piece size that divides 2^64, and padding files that hold
  -- no byte, `optimize_alignment` returns, and `is_piece_aligned` of the result is true.
  pub optimize_alignment_aligns :
      (q : ℕ) → q * s.piece_size ≡ 2 ^ 64 → (optimize_alignment s >>= is_piece_aligned) ≡ ok true
  optimize_alignment_aligns q divides =
      let (e, rest, same, done) = outcome s s.files pos refl some_file unpadded in
      rw done (is_piece_aligned-refilled s q e rest pos divides)
