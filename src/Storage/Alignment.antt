-- ===== src/Storage/Alignment.antt =====
-- `optimize_alignment`: the padding that it adds puts each file on a piece boundary.
pub mod Outcome
pub mod Boundaries
use native.Mathlib.Nat.{
  mod-lt, mod-mod, mod-add-mod, add-mod-mod, add-mod_right, add-mod_left, div-add-mod',
  add-mul-mod_self_right, mod_self,
}
use dottorrent.Base.{
  ℕ, zero, suc, ◌+◌, ◌-◌, ◌*◌, ◌/◌, ◌%◌, ◌^◌, ◌<◌, ◌≤◌, ◌≡◌, ◌≢◌, refl, sym, ap, ◌∙◌, Bool, true,
  false, not, ◌&&◌, List, [], ◌∷◌, ◌++◌, append-nil, append_assoc, arith, All, Bool-cases, inl, inr,
  if◌then◌else◌, ◌==◌, ==_iff, some, none, replicate, Run, ok, violation, expects, ◌>>=◌, ◌>>◌,
  codes,
}
use dottorrent.Base.Decimal.{to_decimal}
use dottorrent.Attributes.{padding_file}
use dottorrent.Entry.{FileEntry, is_padding_file, make_padding_file_entry}
use dottorrent.Storage.{
  FileStorage, add64, add_file, add_files, clear, sum_sizes, total_regular_file_size, aligned_from,
  is_piece_aligned, align_from, optimize_alignment,
}
use dottorrent.Storage.Totals.{IsSized, sum_sizes-lt, sum_sizes-append}

-- The padding file of a size.
pub padding : ℕ → FileEntry
padding n = record {
  path = codes ".pad" ∷ to_decimal n ∷ [];
  file_size = n;
  checksums = [];
  has_v2_data = false;
  root_hash = replicate 32 0;
  layer = [];
  attributes = some padding_file;
  symlink_path = none;
  last_modified_time = none;
}

make_padding_file_entry_lem : (n : ℕ) → make_padding_file_entry n ≡ ok (padding n)
unfolding make_padding_file_entry padding
make_padding_file_entry_lem n = refl

pub is_padding_file-padding : (n : ℕ) → is_padding_file (padding n) ≡ true
unfolding padding is_padding_file
is_padding_file-padding n = refl

pub file_size-padding : (n : ℕ) → (padding n).file_size ≡ n
unfolding padding
file_size-padding n = refl

-- The bytes from the end of a file to the next piece, a whole piece if it ends at a boundary.
abbrev pub till_next : ℕ → FileEntry → ℕ
till_next p e = p - e.file_size % p

-- The entries that `align_from` builds, and the bytes of padding, without its accumulators.
pub aligned_entries : ℕ → FileEntry → List FileEntry → List FileEntry
aligned_entries p e [] = e ∷ []
aligned_entries p e (f ∷ rest) =
    if till_next p e == p
    then e ∷ aligned_entries p f rest
    else e ∷ padding (till_next p e) ∷ aligned_entries p f rest

pub padding_bytes : ℕ → FileEntry → List FileEntry → ℕ
padding_bytes p e [] = 0
padding_bytes p e (f ∷ rest) =
    if till_next p e == p
    then padding_bytes p f rest
    else add64 (till_next p e) (padding_bytes p f rest)

-- One round of `align_from`.
align_from_step :
    (p : ℕ) (e f : FileEntry) (rest out : List FileEntry) (bytes : ℕ)
    → 0 < p
    → align_from p e (f ∷ rest) out bytes ≡ (
        if till_next p e == p
        then align_from p f rest (out ++ e ∷ []) bytes
        else align_from p f rest
            (out ++ e ∷ padding (till_next p e) ∷ [])
            (add64 bytes (till_next p e)))
unfolding align_from
align_from_step p e f rest out bytes h =
    let some_bytes : (till_next p e == 0) ≡ false = ground (arith, mod-lt e.file_size {m = p} h) in
    elim (Bool-cases (till_next p e == p)) [
      | inl same ↦ rw (some_bytes, same) refl
      | inr other ↦ rw (some_bytes, other) (rw (make_padding_file_entry_lem (till_next p e)) refl)
    ]

pub align_from_lem :
    (p : ℕ) (e : FileEntry) (rest out : List FileEntry) (bytes : ℕ)
    → 0 < p
    → bytes < 2 ^ 64
    → align_from p e rest out bytes
      ≡ ok (out ++ aligned_entries p e rest, add64 bytes (padding_bytes p e rest))
align_from_lem p e [] out bytes h b =
    unfold align_from aligned_entries padding_bytes in ap (λ n. ok (out ++ e ∷ [], n)) (omega arith)
align_from_lem p e (f ∷ rest) out bytes h b = elim (Bool-cases (till_next p e == p)) [
  | inl same ↦
      align_from_step p e f rest out bytes h
      ∙ rw same (
          align_from_lem p f rest (out ++ e ∷ []) bytes h b
          ∙ (unfold aligned_entries padding_bytes in rw same (rw append_assoc refl)))
  | inr other ↦
      align_from_step p e f rest out bytes h
      ∙ rw other (
          align_from_lem p f rest (out ++ e ∷ padding (till_next p e) ∷ [])
            (add64 bytes (till_next p e)) h (omega arith)
          ∙ (unfold aligned_entries padding_bytes in
              rw other (
                rw append_assoc (
                  ap (λ n. ok (out ++ e ∷ padding (till_next p e) ∷ aligned_entries p f rest, n))
                    (omega arith)))))
]

-- The bytes of the padding files among some entries.
unfoldable pub old_padding : List FileEntry → ℕ
old_padding [] = 0
old_padding (e ∷ es) = add64 (if is_padding_file e then e.file_size else 0) (old_padding es)

pub old_padding-lt : (es : List FileEntry) → old_padding es < 2 ^ 64
unfolding old_padding
old_padding-lt [] = omega arith
old_padding-lt (e ∷ es) = omega arith

pub total_regular-lt : (es : List FileEntry) → total_regular_file_size es < 2 ^ 64
unfolding total_regular_file_size
total_regular-lt [] = omega arith
total_regular-lt (e ∷ es) = omega arith

pub padding_bytes-lt :
    (p : ℕ) (e : FileEntry) (rest : List FileEntry) → padding_bytes p e rest < 2 ^ 64
unfolding padding_bytes
padding_bytes-lt p e [] = omega arith
padding_bytes-lt p e (f ∷ rest) = ground (arith, padding_bytes-lt p f rest)

-- What one entry adds to the three sums.
split_size :
    (e : FileEntry)
    → (if not (is_padding_file e) then e.file_size else 0)
        + (if is_padding_file e then e.file_size else 0)
      ≡ e.file_size
split_size e = ground arith

-- The sizes of the new entries: the regular files, the new padding and the old.
pub sum-aligned_entries :
    (p : ℕ) (e : FileEntry) (rest : List FileEntry)
    → sum_sizes (aligned_entries p e rest)
      ≡ add64
          (add64 (total_regular_file_size (aligned_entries p e rest)) (padding_bytes p e rest))
          (old_padding (e ∷ rest))
unfolding sum_sizes total_regular_file_size old_padding aligned_entries padding_bytes
sum-aligned_entries p e [] = omega (arith, split_size e)
sum-aligned_entries p e (f ∷ rest) = elim (Bool-cases (till_next p e == p)) [
  | inl same ↦ rw same (omega (arith, split_size e, sum-aligned_entries p f rest))
  | inr other ↦
      rw (other, is_padding_file-padding (till_next p e), file_size-padding (till_next p e))
        (omega (arith, split_size e, sum-aligned_entries p f rest))
]
