-- ===== src/Reader/Times.antt =====
-- The last write times that the v1 reader stores in the entries of the storage, for the files that it opens.
-- What std::filesystem::last_write_time gives for the file of an entry is the argument `write_time`. Its
-- thread alone reads or writes the times, and nothing it pushes depends on them, so that the stores
-- stand apart from the run.
use dottorrent.Base.{
  ℕ, suc, ◌+◌, ◌≡◌, refl, Bool, Option, true, false, not, ◌&&◌, none, some, List, [], ◌∷◌, ◌++◌,
  map, Bytes, length, length-append, ltb, lt→ltb, if◌then◌else◌, Run, ok, throws, out_of_range,
  ◌>>=◌, arith, ap, ◌∙◌, sym, append_assoc,
}
use dottorrent.Entry.{FileEntry, is_padding_file, set_last_modified_time}
use dottorrent.Storage.{FileStorage, at, set_time_at}
use dottorrent.Reader.{OnDisk, missing, unreadable, file}
use dottorrent.Reader.Files.{ArePresent}
use dottorrent.Verifier.Pieces.{set-append, get_elem?-append}

-- Whether std::filesystem::exists.
abbrev pub exists : OnDisk → Bool
exists missing = false
exists unreadable = true
exists (file content) = true

unfoldable pub store_times : (ℕ → ℕ) → FileStorage → ℕ → List OnDisk → Run FileStorage
store_times write_time s index [] = ok s
store_times write_time s index (f ∷ fs) = do
  entry ← at s index
  s' ←
      if exists f && not (is_padding_file entry)
      then set_time_at s index (write_time index)
      else ok s
  store_times write_time s' (index + 1) fs

-- The entries with their times, from the given index on.
abbrev pub with_times : (ℕ → ℕ) → ℕ → List FileEntry → List FileEntry
with_times write_time index [] = []
with_times write_time index (e ∷ es) =
    set_last_modified_time e (write_time index) ∷ with_times write_time (index + 1) es

abbrev with_files : FileStorage → List FileEntry → FileStorage
with_files s es = record s { files = es }

at_ok :
    (s : FileStorage) (front : List FileEntry) (e : FileEntry) (es : List FileEntry) (index : ℕ)
    → index ≡ length front
    → at (with_files s (front ++ e ∷ es)) index ≡ ok e
unfolding at
at_ok s front e es index here =
    let read : Option FileEntry → Run FileEntry =
      λ o. elim o [ none ↦ throws out_of_range | some x ↦ ok x ] in
    ap read (get_elem?-append front e es index here)

set_time_ok :
    (s : FileStorage) (front : List FileEntry) (e : FileEntry) (es : List FileEntry)
    (index time : ℕ)
    → index ≡ length front
    → set_time_at (with_files s (front ++ e ∷ es)) index time
      ≡ ok (with_files s (front ++ set_last_modified_time e time ∷ es))
unfolding set_time_at
set_time_ok s front e es index time here =
    let l = length-append front (e ∷ es) in
    let inside : ltb index (length (front ++ e ∷ es)) ≡ true =
      lt→ltb _ _ (omega (arith, l, here)) in
    rw
      (
        inside,
        at_ok s front e es index here,
        set-append front e (set_last_modified_time e time) es index here,
      )
      refl

-- The files behind `front` are all on the disk.
times_from :
    (write_time : ℕ → ℕ) (s : FileStorage) (front es : List FileEntry) (bs : List Bytes) (index : ℕ)
    → index ≡ length front
    → ArePresent es bs
    → store_times write_time (with_files s (front ++ es)) index (map file bs)
      ≡ ok (with_files s (front ++ with_times write_time index es))
unfolding store_times
times_from write_time s front [] [] index here present = refl
times_from write_time s front [] (b ∷ bs) index here present = absurd present
times_from write_time s front (e ∷ es) [] index here present = absurd present
times_from write_time s front (e ∷ es) (b ∷ bs) index here ((regular, size), present) =
    let e' = set_last_modified_time e (write_time index) in
    let l = length-append front (e' ∷ []) in
    rw
      (
        at_ok s front e es index here,
        regular,
        set_time_ok s front e es index (write_time index) here,
        sym (append_assoc front (e' ∷ []) es),
      )
      (times_from write_time s (front ++ e' ∷ []) es bs (index + 1) (omega (arith, here, l)) present
        ∙ ap (λ l. ok (with_files s l))
            (append_assoc front (e' ∷ []) (with_times write_time (index + 1) es)))

pub store_times_lem :
    (write_time : ℕ → ℕ) (s : FileStorage) (bs : List Bytes)
    → ArePresent s.files bs
    → store_times write_time s 0 (map file bs)
      ≡ ok (record s { files = with_times write_time 0 s.files })
store_times_lem write_time s bs present = times_from write_time s [] s.files bs 0 refl present

-- The times change neither what is on the disk nor the sizes.
pub with_times-ArePresent :
    (write_time : ℕ → ℕ) (index : ℕ) (es : List FileEntry) (bs : List Bytes)
    → ArePresent es bs
    → ArePresent (with_times write_time index es) bs
unfolding set_last_modified_time is_padding_file
with_times-ArePresent write_time index [] [] present = tt
with_times-ArePresent write_time index [] (b ∷ bs) present = absurd present
with_times-ArePresent write_time index (e ∷ es) [] present = absurd present
with_times-ArePresent write_time index (e ∷ es) (b ∷ bs) ((regular, size), present) =
    ((regular, size), with_times-ArePresent write_time (index + 1) es bs present)

pub length-with_times :
    (write_time : ℕ → ℕ) (index : ℕ) (es : List FileEntry)
    → length (with_times write_time index es) ≡ length es
length-with_times write_time index [] = refl
length-with_times write_time index (e ∷ es) = ap suc (length-with_times write_time (index + 1) es)
