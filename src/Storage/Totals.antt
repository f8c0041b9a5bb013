-- ===== src/Storage/Totals.antt =====
-- The total size that a storage keeps, against the sum over its files.
use dottorrent.Base.{
  ◌^◌, ◌<◌, ◌≡◌, refl, sym, ap, ◌∙◌, Option, none, some, List, [], ◌∷◌, ◌++◌, map, arith, All,
  Bool-cases, inl, inr, All-append,
}
use dottorrent.Entry.{FileEntry, entry_eq}
use dottorrent.Storage.{
  FileStorage, add64, add_file, add_files, find_entry, put_back, moved_down, remove_found,
  remove_file, clear, sum_sizes,
}

-- Sizes of 64 bits.
abbrev pub IsSized : List FileEntry → Type 0
IsSized = All (λ e. e.file_size < 2 ^ 64)

-- The total is the sum of the sizes.
pub record IsCounted (s : FileStorage) : Type 0 where
  pub sized : IsSized s.files
  pub counted : s.total_file_size ≡ sum_sizes s.files

pub sum_sizes-lt : (es : List FileEntry) → sum_sizes es < 2 ^ 64
unfolding sum_sizes
sum_sizes-lt [] = omega arith
sum_sizes-lt (e ∷ es) = omega arith

pub sum_sizes-append :
    (es fs : List FileEntry) → sum_sizes (es ++ fs) ≡ add64 (sum_sizes es) (sum_sizes fs)
unfolding sum_sizes
sum_sizes-append [] fs = omega (arith, sum_sizes-lt fs)
sum_sizes-append (e ∷ es) fs = omega (arith, sum_sizes-append es fs)

pub sum_sizes-snoc :
    (es : List FileEntry) (e : FileEntry)
    → sum_sizes (es ++ e ∷ []) ≡ add64 (sum_sizes es) e.file_size
unfolding sum_sizes
sum_sizes-snoc es e = sum_sizes-append es (e ∷ []) ∙ (omega arith)

pub add_file-IsCounted :
    (s : FileStorage) (e : FileEntry)
    → e.file_size < 2 ^ 64
    → IsCounted s
    → IsCounted (add_file s e)
unfolding add_file
add_file-IsCounted s e h c = record {
  sized = All-append (λ e. e.file_size < 2 ^ 64) s.files (e ∷ []) c.sized (h, tt);
  counted = ap (λ t. add64 t e.file_size) c.counted ∙ sym (sum_sizes-snoc s.files e);
}

-- What is found is taken out of the sum.
abbrev Found : List FileEntry → Option (FileEntry × List FileEntry) → Type 0
Found es none = Unit
Found es (some (y, ys)) =
    (sum_sizes es ≡ add64 y.file_size (sum_sizes ys)) × (y.file_size < 2 ^ 64) × IsSized ys

put_back-Found :
    (x : FileEntry) (xs : List FileEntry) (o : Option (FileEntry × List FileEntry))
    → x.file_size < 2 ^ 64
    → Found xs o
    → Found (x ∷ xs) (put_back x o)
unfolding put_back sum_sizes
put_back-Found x xs none hx f = tt
put_back-Found x xs (some (y, ys)) hx (e, hy, hs) = (omega arith, hy, (hx, hs))

sum_sizes-moved_down : (es : List FileEntry) → sum_sizes (map moved_down es) ≡ sum_sizes es
unfolding sum_sizes
sum_sizes-moved_down [] = refl
sum_sizes-moved_down (e ∷ es) = ap (λ n. add64 e.file_size n) (sum_sizes-moved_down es)

IsSized-moved_down : (es : List FileEntry) → IsSized es → IsSized (map moved_down es)
IsSized-moved_down [] h = tt
IsSized-moved_down (e ∷ es) (h, hs) = (h, IsSized-moved_down es hs)

found_first :
    (x : FileEntry) (xs : List FileEntry)
    → sum_sizes (x ∷ xs) ≡ add64 x.file_size (sum_sizes (map moved_down xs))
unfolding sum_sizes
found_first x xs = ap (λ n. add64 x.file_size n) (sym (sum_sizes-moved_down xs))

find_entry-Found :
    (entry : FileEntry) (es : List FileEntry) → IsSized es → Found es (find_entry entry es)
unfolding find_entry
find_entry-Found entry [] h = tt
find_entry-Found entry (x ∷ xs) (hx, hs) = elim (Bool-cases (entry_eq x entry)) [
  | inl e ↦ rw e (found_first x xs, hx, IsSized-moved_down xs hs)
  | inr e ↦ rw e (put_back-Found x xs (find_entry entry xs) hx (find_entry-Found entry xs hs))
]

remove_found-IsCounted :
    (s : FileStorage) (o : Option (FileEntry × List FileEntry))
    → IsCounted s
    → Found s.files o
    → IsCounted (remove_found s o)
unfolding remove_found
remove_found-IsCounted s none c f = record { sized = c.sized; counted = c.counted }
remove_found-IsCounted s (some (y, ys)) c (e, hy, hs) = record {
  sized = hs;
  counted = let same = c.counted in omega (arith, same, sum_sizes-lt ys);
}

pub remove_file-IsCounted :
    (s : FileStorage) (e : FileEntry) → IsCounted s → IsCounted (remove_file s e)
unfolding remove_file
remove_file-IsCounted s e c =
    remove_found-IsCounted s (find_entry e s.files) c (find_entry-Found e s.files c.sized)

pub clear-IsCounted : (s : FileStorage) → IsCounted (clear s)
unfolding clear sum_sizes
clear-IsCounted s = record { sized = tt; counted = refl }

pub add_files-IsCounted :
    (es : List FileEntry) (s : FileStorage) → IsSized es → IsCounted s → IsCounted (add_files s es)
unfolding add_files
add_files-IsCounted [] s h c = c
add_files-IsCounted (e ∷ es) s (he, hs) c =
    add_files-IsCounted es (add_file s e) hs (add_file-IsCounted s e he c)

-- The calls that change the files.
pub data StorageCall : Type 0 where
  added : FileEntry → StorageCall
  removed : FileEntry → StorageCall
  cleared : StorageCall

unfoldable pub run_call : FileStorage → StorageCall → FileStorage
run_call s (added e) = add_file s e
run_call s (removed e) = remove_file s e
run_call s cleared = clear s

unfoldable pub run_calls : FileStorage → List StorageCall → FileStorage
unfolding run_call
run_calls s [] = s
run_calls s (c ∷ cs) = run_calls (run_call s c) cs

abbrev pub IsSizedCall : StorageCall → Type 0
IsSizedCall (added e) = e.file_size < 2 ^ 64
IsSizedCall _ = Unit

run_call-IsCounted :
    (s : FileStorage) (c : StorageCall) → IsSizedCall c → IsCounted s → IsCounted (run_call s c)
unfolding run_call
run_call-IsCounted s (added e) h i = add_file-IsCounted s e h i
run_call-IsCounted s (removed e) h i = remove_file-IsCounted s e i
run_call-IsCounted s cleared h i = clear-IsCounted s

-- From a storage whose total is the sum of the sizes of its files in 64 bits, any sequence of calls
-- that add files of 64-bit sizes, remove files and clear leads to such a storage.
pub run_calls-IsCounted :
    (cs : List StorageCall) (s : FileStorage)
    → All IsSizedCall cs
    → IsCounted s
    → IsCounted (run_calls s cs)
unfolding run_calls
run_calls-IsCounted [] s h i = i
run_calls-IsCounted (c ∷ cs) s (hc, hs) i =
    run_calls-IsCounted cs (run_call s c) hs (run_call-IsCounted s c hc i)
