-- ===== src/Entry.antt =====
-- include/dottorrent/file_entry.hpp and src/file_entry.cpp: one file of a torrent. A path is the list
-- of its elements, a digest and a checksum are their bytes, and a time is a number. The mutex of the
-- checksums is not modelled: one thread calls.
pub mod Laws
pub mod Examples
use Prim.Native.Nat.{bit_and}
use dottorrent.Base.{
  ℕ, ◌+◌, Bool, true, false, not, ◌&&◌, Option, none, some, List, [], ◌∷◌, ◌++◌, Bytes, codes,
  replicate, ◌==◌, if◌then◌else◌, Run, ok, throws, violation, undefined, ◌>>=◌, ◌>>◌, expects,
  invalid_argument, bytes_eq,
}
use dottorrent.Base.Decimal.{to_decimal}
use dottorrent.Attributes.{symlink, executable, hidden, padding_file, has_flag}

abbrev pub FilePath : Type 0
FilePath = List Bytes

abbrev pub path_eq : FilePath → FilePath → Bool
path_eq [] [] = true
path_eq (x ∷ p) (y ∷ q) = bytes_eq x y && path_eq p q
path_eq _ _ = false

pub record FileEntry : Type 0 where
  pub path : FilePath
  pub file_size : ℕ
  pub checksums : List (Bytes × Bytes)
  pub has_v2_data : Bool
  pub root_hash : Bytes
  pub layer : List Bytes
  pub attributes : Option ℕ
  pub symlink_path : Option FilePath
  pub last_modified_time : Option ℕ

abbrev pub is_some {ℓ} : {A : Type ℓ} → Option A → Bool
is_some none = false
is_some (some a) = true

-- Whether an attribute is there and set.
unfoldable pub has_attribute : FileEntry → ℕ → Bool
unfolding has_flag
has_attribute e flag = elim e.attributes [ none ↦ false | some v ↦ has_flag v flag ]

unfoldable pub is_symlink : FileEntry → Bool
unfolding has_attribute
is_symlink e = has_attribute e symlink

unfoldable pub is_executable : FileEntry → Bool
unfolding has_attribute
is_executable e = has_attribute e executable

unfoldable pub is_hidden : FileEntry → Bool
unfolding has_attribute
is_hidden e = has_attribute e hidden

unfoldable pub is_padding_file : FileEntry → Bool
unfolding has_attribute
is_padding_file e = has_attribute e padding_file

-- The invariants that the constructors check.
unfoldable pub check_invariants : FileEntry → Run (Unit {0})
unfolding is_symlink
check_invariants e =
    if is_symlink e
    then (do expects (is_some e.symlink_path); expects (e.file_size == 0))
    else ok tt

unfoldable pub make_entry : FilePath → ℕ → Option ℕ → Option FilePath → Run FileEntry
unfolding check_invariants
make_entry path file_size attributes symlink_path =
    let e : FileEntry = record {
      path = path;
      file_size = file_size;
      checksums = [];
      has_v2_data = false;
      root_hash = replicate 32 0;
      layer = [];
      attributes = attributes;
      symlink_path = symlink_path;
      last_modified_time = none;
    } in
    do check_invariants e; ok e

-- pieces_root()
unfoldable pub pieces_root : FileEntry → Run Bytes
pieces_root e = if not e.has_v2_data then throws invalid_argument else ok e.root_hash

unfoldable pub set_pieces_root : FileEntry → Bytes → FileEntry
set_pieces_root e hash = record e { root_hash = hash; has_v2_data = true }

unfoldable pub piece_layer : FileEntry → Run (List Bytes)
piece_layer e = if not e.has_v2_data then throws invalid_argument else ok e.layer

unfoldable pub set_piece_layer : FileEntry → List Bytes → FileEntry
set_piece_layer e layer = record e { layer = layer; has_v2_data = true }

unfoldable pub set_last_modified_time : FileEntry → ℕ → FileEntry
set_last_modified_time e time = record e { last_modified_time = some time }

-- checksums_.find(name)
unfoldable pub find_checksum : Bytes → List (Bytes × Bytes) → Option Bytes
find_checksum name [] = none
find_checksum name ((k, v) ∷ m) = if bytes_eq k name then some v else find_checksum name m

unfoldable pub get_checksum : FileEntry → Bytes → Option Bytes
unfolding find_checksum
get_checksum e algorithm = find_checksum algorithm e.checksums

-- `emplace` leaves a checksum of the same name as it is.
unfoldable pub add_checksum : FileEntry → Bytes → Bytes → FileEntry
unfolding get_checksum
add_checksum e name value =
    if is_some (get_checksum e name)
    then e
    else record e { checksums = (name, value) ∷ e.checksums }

-- Entries are equal if their paths are.
unfoldable pub entry_eq : FileEntry → FileEntry → Bool
entry_eq a b = path_eq a.path b.path

unfoldable pub make_padding_file_entry : ℕ → Run FileEntry
unfolding make_entry
make_padding_file_entry padding_size =
    make_entry (codes ".pad" ∷ to_decimal padding_size ∷ []) padding_size (some padding_file) none
