-- ===== src/InfoHash.antt =====
-- include/dottorrent/info_hash.hpp, with the digests of include/dottorrent/hash.hpp: the v1 and v2 hashes
-- that name a torrent. A digest is its bytes, 20 for SHA-1 and 32 for SHA-256.
pub mod Print
use dottorrent.Base.{
  ℕ, ◌*◌, Bool, true, false, not, ◌&&◌, Option, none, some, List, [], ◌∷◌, Bytes, length, take,
  ◌==◌, if◌then◌else◌, Run, ok, throws, violation, undefined, ◌>>=◌, ◌>>◌, expects, bytes_eq,
  invalid_argument,
}
use dottorrent.Hex.{from_hexadecimal_string, to_hexadecimal_string}
use dottorrent.Attributes.{v1, v2, hybrid}

abbrev pub sha1_size : ℕ
sha1_size = 20

abbrev pub sha256_size : ℕ
sha256_size = 32

pub record InfoHash : Type 0 where
  pub protocol_version : ℕ
  pub v1_hash : Option Bytes
  pub v2_hash : Option Bytes

-- The constructors from digests.
unfoldable pub of_v1 : Bytes → InfoHash
of_v1 hash = record { protocol_version = v1; v1_hash = some hash; v2_hash = none }

unfoldable pub of_v2 : Bytes → InfoHash
of_v2 hash = record { protocol_version = v2; v1_hash = none; v2_hash = some hash }

unfoldable pub of_both : Bytes → Bytes → InfoHash
of_both hash1 hash2 = record {
  protocol_version = hybrid;
  v1_hash = some hash1;
  v2_hash = some hash2;
}

-- info_hash(version, data), with the bytes of `data`
unfoldable pub from_data : ℕ → Bytes → Run InfoHash
from_data version digest =
    if version == v1 && length digest == sha1_size
    then ok (of_v1 digest)
    else if version == v2 && length digest == sha256_size
    then ok (of_v2 digest)
    else throws invalid_argument

-- info_hash(v1_data, v2_data)
unfoldable pub from_both_data : Bytes → Bytes → Run InfoHash
from_both_data v1_data v2_data =
    if not (length v1_data == sha1_size)
    then throws invalid_argument
    else if not (length v2_data == sha256_size)
    then throws invalid_argument
    else ok (of_both v1_data v2_data)

-- make_hash_from_hex<T>, for a digest of the given size.
unfoldable pub make_hash_from_hex : ℕ → Bytes → Run Bytes
make_hash_from_hex size hex_string =
    if not (length hex_string == 2 * size) then throws invalid_argument else (do
      decoded ← from_hexadecimal_string size hex_string
      elim decoded [ none ↦ throws invalid_argument | some hash ↦ ok hash ])

unfoldable pub from_hex : ℕ → Bytes → Run InfoHash
from_hex version hex_data = do
  expects (not (version == hybrid))
  if version == v1
      then (do hash ← make_hash_from_hex sha1_size hex_data; ok (of_v1 hash))
      else if version == v2
      then (do hash ← make_hash_from_hex sha256_size hex_data; ok (of_v2 hash))
      else throws invalid_argument

-- from_hex(v1_hex_data, v2_hex_data)
unfoldable pub from_both_hex : Bytes → Bytes → Run InfoHash
from_both_hex v1_hex_data v2_hex_data = do
  v1_hash ← make_hash_from_hex sha1_size v1_hex_data
  v2_hash ← make_hash_from_hex sha256_size v2_hex_data
  ok (of_both v1_hash v2_hash)

-- `*hash`, which is undefined without a value.
unfoldable pub deref : Option Bytes → Run Bytes
deref none = undefined
deref (some hash) = ok hash

unfoldable pub get_binary : InfoHash → ℕ → Run Bytes
unfolding deref
get_binary h protocol_version = do
  expects (not (protocol_version == hybrid))
  if protocol_version == v1
      then deref h.v1_hash
      else if protocol_version == v2
      then deref h.v2_hash
      else throws invalid_argument

unfoldable pub get_hex : InfoHash → ℕ → Run Bytes
unfolding get_binary
get_hex h protocol_version = do
  binary ← get_binary h protocol_version
  ok (to_hexadecimal_string binary)

unfoldable pub truncated_v2 : InfoHash → Run Bytes
unfolding deref
truncated_v2 h = do hash ← deref h.v2_hash; ok (take sha1_size hash)

-- Equality of optional digests.
abbrev pub hash_eq : Option Bytes → Option Bytes → Bool
hash_eq none none = true
hash_eq (some a) (some b) = bytes_eq a b
hash_eq _ _ = false

unfoldable pub info_hash_eq : InfoHash → InfoHash → Bool
info_hash_eq a b =
    a.protocol_version == b.protocol_version
    && hash_eq a.v1_hash b.v1_hash
    && hash_eq a.v2_hash b.v2_hash
