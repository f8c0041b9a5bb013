-- ===== src/Checksum.antt =====
-- include/dottorrent/hash_function.hpp, include/dottorrent/checksum.hpp and the digest sizes of
-- include/dottorrent/hash.hpp: the hash functions by name, and checksums, which are the pair of their
-- name and value.
pub mod Names
pub mod Examples
use dottorrent.Base.{
  ℕ, ◌/◌, Bool, true, false, ◌||◌, Option, none, some, List, [], ◌∷◌, Bytes, codes, length, ◌==◌,
  bytes_eq, if◌then◌else◌, Run, ok, throws, violation, undefined, ◌>>=◌, ◌>>◌, invalid_argument,
}

pub data HashFunction : Type 0 where
  no_hash md2 md4 md5 blake2b_512 blake2s_256 sha1 sha224 sha256 sha384 sha512 sha3_224 sha3_256
        sha3_384 sha3_512 shake128 shake256 ripemd160 whirlpool :
      HashFunction

abbrev pub supported_hash_functions : List HashFunction
supported_hash_functions =
    md4 ∷ md5 ∷ blake2b_512 ∷ blake2s_256 ∷ sha1 ∷ sha224 ∷ sha256 ∷ sha384 ∷ sha512 ∷ sha3_224
    ∷ sha3_256 ∷ sha3_384 ∷ sha3_512 ∷ shake128 ∷ shake256 ∷ ripemd160 ∷ whirlpool ∷ []

-- The names; the others are refused.
abbrev pub hash_name : HashFunction → Run Bytes
hash_name no_hash = throws invalid_argument
hash_name md2 = throws invalid_argument
hash_name md4 = ok (codes "md4")
hash_name md5 = ok (codes "md5")
hash_name blake2b_512 = ok (codes "blake2b_512")
hash_name blake2s_256 = ok (codes "blake2s_256")
hash_name sha1 = ok (codes "sha1")
hash_name sha224 = ok (codes "sha224")
hash_name sha256 = ok (codes "sha256")
hash_name sha384 = ok (codes "sha384")
hash_name sha512 = ok (codes "sha512")
hash_name sha3_224 = ok (codes "sha3_224")
hash_name sha3_256 = ok (codes "sha3_256")
hash_name sha3_384 = ok (codes "sha3_384")
hash_name sha3_512 = ok (codes "sha3_512")
hash_name shake128 = ok (codes "shake128")
hash_name shake256 = ok (codes "shake256")
hash_name ripemd160 = ok (codes "ripemd160")
hash_name whirlpool = ok (codes "whirlpool")

-- The digest sizes in bytes: the bits of the type, of which sha3_384 has 284, divided by eight.
abbrev pub digest_size : HashFunction → ℕ
digest_size no_hash = 0
digest_size md2 = 0
digest_size md4 = 128 / 8
digest_size md5 = 128 / 8
digest_size blake2b_512 = 512 / 8
digest_size blake2s_256 = 256 / 8
digest_size sha1 = 160 / 8
digest_size sha224 = 224 / 8
digest_size sha256 = 256 / 8
digest_size sha384 = 384 / 8
digest_size sha512 = 512 / 8
digest_size sha3_224 = 224 / 8
digest_size sha3_256 = 256 / 8
digest_size sha3_384 = 284 / 8
digest_size sha3_512 = 512 / 8
digest_size shake128 = 128 / 8
digest_size shake256 = 256 / 8
digest_size ripemd160 = 160 / 8
digest_size whirlpool = 512 / 8

abbrev pub is_named : Run Bytes → Bytes → Bool
is_named (ok name) s = bytes_eq name s
is_named _ s = false

unfoldable pub find_name : Bytes → List HashFunction → Option HashFunction
find_name s [] = none
find_name s (f ∷ fs) =
    let rest = find_name s fs in if is_named (hash_name f) s then some f else rest

unfoldable pub make_hash_function : Bytes → Option HashFunction
unfolding find_name
make_hash_function s = find_name s supported_hash_functions

unfoldable pub is_hash_function_name : Bytes → Bool
unfolding make_hash_function
is_hash_function_name s = elim (make_hash_function s) [ none ↦ false | some f ↦ true ]

-- make_checksum(hash_function, value)
unfoldable pub checksum_of : HashFunction → Bytes → Run (Bytes × Bytes)
checksum_of f value = do
  name ← hash_name f
  if length value == digest_size f then ok (name, value) else throws invalid_argument

-- make_checksum(key, value): a key that is no known name gives a checksum of any size.
unfoldable pub make_checksum : Bytes → Bytes → Run (Bytes × Bytes)
unfolding checksum_of make_hash_function
make_checksum key value = elim (make_hash_function key) [
  | none ↦ ok (key, value)
  | some f ↦ checksum_of f value
]
