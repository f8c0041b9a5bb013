-- ===== src/Checksum/Names.antt =====
-- The names of the hash functions are read back.
use dottorrent.Base.{
  ◌≡◌, refl, Bytes, length, ok, throws, invalid_argument, some, ok-injective, codes,
}
use dottorrent.Checksum.{
  HashFunction, no_hash, md2, md4, md5, blake2b_512, blake2s_256, sha1, sha224, sha256, sha384,
  sha512, sha3_224, sha3_256, sha3_384, sha3_512, shake128, shake256, ripemd160, whirlpool,
  hash_name, make_hash_function, find_name, make_checksum, checksum_of,
}

-- A supported hash function is found by its name.
pub make_hash_function-name :
    (f : HashFunction) (name : Bytes) → hash_name f ≡ ok name → make_hash_function name ≡ some f
unfolding make_hash_function find_name
make_hash_function-name no_hash name h = absurd (cc h)
make_hash_function-name md2 name h = absurd (cc h)
make_hash_function-name md4 name h = rw (← ok-injective h) refl
make_hash_function-name md5 name h = rw (← ok-injective h) refl
make_hash_function-name blake2b_512 name h = rw (← ok-injective h) refl
make_hash_function-name blake2s_256 name h = rw (← ok-injective h) refl
make_hash_function-name sha1 name h = rw (← ok-injective h) refl
make_hash_function-name sha224 name h = rw (← ok-injective h) refl
make_hash_function-name sha256 name h = rw (← ok-injective h) refl
make_hash_function-name sha384 name h = rw (← ok-injective h) refl
make_hash_function-name sha512 name h = rw (← ok-injective h) refl
make_hash_function-name sha3_224 name h = rw (← ok-injective h) refl
make_hash_function-name sha3_256 name h = rw (← ok-injective h) refl
make_hash_function-name sha3_384 name h = rw (← ok-injective h) refl
make_hash_function-name sha3_512 name h = rw (← ok-injective h) refl
make_hash_function-name shake128 name h = rw (← ok-injective h) refl
make_hash_function-name shake256 name h = rw (← ok-injective h) refl
make_hash_function-name ripemd160 name h = rw (← ok-injective h) refl
make_hash_function-name whirlpool name h = rw (← ok-injective h) refl

-- Every value of 48 bytes, the size of a SHA3-384 digest, is refused under the name of that hash function.
pub make_checksum-sha3_384 :
    (value : Bytes)
    → length value ≡ 48
    → make_checksum (codes "sha3_384") value ≡ throws invalid_argument
unfolding make_checksum checksum_of make_hash_function find_name
make_checksum-sha3_384 value size = rw size refl
