-- ===== src/Hasher/Leaves.antt =====
-- The leaves that a v2 hasher computes of a chunk for torrents without v1 pieces.
use dottorrent.Base.{
  ℕ, ◌+◌, ◌-◌, ◌*◌, ◌/◌, ◌%◌, ◌^◌, ◌<◌, ◌≡◌, refl, false, some, List, [], ◌∷◌, ◌++◌, map, Bytes,
  length, lt→ltb, ◌==◌, if◌then◌else◌, Bool-cases, inl, inr, ◌≤◌, ok, arith,
}
use dottorrent.Base.Split.{split, numbered}
use dottorrent.Storage.{FileStorage, add64, file_count}
use dottorrent.Utils.{div_ceil}
use dottorrent.Hasher.{V2Hasher, hash_v2_chunk, hash_blocks, subspan_from, v2_block_size, in_file}
use dottorrent.Hasher.Blocks.{hash_blocks_start}

pred_block : (n : ℕ) → 0 < n → (n - 1) * 16384 + 16384 ≡ n * 16384
pred_block n h = omega arith

blocks_bounds :
    (n : ℕ)
    → (n ≤ (n / 16384 + (if n % 16384 == 0 then 0 else 1)) * 16384)
      × ((n / 16384 + (if n % 16384 == 0 then 0 else 1)) * 16384 < n + 16384)
blocks_bounds n = elim (Bool-cases (n % 16384 == 0)) [
  | inl e ↦
      let whole : n % 16384 ≡ 0 = ground arith in rw e (omega (arith, whole), omega (arith, whole))
  | inr e ↦
      let some_left : 0 < n % 16384 = ground arith in
      rw e (omega (arith, some_left), omega (arith, some_left))
]

-- The index of the first leaf of a chunk that starts at a piece of a file.
abbrev pub first_leaf : FileStorage → ℕ → ℕ
first_leaf s piece_index = piece_index * s.piece_size % 2 ^ 64 / v2_block_size

module _ (sha256 sha1 : Bytes → Bytes) (s : FileStorage) (offsets : List ℕ) where
  -- For a chunk of a file of the storage with some bytes, fewer than 2^62, a piece size that is not zero and
  -- counters that fit 64 bits: the hasher of a torrent without v1 pieces returns and pushes the digests
  -- of the consecutive blocks of 16 KiB, numbered from the first leaf of the chunk on, and counts
  -- the bytes of the chunk as hashed and as done.
  pub hash_v2_chunk_lem :
      (h : V2Hasher) (piece_index file_index : ℕ) (d : Bytes)
      → file_index < file_count s
      → 0 < s.piece_size
      → 0 < length d
      → length d < 2 ^ 62
      → h.bytes_hashed < 2 ^ 64
      → hash_v2_chunk sha256 sha1 false s offsets h piece_index file_index (some d)
        ≡ ok (record {
          leaves =
              h.leaves
              ++ in_file file_index
                  (numbered 1 (first_leaf s piece_index) (map sha256 (split v2_block_size d)));
          v1_pieces = h.v1_pieces;
          bytes_done = add64 h.bytes_done (length d);
          bytes_hashed = add64 h.bytes_hashed (length d);
        })
  unfolding hash_v2_chunk div_ceil
  hash_v2_chunk_lem h piece_index file_index d inside pos some_data fits small =
      let n = length d / v2_block_size + (if length d % v2_block_size == 0 then 0 else 1) in
      let (low, high) = blocks_bounds (length d) in
      let some_size : (s.piece_size == 0) ≡ false = ground arith in
      rw
        (
          lt→ltb _ _ inside,
          some_size,
          hash_blocks_start sha256 v2_block_size (first_leaf s piece_index) d (n - 1)
              ([], h.bytes_hashed) (omega arith) (omega (arith, low, high, some_data))
              (omega (arith, low, high, some_data)) (omega (arith, low, high, fits)) small,
        )
        refl

  -- A chunk without bytes, which the v2 reader yields behind a file whose size is a multiple of the chunk
  -- size, is hashed too: it yields one more leaf, the digest of no bytes.
  pub hash_v2_empty_chunk :
      (h : V2Hasher) (piece_index file_index : ℕ)
      → file_index < file_count s
      → 0 < s.piece_size
      → (h' : V2Hasher) × (hash_v2_chunk sha256 sha1 false s offsets h piece_index file_index
            (some [])
          ≡ ok h')
        × (h'.leaves ≡ h.leaves ++ (file_index, (first_leaf s piece_index, sha256 [])) ∷ [])
  unfolding hash_v2_chunk div_ceil hash_blocks subspan_from
  hash_v2_empty_chunk h piece_index file_index inside pos =
      let some_size : (s.piece_size == 0) ≡ false = ground arith in
      let index : add64 (first_leaf s piece_index) 0 ≡ first_leaf s piece_index = omega arith in
      let leaf : ℕ × (ℕ × Bytes) = (file_index, (first_leaf s piece_index, sha256 [])) in
      (
        record {
          leaves = h.leaves ++ leaf ∷ [];
          v1_pieces = h.v1_pieces;
          bytes_done = add64 h.bytes_done 0;
          bytes_hashed = add64 h.bytes_hashed 0;
        },
        rw (lt→ltb _ _ inside, some_size, index) refl,
        refl,
      )
