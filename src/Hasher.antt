-- ===== src/Hasher.antt =====
-- src/v1_chunk_hasher_sb.cpp and src/v2_chunk_hasher_sb.cpp: what a hasher thread does with one chunk. A
-- hash function is the digest of all bytes of its updates since the last one, which the cryptographic
-- libraries compute, and is a parameter. The queues of the piece writers get the pieces in the order of the
-- lists here; the counters are shared by the threads and only added to.
pub mod Blocks
pub mod Chunks
pub mod Leaves
pub mod Examples
use dottorrent.Base.{
  ℕ, zero, suc, ◌+◌, ◌-◌, ◌*◌, ◌/◌, ◌%◌, ◌^◌, Bool, true, false, not, ◌&&◌, ◌||◌, Option, none,
  some, List, [], ◌∷◌, ◌++◌, Bytes, length, get_elem?, take, drop, replicate, ltb, leb, ◌==◌,
  if◌then◌else◌, Run, ok, throws, violation, undefined, expects, ◌>>=◌, ◌>>◌,
}
use dottorrent.Entry.{FileEntry, is_padding_file}
use dottorrent.Utils.{div_ceil}
use dottorrent.Storage.{FileStorage, add64, sub64, file_count, entry_at, at}
use dottorrent.Reader.{DataChunk}

-- std::span::subspan, which is undefined out of range.
unfoldable pub subspan : Bytes → ℕ → ℕ → Run Bytes
subspan d offset count =
    if leb (offset + count) (length d) then ok (take count (drop offset d)) else undefined

unfoldable pub subspan_from : Bytes → ℕ → Run Bytes
subspan_from d offset = if leb offset (length d) then ok (drop offset d) else undefined

-- The digests so far with their indices, and a counter of bytes.
abbrev pub Digests : Type 0
Digests = List (ℕ × Bytes) × ℕ

abbrev pub add_digest : Digests → ℕ → Bytes → ℕ → Digests
add_digest (ds, bytes) index digest n = (ds ++ (index, digest) ∷ [], add64 bytes n)

-- The loop over the blocks of a chunk but the last, from block `k` on, and then the last block, which may
-- be shorter.
unfoldable pub hash_blocks : (Bytes → Bytes) → ℕ → ℕ → Bytes → ℕ → ℕ → Digests → Run Digests
unfolding subspan subspan_from
hash_blocks hash size first d zero k st = do
  block ← subspan_from d (k * size)
  ok (add_digest st (add64 first k) (hash block) (length block))
hash_blocks hash size first d (suc more) k st = do
  block ← subspan d (k * size) size
  hash_blocks hash size first d more (k + 1) (add_digest st (add64 first k) (hash block) size)

-- The pieces that a v1 hasher has pushed, and its counters.
pub record V1Hasher : Type 0 where
  pub hashed : List (ℕ × Bytes)
  pub bytes_done : ℕ
  pub bytes_hashed : ℕ

-- v1_chunk_hasher_sb::hash_chunk with SHA-1. The pieces of an empty chunk would be none, which a check
-- refuses.
unfoldable pub hash_v1_chunk : (Bytes → Bytes) → ℕ → V1Hasher → ℕ → Option Bytes → Run V1Hasher
unfolding hash_blocks
hash_v1_chunk sha1 piece_size h piece_index none =
    ok (record h { bytes_done = add64 h.bytes_done piece_size })
hash_v1_chunk sha1 piece_size h piece_index (some d) =
    if piece_size == 0
    then undefined
    else (let pieces_in_chunk = sub64 (add64 (length d) piece_size) 1 / piece_size in
        do
          expects (leb 1 pieces_in_chunk)
          r ←
              hash_blocks sha1 piece_size piece_index d (pieces_in_chunk - 1) 0
                (h.hashed, h.bytes_done)
          ok (record {
            hashed = r.0;
            bytes_done = r.1;
            bytes_hashed = add64 h.bytes_hashed (length d);
          }))

-- The chunks of the queue, one after the other.
unfoldable pub hash_v1_chunks :
    (Bytes → Bytes) → ℕ → V1Hasher → List (ℕ × Option Bytes) → Run V1Hasher
unfolding hash_v1_chunk
hash_v1_chunks sha1 piece_size h [] = ok h
hash_v1_chunks sha1 piece_size h ((i, d) ∷ cs) = do
  h' ← hash_v1_chunk sha1 piece_size h i d
  hash_v1_chunks sha1 piece_size h' cs

-- v2_chunk_hasher_sb::initialize_v1_offsets: for each file the index of its first v1 piece.
unfoldable pub v1_offsets_from : ℕ → ℕ → List FileEntry → List ℕ
v1_offsets_from piece_size back [] = back ∷ []
v1_offsets_from piece_size back (e ∷ es) =
    back
    ∷ v1_offsets_from piece_size
        (if is_padding_file e
          then back
          else add64 back (sub64 (add64 e.file_size piece_size) 1 / piece_size))
        es

-- The leaves and the v1 pieces that a v2 hasher has pushed, the leaves with their file, and its counters.
pub record V2Hasher : Type 0 where
  pub leaves : List (ℕ × (ℕ × Bytes))
  pub v1_pieces : List (ℕ × Bytes)
  pub bytes_done : ℕ
  pub bytes_hashed : ℕ

abbrev pub v2_block_size : ℕ
v2_block_size = 16384

abbrev pub in_file : ℕ → List (ℕ × Bytes) → List (ℕ × (ℕ × Bytes))
in_file file_index [] = []
in_file file_index ((i, d) ∷ ds) = (file_index, (i, d)) ∷ in_file file_index ds

-- The complete v1 pieces of a chunk, from piece `k` on.
unfoldable pub full_pieces : (Bytes → Bytes) → ℕ → ℕ → Bytes → ℕ → ℕ → Digests → Run Digests
unfolding subspan
full_pieces sha1 piece_size first d zero k st = ok st
full_pieces sha1 piece_size first d (suc more) k st = do
  piece ← subspan d (piece_size * k) piece_size
  full_pieces sha1 piece_size first d more (k + 1)
      (add_digest st (add64 first k) (sha1 piece) piece_size)

-- The v1 pieces of a chunk for hybrid torrents, `first` being the number of the piece in the torrent that the
-- chunk starts with. A partial last piece is filled up with zeros where a padding file follows.
unfoldable pub hash_compatible :
    (Bytes → Bytes) → FileStorage → ℕ → ℕ → ℕ → Bytes → Digests → Run Digests
unfolding full_pieces subspan_from entry_at at
hash_compatible sha1 s pieces_in_chunk file_index first d st =
    let needs_padding = not (length d % s.piece_size == 0) in
    let pieces_to_process = if needs_padding then pieces_in_chunk - 1 else pieces_in_chunk in
    do
      r ← full_pieces sha1 s.piece_size first d pieces_to_process 0 st
      if needs_padding
          then (do
            final_piece ← subspan_from d (pieces_to_process * s.piece_size)
            let padding_size = s.piece_size - length final_piece
            if ltb (add64 file_index 1) (sub64 (file_count s) 1)
                then (do
                  entry ← at s (add64 file_index 1)
                  expects (is_padding_file entry)
                  ok (
                      add_digest r (add64 first pieces_to_process)
                        (sha1 (final_piece ++ replicate padding_size 0))
                        (length final_piece + padding_size)))
                else ok (
                    add_digest r (add64 first pieces_to_process) (sha1 final_piece)
                      (length final_piece)))
          else ok r

abbrev pub offset_of : List ℕ → ℕ → Run ℕ
offset_of offsets i = elim (get_elem? offsets i) [ none ↦ undefined | some n ↦ ok n ]

-- v2_chunk_hasher_sb::hash_chunk with SHA-256 and SHA-1, `compatible` being `add_v1_compatibility_`.
unfoldable pub hash_v2_chunk :
    (Bytes → Bytes)
    → (Bytes → Bytes)
    → Bool
    → FileStorage
    → List ℕ
    → V2Hasher
    → ℕ
    → ℕ
    → Option Bytes
    → Run V2Hasher
unfolding hash_blocks hash_compatible div_ceil entry_at
hash_v2_chunk sha256 sha1 compatible s offsets h piece_index file_index none = do
  expects (ltb file_index (file_count s))
  entry ← entry_at s file_index
  ok (record h { bytes_done = add64 h.bytes_done entry.file_size })
hash_v2_chunk sha256 sha1 compatible s offsets h piece_index file_index (some d) = do
  expects (ltb file_index (file_count s))
  pieces_in_chunk ← div_ceil (length d) s.piece_size
  blocks ← div_ceil (length d) v2_block_size
  let first = piece_index * s.piece_size % 2 ^ 64 / v2_block_size
  r ← hash_blocks sha256 v2_block_size first d (blocks - 1) 0 ([], h.bytes_hashed)
  offset ← if compatible then offset_of offsets file_index else ok 0
  v ←
      if compatible
      then hash_compatible sha1 s pieces_in_chunk file_index (add64 offset piece_index) d
          (h.v1_pieces, r.1)
      else ok (h.v1_pieces, r.1)
  ok (record {
    leaves = h.leaves ++ in_file file_index (r.0);
    v1_pieces = v.0;
    bytes_done = add64 h.bytes_done (length d);
    bytes_hashed = v.1;
  })
