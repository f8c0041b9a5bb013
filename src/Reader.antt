-- ===== src/Reader.antt =====
-- src/chunk_reader.cpp, src/v1_chunk_reader.cpp and src/v2_chunk_reader.cpp: the readers that cut the files
-- of a storage into chunks for the hashers. What the disk holds is an argument. The chunk that is being
-- filled is the bytes in front of `chunk_offset_`; the reads of `cancelled_` are those of a reader that
-- nobody cancels. The write times that a run stores in the storage are in Times. The queues of the consumers get the chunks in the order of the list here.
pub mod Blocks
pub mod Stream
pub mod Files
pub mod Times
pub mod V2
pub mod Sizes
pub mod Thread
pub mod Examples
use dottorrent.Base.{
  ℕ, zero, suc, ◌+◌, ◌-◌, ◌*◌, ◌/◌, ◌%◌, ◌^◌, min, Bool, true, false, not, ◌&&◌, ◌||◌, Option, none,
  some, List, [], ◌∷◌, ◌++◌, Bytes, length, take, drop, replicate, ltb, leb, ◌==◌, if◌then◌else◌,
  Run, ok, throws, violation, undefined, expects, ◌>>=◌, ◌>>◌, runtime_error, logic_error,
}
use dottorrent.Entry.{FileEntry, is_padding_file}
use dottorrent.Storage.{FileStorage, add64, sub64, at, piece_count, has_single_bit}

pub record DataChunk : Type 0 where
  pub piece_index : ℕ
  pub file_index : ℕ
  -- `none` is the null pointer.
  pub bytes : Option Bytes

abbrev pub u32 : ℕ → ℕ
u32 n = n % 2 ^ 32

-- The file at the path of an entry: none, one with these bytes, or one that cannot be read.
pub data OnDisk : Type 0 where
  missing unreadable : OnDisk
  file : Bytes → OnDisk

-- The checks of the constructor of `chunk_reader`.
unfoldable pub check_reader : FileStorage → ℕ → ℕ → Run (Unit {0})
unfolding has_single_bit
check_reader s chunk_size capacity = do
  expects (leb (16 * 1024) s.piece_size)
  expects (has_single_bit s.piece_size)
  expects (chunk_size % s.piece_size == 0)
  expects (ltb 1 capacity)

-- The members of a v1 reader that change, and the chunks pushed.
pub record V1Reader : Type 0 where
  pub piece_index : ℕ
  pub chunk : Bytes
  pub file_offsets : List ℕ
  pub file_index : ℕ
  pub bytes_read : ℕ
  pub pushed : List DataChunk

abbrev pub chunk_offset : V1Reader → ℕ
chunk_offset r = length r.chunk

-- `push` of a chunk of the reader, with the file that its first byte is taken from.
abbrev pub push_chunk : V1Reader → Option Bytes → ℕ → V1Reader
push_chunk r content index = record r {
  pushed =
      r.pushed
      ++ record { piece_index = u32 r.piece_index; file_index = u32 index; bytes = content } ∷ [];
}

-- What follows where the chunk is full.
unfoldable pub push_full : ℕ → ℕ → V1Reader → V1Reader
push_full chunk_size pieces_per_chunk r =
    if chunk_offset r == chunk_size
    then record (push_chunk r (some r.chunk) (sub64 r.file_index (length r.file_offsets))) {
      chunk = [];
      file_offsets = [];
      piece_index = add64 r.piece_index pieces_per_chunk;
    }
    else r

-- One `read` into the chunk.
unfoldable pub read_some : ℕ → V1Reader → Bytes → V1Reader
read_some chunk_size r content =
    let got = take (chunk_size - chunk_offset r) content in
    record r {
      chunk = r.chunk ++ got;
      file_offsets = r.file_offsets ++ chunk_offset r ∷ [];
      bytes_read = add64 r.bytes_read (length got);
    }

-- The loop over the reads of a file, with the bytes of it that are left. A read that finds fewer bytes than
-- it asks for has reached the end. The rounds are those of the bytes and one.
unfoldable pub read_file : ℕ → ℕ → ℕ → V1Reader → Bytes → Run V1Reader
unfolding push_full read_some
read_file zero chunk_size pieces_per_chunk r content = undefined
read_file (suc rounds) chunk_size pieces_per_chunk r content =
    let room = chunk_size - chunk_offset r in
    let r' = push_full chunk_size pieces_per_chunk (read_some chunk_size r content) in
    let next = read_file rounds chunk_size pieces_per_chunk r' (drop room content) in
    if ltb (length content) room then ok r' else next

-- The pushes of empty chunks for the pieces that are missing altogether.
unfoldable pub push_missing : ℕ → V1Reader → V1Reader
push_missing zero r = r
push_missing (suc n) r =
    push_missing n (record (push_chunk r none r.file_index) { piece_index = add64 r.piece_index 1 })

-- The zero bytes that fill up the current chunk, with the missing bytes that are left then.
unfoldable pub fill_current : ℕ → ℕ → V1Reader → ℕ → V1Reader × ℕ
unfolding push_full
fill_current chunk_size pieces_per_chunk r missing_file_size =
    let bytes_to_fill = min (chunk_size - chunk_offset r) missing_file_size in
    if chunk_offset r == 0 then (r, missing_file_size) else (
      push_full chunk_size pieces_per_chunk (record r {
        chunk = r.chunk ++ replicate bytes_to_fill 0;
        file_offsets = r.file_offsets ++ chunk_offset r ∷ [];
      }),
      missing_file_size - bytes_to_fill,
    )

unfoldable pub handle_missing_file : FileStorage → ℕ → V1Reader → Run V1Reader
unfolding fill_current push_missing at
handle_missing_file s chunk_size r = do
  expects (chunk_size % s.piece_size == 0)
  entry ← at s r.file_index
  let filled = fill_current chunk_size (chunk_size / s.piece_size) r entry.file_size
  let pieces = filled.1 / s.piece_size
  let r' = push_missing pieces (filled.0)
  ok (record r' { chunk = r'.chunk ++ replicate (filled.1 - s.piece_size * pieces) 0 })

abbrev pub next_file : V1Reader → V1Reader
next_file r = record r { file_index = add64 r.file_index 1 }

-- The body of the loop over the files. The first read of a file that cannot be read fails.
unfoldable pub read_entry : FileStorage → ℕ → V1Reader → OnDisk → Run V1Reader
unfolding handle_missing_file read_file at
read_entry s chunk_size r missing = do
  entry ← at s r.file_index
  r' ← handle_missing_file s chunk_size r
  ok (next_file r')
read_entry s chunk_size r (file content) = do
  entry ← at s r.file_index
  if is_padding_file entry
      then (do r' ← handle_missing_file s chunk_size r; ok (next_file r'))
      else read_file (suc (length content)) chunk_size (chunk_size / s.piece_size) (next_file r)
          content
read_entry s chunk_size r unreadable = do
  entry ← at s r.file_index
  if is_padding_file entry
      then (do r' ← handle_missing_file s chunk_size r; ok (next_file r'))
      else throws runtime_error

unfoldable pub read_entries : FileStorage → ℕ → V1Reader → List OnDisk → Run V1Reader
unfolding read_entry
read_entries s chunk_size r [] = ok r
read_entries s chunk_size r (f ∷ fs) = do
  r' ← read_entry s chunk_size r f
  read_entries s chunk_size r' fs

-- The last chunk, which may be partial.
unfoldable pub push_last : ℕ → V1Reader → V1Reader
push_last piece_size r =
    if chunk_offset r == 0
    then r
    else (let n = chunk_offset r in
        record (push_chunk r (some r.chunk) (sub64 r.file_index (length r.file_offsets))) {
          chunk = [];
          piece_index = add64 r.piece_index (sub64 (add64 n piece_size) 1 / piece_size);
        })

abbrev pub new_v1_reader : V1Reader
new_v1_reader = record {
  piece_index = 0;
  chunk = [];
  file_offsets = [];
  file_index = 0;
  bytes_read = 0;
  pushed = [];
}

-- v1_chunk_reader::run()
unfoldable pub run_v1 : FileStorage → ℕ → List OnDisk → Run V1Reader
unfolding read_entries push_last
run_v1 s chunk_size disk = if s.piece_size == 0 then undefined else (do
  expects (chunk_size % s.piece_size == 0)
  r ← read_entries s chunk_size new_v1_reader disk
  let last = push_last s.piece_size r
  expects (last.piece_index == piece_count s)
  ok last)
