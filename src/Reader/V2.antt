-- ===== src/Reader/V2.antt =====
-- src/v2_chunk_reader.cpp: the reader whose chunks never cross a file. The store of the last write
-- time in the entry is that of Reader/Times; a cancellation is not modelled.
use dottorrent.Base.{
  ℕ, zero, suc, ◌/◌, Option, none, some, List, [], ◌∷◌, ◌++◌, Bytes, length, take, drop, ltb, ◌==◌,
  if◌then◌else◌, Run, ok, throws, undefined, expects, ◌>>=◌, ◌>>◌, runtime_error,
}
use dottorrent.Entry.{FileEntry, is_padding_file}
use dottorrent.Storage.{FileStorage, add64, at, piece_count}
use dottorrent.Reader.{DataChunk, u32, OnDisk, missing, file, unreadable}

pub record V2Reader : Type 0 where
  pub file_index : ℕ
  pub piece_index : ℕ
  pub bytes_read : ℕ
  pub pushed : List DataChunk

unfoldable pub push_v2 : FileStorage → V2Reader → ℕ → Option Bytes → Run V2Reader
push_v2 s r index content = do
  expects (ltb (u32 index) (piece_count s))
  ok (record r {
    pushed =
        r.pushed
        ++ record { piece_index = u32 index; file_index = u32 r.file_index; bytes = content } ∷ [];
  })

-- One round of the loop over the reads.
unfoldable pub read_part : FileStorage → ℕ → V2Reader → Bytes → Run V2Reader
unfolding push_v2
read_part s pieces_per_chunk r part = do
  r' ←
      push_v2 s (record r { bytes_read = add64 r.bytes_read (length part) }) r.piece_index
        (some part)
  ok (record r' { piece_index = add64 r'.piece_index pieces_per_chunk })

-- The loop; a read that finds fewer bytes than it asks for has reached the end.
unfoldable pub read_v2_file : ℕ → FileStorage → ℕ → ℕ → V2Reader → Bytes → Run V2Reader
unfolding read_part
read_v2_file zero s chunk_size pieces_per_chunk r content = undefined
read_v2_file (suc rounds) s chunk_size pieces_per_chunk r content = do
  r' ← read_part s pieces_per_chunk r (take chunk_size content)
  let next = read_v2_file rounds s chunk_size pieces_per_chunk r' (drop chunk_size content)
  if ltb (length content) chunk_size then ok r' else next

abbrev pub next_v2_file : V2Reader → V2Reader
next_v2_file r = record r { file_index = add64 r.file_index 1 }

-- The body of the loop over the files behind the test for padding.
unfoldable pub read_v2_present : FileStorage → ℕ → V2Reader → FileEntry → OnDisk → Run V2Reader
unfolding push_v2 read_v2_file
read_v2_present s chunk_size r entry missing = do
  r' ← push_v2 s r 0 none
  ok (next_v2_file (record r' { bytes_read = add64 r'.bytes_read entry.file_size }))
read_v2_present s chunk_size r entry (file content) = do
  r' ←
      read_v2_file (suc (length content)) s chunk_size (chunk_size / s.piece_size)
        (record r { piece_index = 0 }) content
  ok (next_v2_file r')
-- The first read of a file that cannot be read yields an empty chunk before it throws.
read_v2_present s chunk_size r entry unreadable = do
  r' ← read_part s (chunk_size / s.piece_size) (record r { piece_index = 0 }) []
  throws runtime_error

unfoldable pub read_v2_entry : FileStorage → ℕ → V2Reader → OnDisk → Run V2Reader
unfolding read_v2_present at
read_v2_entry s chunk_size r disk = do
  entry ← at s r.file_index
  if is_padding_file entry
      then ok (next_v2_file (record r { bytes_read = add64 r.bytes_read entry.file_size }))
      else read_v2_present s chunk_size r entry disk

unfoldable pub read_v2_entries : FileStorage → ℕ → V2Reader → List OnDisk → Run V2Reader
unfolding read_v2_entry
read_v2_entries s chunk_size r [] = ok r
read_v2_entries s chunk_size r (f ∷ fs) = do
  r' ← read_v2_entry s chunk_size r f
  read_v2_entries s chunk_size r' fs

abbrev pub new_v2_reader : V2Reader
new_v2_reader = record { file_index = 0; piece_index = 0; bytes_read = 0; pushed = [] }

-- v2_chunk_reader::run()
unfoldable pub run_v2 : FileStorage → ℕ → List OnDisk → Run V2Reader
unfolding read_v2_entries
run_v2 s chunk_size disk =
    if s.piece_size == 0 then undefined else read_v2_entries s chunk_size new_v2_reader disk
