-- ===== src/Reader/Sizes.antt =====
-- The v2 reader on a file whose size is a multiple of the chunk size, and on others.
use native.Mathlib.Nat.{mul-div_cancel_left, mul_assoc}
use dottorrent.Base.{
  ℕ, zero, suc, ◌+◌, ◌*◌, ◌/◌, ◌^◌, ◌≤◌, ◌<◌, ◌≡◌, refl, true, false, some, List, [], ◌∷◌, ◌++◌,
  append_assoc, Bytes, get_elem?, length, take, drop, ltb, lt→ltb, ◌==◌, ok, violation, arith, ap,
  ◌∙◌,
}
use dottorrent.Base.Split.{numbered, length-drop, take_all}
use dottorrent.Entry.{FileEntry, is_padding_file}
use dottorrent.Storage.{FileStorage, add64, sub64, piece_count}
use dottorrent.Reader.{u32, file}
use dottorrent.Reader.V2.{
  V2Reader, push_v2, read_part, read_v2_file, read_v2_entry, read_v2_entries, read_v2_present,
  run_v2, new_v2_reader,
}
use dottorrent.Reader.Blocks.{stamped, contents, contents-append}
use dottorrent.Reader.Files.{at-some, ceil_shift, no_pieces, piece_count_of}

-- The parts that the reads of a file yield: full ones and one that is shorter, which is empty where
-- the size is a multiple of the chunk size.
unfoldable pub parts_with_last : ℕ → ℕ → Bytes → List Bytes
parts_with_last zero n d = d ∷ []
parts_with_last (suc full) n d = take n d ∷ parts_with_last full n (drop n d)

le-mul : (n p : ℕ) → 0 < p → n ≤ n * p
le-mul n p h = grind arith

module _ (s : FileStorage) (chunk_size pieces_per_chunk : ℕ) where
  part_ok :
      (r : V2Reader) (part : Bytes)
      → r.piece_index < piece_count s
      → r.piece_index < 2 ^ 32
      → (r' : V2Reader) × (read_part s pieces_per_chunk r part ≡ ok r')
        × (r'.piece_index ≡ add64 r.piece_index pieces_per_chunk)
        × (contents r'.pushed ≡ contents r.pushed ++ (u32 r.piece_index, some part) ∷ [])
  unfolding read_part push_v2
  part_ok r part small narrow =
      let passes : ltb (u32 r.piece_index) (piece_count s) ≡ true =
        lt→ltb _ _ (omega (arith, small, narrow)) in
      (
        record r {
          bytes_read = add64 r.bytes_read (length part);
          pushed =
              r.pushed
              ++ record {
                piece_index = u32 r.piece_index;
                file_index = u32 r.file_index;
                bytes = some part;
              }
                ∷ [];
          piece_index = add64 r.piece_index pieces_per_chunk;
        },
        rw passes refl,
        refl,
        contents-append r.pushed (record {
          piece_index = u32 r.piece_index;
          file_index = u32 r.file_index;
          bytes = some part;
        }),
      )

  -- A file of `full` full chunks and fewer than a chunk of further bytes, whose last chunk starts before
  -- the end of the pieces of the storage and below 2^32: the loop over its reads returns, and pushes the
  -- full chunks and one more with the rest, which is empty where the size is a multiple of the
  -- chunk size, each with the index of its first piece in the file.
  pub read_v2_file_lem :
      (full rounds : ℕ) (r : V2Reader) (content : Bytes)
      → full < rounds
      → chunk_size * full ≤ length content
      → length content < chunk_size * full + chunk_size
      → r.piece_index + pieces_per_chunk * full < piece_count s
      → r.piece_index + pieces_per_chunk * full < 2 ^ 32
      → (r' : V2Reader) × (read_v2_file rounds s chunk_size pieces_per_chunk r content ≡ ok r')
        × (contents r'.pushed
            ≡ contents r.pushed
              ++ stamped (
                  numbered pieces_per_chunk r.piece_index
                    (parts_with_last full chunk_size content)))
  unfolding read_v2_file parts_with_last
  read_v2_file_lem full zero r content more low high small narrow = absurd (omega arith)
  read_v2_file_lem zero (suc rounds) r content more low high small narrow =
      let short : length content < chunk_size = omega (arith, high) in
      let (r', done, index, out) =
        part_ok r content (omega (arith, small)) (omega (arith, narrow)) in
      (
        r',
        rw (take_all chunk_size content (omega (arith, short)), done, lt→ltb _ _ short) refl,
        out,
      )
  read_v2_file_lem (suc full) (suc rounds) r content more low high small narrow =
      let (r', done, index, out) =
        part_ok r (take chunk_size content) (omega (arith, small)) (omega (arith, narrow)) in
      let d = length-drop chunk_size content in
      let next : r'.piece_index ≡ r.piece_index + pieces_per_chunk = omega (arith, index, narrow) in
      let (r'', later, rest) =
        read_v2_file_lem full rounds r' (drop chunk_size content) (omega arith)
          (omega (arith, d, low)) (omega (arith, d, low, high)) (omega (arith, next, small))
          (omega (arith, next, narrow)) in
      let long : ltb (length content) chunk_size ≡ false = grind (arith, low) in
      (
        r'',
        rw (done, long) later,
        rest
            ∙ (ap
                  (λ l.
                    l
                    ++ stamped (
                        numbered pieces_per_chunk r'.piece_index
                          (parts_with_last full chunk_size (drop chunk_size content))))
                  out
                ∙ (append_assoc (contents r.pushed)
                      ((u32 r.piece_index, some (take chunk_size content)) ∷ [])
                      (stamped (
                        numbered pieces_per_chunk r'.piece_index
                          (parts_with_last full chunk_size (drop chunk_size content))))
                    ∙ ap
                        (λ n.
                          contents r.pushed
                          ++ (u32 r.piece_index, some (take chunk_size content))
                            ∷ stamped (
                                numbered pieces_per_chunk n
                                  (parts_with_last full chunk_size (drop chunk_size content))))
                        next)),
      )

  part_fails :
      (r : V2Reader) (part : Bytes)
      → r.piece_index ≡ piece_count s
      → r.piece_index < 2 ^ 32
      → read_part s pieces_per_chunk r part ≡ violation
  unfolding read_part push_v2
  part_fails r part end narrow =
      let fails : ltb (u32 r.piece_index) (piece_count s) ≡ false = grind (arith, end, narrow) in
      rw fails refl

  read_v2_file_multiple :
      (full rounds : ℕ) (r : V2Reader) (content : Bytes)
      → full < rounds
      → length content ≡ chunk_size * full
      → 0 < pieces_per_chunk
      → r.piece_index + pieces_per_chunk * full ≡ piece_count s
      → r.piece_index + pieces_per_chunk * full < 2 ^ 32
      → read_v2_file rounds s chunk_size pieces_per_chunk r content ≡ violation
  unfolding read_v2_file
  read_v2_file_multiple full zero r content more size some_pieces end narrow = absurd (omega arith)
  read_v2_file_multiple zero (suc rounds) r content more size some_pieces end narrow =
      rw (part_fails r (take chunk_size content) (omega (arith, end)) (omega (arith, narrow))) refl
  read_v2_file_multiple (suc full) (suc rounds) r content more size some_pieces end narrow =
      let (r', done, index, out) =
        part_ok r (take chunk_size content) (omega (arith, end, some_pieces, grown))
          (omega (arith, narrow)) in
      let d = length-drop chunk_size content in
      let next : r'.piece_index ≡ r.piece_index + pieces_per_chunk = omega (arith, index, narrow) in
      let long : ltb (length content) chunk_size ≡ false = grind (arith, size) in
      rw (done, long)
        (read_v2_file_multiple full rounds r' (drop chunk_size content) (omega arith)
          (omega (arith, d, size)) some_pieces (omega (arith, next, end))
          (omega (arith, next, narrow)))
    where
      grown : pieces_per_chunk * suc full ≡ pieces_per_chunk * full + pieces_per_chunk
      grown = omega arith

  -- A storage of one regular file that is there, with its size, and of fewer than 2^32 pieces: where the size
  -- is a multiple of the chunk size, zero included, which is a positive number of pieces, the run of
  -- the v2 reader fails a check. The read behind the last full chunk yields an empty chunk, whose piece
  -- index is the number of pieces.
  pub run_v2_multiple :
      (e : FileEntry) (content : Bytes) (full : ℕ)
      → s.files ≡ e ∷ []
      → is_padding_file e ≡ false
      → s.total_file_size ≡ length content
      → length content ≡ chunk_size * full
      → length content + s.piece_size ≤ 2 ^ 64
      → pieces_per_chunk * full < 2 ^ 32
      → 0 < s.piece_size
      → 0 < pieces_per_chunk
      → chunk_size ≡ s.piece_size * pieces_per_chunk
      → run_v2 s chunk_size (file content ∷ []) ≡ violation
  unfolding run_v2 read_v2_entries read_v2_entry read_v2_present
  run_v2_multiple e content full one regular total size fits narrow pos some_pieces whole =
      let ps = s.piece_size in
      let positive : (ps == 0) ≡ false = grind arith in
      let quotient : chunk_size / ps ≡ pieces_per_chunk =
        ap (λ k. k / ps) whole ∙ mul-div_cancel_left pieces_per_chunk pos in
      let here = at-some s 0 e (ap (λ l. get_elem? l 0) one) in
      let pieces : piece_count s ≡ pieces_per_chunk * full =
        piece_count_of s chunk_size pieces_per_chunk pos
        ∙ (ap (λ k. sub64 (add64 k ps) 1 / ps) total
            ∙ (ceil_shift ps (pieces_per_chunk * full) 0 (length content) pos
                  (omega
                    (arith, size, ap (λ k. k * full) whole, mul_assoc ps pieces_per_chunk full))
                  fits
                ∙ omega (arith, no_pieces ps pos (omega (arith, fits))))) in
      let bound : full ≤ full * chunk_size = le-mul full chunk_size (grind (arith, whole)) in
      rw
        (
          positive,
          here,
          regular,
          quotient,
          read_v2_file_multiple full (suc (length content)) new_v2_reader content
              (omega (arith, size, bound)) size some_pieces (omega (arith, pieces))
              (omega (arith, narrow)),
        )
        refl
