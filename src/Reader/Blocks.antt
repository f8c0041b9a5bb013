-- ===== src/Reader/Blocks.antt =====
-- A read into the chunk of the v1 reader, and what it leaves of the chunks to come.
use dottorrent.Base.{
  ℕ, ◌+◌, ◌-◌, ◌*◌, ◌%◌, ◌^◌, ◌≤◌, ◌<◌, ◌≡◌, refl, true, false, Option, some, List, [], ◌∷◌, ◌++◌,
  append_assoc, Bytes, length, take, length-append, ◌==◌, arith, sym, ap, ◌∙◌,
}
use dottorrent.Base.Split.{split, split-full, numbered, take_all, length-take}
use dottorrent.Storage.{sub64}
use dottorrent.Reader.{V1Reader, DataChunk, chunk_offset, push_chunk, push_full, read_some, u32}

-- The index and the data of a chunk, as a chunk keeps them.
abbrev pub stamped : List (ℕ × Bytes) → List (ℕ × Option Bytes)
stamped [] = []
stamped ((i, d) ∷ xs) = (u32 i, some d) ∷ stamped xs

abbrev pub contents : List DataChunk → List (ℕ × Option Bytes)
contents [] = []
contents (c ∷ cs) = (c.piece_index, c.bytes) ∷ contents cs

pub contents-append :
    (xs : List DataChunk) (c : DataChunk)
    → contents (xs ++ c ∷ []) ≡ contents xs ++ (c.piece_index, c.bytes) ∷ []
contents-append [] c = refl
contents-append (x ∷ xs) c = ap (◌∷◌ (x.piece_index, x.bytes)) (contents-append xs c)

module _ (piece_size chunk_size pieces_per_chunk : ℕ) where
  -- The chunks of a reader in the end, where these bytes are still to come.
  abbrev pub outcome : V1Reader → ℕ → Bytes → List (ℕ × Option Bytes)
  outcome r i rest =
      contents r.pushed
      ++ stamped (numbered pieces_per_chunk i (split chunk_size (r.chunk ++ rest)))

  -- The reader `r'` is `r` after these bytes.
  pub record Fed (r : V1Reader) (i : ℕ) (content : Bytes) (r' : V1Reader) : Type 0 where
    pub next : ℕ
    pub index : r'.piece_index ≡ next % 2 ^ 64
    pub room : length r'.chunk < chunk_size
    pub total :
        piece_size * next + length r'.chunk ≡ piece_size * i + (length r.chunk + length content)
    pub read : r'.bytes_read ≡ (r.bytes_read + length content) % 2 ^ 64
    pub stream : (rest : Bytes) → outcome r' next rest ≡ outcome r i (content ++ rest)

  pub push-outcome :
      (r : V1Reader) (i j : ℕ) (rest : Bytes)
      → 0 < chunk_size
      → length r.chunk ≡ chunk_size
      → r.piece_index ≡ i % 2 ^ 64
      → contents (push_chunk r (some r.chunk) j).pushed
          ++ stamped (numbered pieces_per_chunk (i + pieces_per_chunk) (split chunk_size rest))
        ≡ outcome r i rest
  push-outcome r i j rest pos full index =
      let later =
        stamped (numbered pieces_per_chunk (i + pieces_per_chunk) (split chunk_size rest)) in
      let same : u32 r.piece_index ≡ u32 i = omega (arith, index) in
      ap (λ l. l ++ later)
        (contents-append r.pushed
          (record { piece_index = u32 r.piece_index; file_index = u32 j; bytes = some r.chunk }))
      ∙ (append_assoc (contents r.pushed) ((u32 r.piece_index, some r.chunk) ∷ []) later
          ∙ (ap (λ n. contents r.pushed ++ (n, some r.chunk) ∷ later) same
              ∙ ap (λ l. contents r.pushed ++ stamped (numbered pieces_per_chunk i l))
                  (sym (split-full chunk_size r.chunk rest pos full))))

  -- A read of all that is left, which does not fill the chunk.
  pub last_read :
      (r : V1Reader) (i : ℕ) (content : Bytes)
      → r.piece_index ≡ i % 2 ^ 64
      → length content < chunk_size - length r.chunk
      → Fed r i content (push_full chunk_size pieces_per_chunk (read_some chunk_size r content))
  unfolding push_full read_some
  last_read r i content index few =
      let l = length-append r.chunk content in
      let open_ : (length (r.chunk ++ content) == chunk_size) ≡ false = grind (arith, l, few) in
      rw (take_all (chunk_size - length r.chunk) content (omega arith), open_)
        (record {
          next = i;
          index = index;
          room = omega (arith, l);
          total = omega (arith, l);
          read = refl;
          stream = λ rest.
              ap
                (λ l.
                  contents r.pushed ++ stamped (numbered pieces_per_chunk i (split chunk_size l)))
                (append_assoc r.chunk content rest);
        })

  -- A read that fills the chunk.
  pub full_read :
      (r : V1Reader) (i : ℕ) (content : Bytes)
      → chunk_size ≡ piece_size * pieces_per_chunk
      → r.piece_index ≡ i % 2 ^ 64
      → length r.chunk < chunk_size
      → chunk_size - length r.chunk ≤ length content
      → Fed r i
          (take (chunk_size - length r.chunk) content)
          (push_full chunk_size pieces_per_chunk (read_some chunk_size r content))
  unfolding push_full read_some
  full_read r i content whole index room enough =
      let got = take (chunk_size - length r.chunk) content in
      let g = length-take (chunk_size - length r.chunk) content enough in
      let l = length-append r.chunk got in
      let full : length (r.chunk ++ got) ≡ chunk_size = omega (arith, l, g) in
      let closed : (length (r.chunk ++ got) == chunk_size) ≡ true = grind (arith, full) in
      rw closed (record {
        next = i + pieces_per_chunk;
        index = omega (arith, index);
        room = omega arith;
        total = omega (arith, l, g, whole);
        read = refl;
        stream = λ rest.
            push-outcome (read_some chunk_size r content) i
              (sub64 r.file_index (length (r.file_offsets ++ chunk_offset r ∷ []))) rest
              (omega arith) full index
            ∙ ap
                (λ l.
                  contents r.pushed ++ stamped (numbered pieces_per_chunk i (split chunk_size l)))
                (append_assoc r.chunk got rest);
      })
