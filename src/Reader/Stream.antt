-- ===== src/Reader/Stream.antt =====
-- The loop over the reads of a file takes in all its bytes.
use dottorrent.Base.{
  ℕ, zero, suc, ◌-◌, ◌*◌, ◌%◌, ◌^◌, ◌≤◌, ◌<◌, ◌≡◌, refl, ◌++◌, ◌==◌, append_assoc, Bytes, length,
  take, drop, length-append, ltb, ltb→lt, ok, arith, sym, ap, subst, ◌∙◌, Bool-cases, inl, inr,
}
use dottorrent.Base.Split.{take-drop, length-drop}
use dottorrent.Reader.{V1Reader, chunk_offset, push_full, read_some, read_file}
use dottorrent.Reader.Blocks.{Fed, outcome, last_read, full_read}

push_full-file :
    (chunk_size pieces_per_chunk : ℕ) (r : V1Reader)
    → (push_full chunk_size pieces_per_chunk r).file_index ≡ r.file_index
unfolding push_full
push_full-file chunk_size pieces_per_chunk r = elim (Bool-cases (chunk_offset r == chunk_size)) [
  | inl e ↦ rw e refl
  | inr e ↦ rw e refl
]

module _ (piece_size chunk_size pieces_per_chunk : ℕ) where
  pub Fed-trans :
      {r r' r'' : V1Reader} {i : ℕ} (xs ys : Bytes)
      → (f : Fed piece_size chunk_size pieces_per_chunk r i xs r')
      → Fed piece_size chunk_size pieces_per_chunk r' (f.next) ys r''
      → Fed piece_size chunk_size pieces_per_chunk r i (xs ++ ys) r''
  Fed-trans {r} {i} xs ys f g =
      let l = length-append xs ys in
      record {
        next = g.next;
        index = g.index;
        room = g.room;
        total = omega (arith, l, f.total, g.total);
        read = omega (arith, l, f.read, g.read);
        stream = λ rest.
            g.stream rest
            ∙ (f.stream (ys ++ rest)
                ∙ ap (outcome piece_size chunk_size pieces_per_chunk r i)
                    (sym (append_assoc xs ys rest)));
      }

  read_same :
      (r : V1Reader) (content : Bytes)
      → (push_full chunk_size pieces_per_chunk (read_some chunk_size r content)).file_index
        ≡ r.file_index
  unfolding read_some
  read_same r content = push_full-file chunk_size pieces_per_chunk (read_some chunk_size r content)

  -- A file that is there is read to its end.
  pub read_file-Fed :
      (rounds : ℕ) (r : V1Reader) (i : ℕ) (content : Bytes)
      → length content < rounds
      → chunk_size ≡ piece_size * pieces_per_chunk
      → r.piece_index ≡ i % 2 ^ 64
      → length r.chunk < chunk_size
      → (r' : V1Reader) × (read_file rounds chunk_size pieces_per_chunk r content ≡ ok r')
        × Fed piece_size chunk_size pieces_per_chunk r i content r'
        × (r'.file_index ≡ r.file_index)
  unfolding read_file
  read_file-Fed zero r i content few whole index room = absurd (omega arith)
  read_file-Fed (suc rounds) r i content few whole index room =
      let space = chunk_size - length r.chunk in
      let r' = push_full chunk_size pieces_per_chunk (read_some chunk_size r content) in
      let same = read_same r content in
      elim (Bool-cases (ltb (length content) space)) [
        | inl e ↦ (
          r',
          rw e refl,
          last_read piece_size chunk_size pieces_per_chunk r i content index
              (ltb→lt (length content) space e),
          same,
        )
        | inr e ↦
            let enough : space ≤ length content = grind (arith, e) in
            let f =
              full_read piece_size chunk_size pieces_per_chunk r i content whole index room
                enough in
            let d = length-drop space content in
            let (r'', done, g, later) =
              read_file-Fed rounds r' (f.next) (drop space content) (omega arith) whole (f.index)
                (f.room) in
            (
              r'',
              rw e done,
              subst (λ l. Fed piece_size chunk_size pieces_per_chunk r i l r'')
                  (take-drop space content)
                  (Fed-trans (take space content) (drop space content) f g),
              later ∙ same,
            )
      ]
