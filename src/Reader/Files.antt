-- ===== src/Reader/Files.antt =====
-- The v1 reader on files that are all there.
use dottorrent.Base.{
  ℕ, suc, ◌+◌, ◌-◌, ◌*◌, ◌/◌, ◌%◌, ◌^◌, ◌≤◌, ◌<◌, ◌≡◌, refl, true, false, Option, none, some, List,
  [], ◌∷◌, ◌++◌, map, append_assoc, append-nil, Bytes, length, get_elem?, length-append, ◌==◌, Run,
  ok, throws, out_of_range, arith, sym, ap, ◌∙◌, Bool-cases, inl, inr,
}
use dottorrent.Base.Split.{split, split_fuel, split-short, numbered}
use native.Mathlib.Nat.{mul-add-div, div-eq_of_lt, div-le_self, mul-div_cancel_left, mul-mod_right}
use dottorrent.Entry.{FileEntry, is_padding_file}
use dottorrent.Storage.{FileStorage, at, add64, sub64, piece_count}
use dottorrent.Reader.{
  V1Reader, file, next_file, read_entry, read_entries, push_last, run_v1, new_v1_reader, u32,
}
use dottorrent.Reader.Blocks.{Fed, outcome, stamped, contents, contents-append}
use dottorrent.Reader.Stream.{Fed-trans, read_file-Fed}

-- The files with these contents behind each other.
abbrev pub join : List Bytes → Bytes
join [] = []
join (b ∷ bs) = b ++ join bs

-- The entries are regular files with these contents.
abbrev pub ArePresent : List FileEntry → List Bytes → Type 0
ArePresent [] [] = Unit
ArePresent (e ∷ es) (b ∷ bs) =
    ((is_padding_file e ≡ false) × (e.file_size ≡ length b)) × ArePresent es bs
ArePresent _ _ = ⊥

get_elem?-append :
    (before : List FileEntry) (e : FileEntry) (rest : List FileEntry)
    → get_elem? (before ++ e ∷ rest) (length before) ≡ some e
get_elem?-append [] e rest = refl
get_elem?-append (x ∷ before) e rest = get_elem?-append before e rest

pub at-some :
    (s : FileStorage) (i : ℕ) (e : FileEntry) → get_elem? s.files i ≡ some e → at s i ≡ ok e
unfolding at
at-some s i e h =
    let found : Option FileEntry → Run FileEntry =
      λ o. elim o [ none ↦ throws out_of_range | some x ↦ ok x ] in
    ap found h

-- The pieces of a part that ends on a piece, and those of the rest.
pub ceil_shift :
    (ps q m n : ℕ)
    → 0 < ps
    → n ≡ ps * q + m
    → n + ps ≤ 2 ^ 64
    → sub64 (add64 n ps) 1 / ps ≡ q + sub64 (add64 m ps) 1 / ps
ceil_shift ps q m n pos e fits =
    let whole : sub64 (add64 n ps) 1 ≡ ps * q + (m + ps - 1) = omega (arith, e, fits, pos) in
    let part : sub64 (add64 m ps) 1 ≡ m + ps - 1 = omega (arith, e, fits, pos) in
    ap (λ k. k / ps) whole ∙ (mul-add-div pos q (m + ps - 1) ∙ ap (λ k. q + k / ps) (sym part))

pub no_pieces : (ps : ℕ) → 0 < ps → ps ≤ 2 ^ 64 → sub64 (add64 0 ps) 1 / ps ≡ 0
no_pieces ps pos fits =
    let e : sub64 (add64 0 ps) 1 ≡ ps - 1 = omega (arith, pos, fits) in
    ap (λ k. k / ps) e ∙ div-eq_of_lt (omega (arith, pos))

test_equal : (a b : ℕ) → a ≡ b → (a == b) ≡ true
test_equal a b h = ground arith

module _ (s : FileStorage) (chunk_size pieces_per_chunk : ℕ) where
  read_entry-Fed :
      (r : V1Reader) (i : ℕ) (e : FileEntry) (content : Bytes)
      → get_elem? s.files r.file_index ≡ some e
      → is_padding_file e ≡ false
      → chunk_size / s.piece_size ≡ pieces_per_chunk
      → chunk_size ≡ s.piece_size * pieces_per_chunk
      → r.piece_index ≡ i % 2 ^ 64
      → length r.chunk < chunk_size
      → (r' : V1Reader) × (read_entry s chunk_size r (file content) ≡ ok r')
        × Fed s.piece_size chunk_size pieces_per_chunk r i content r'
        × (r'.file_index ≡ add64 r.file_index 1)
  unfolding read_entry
  read_entry-Fed r i e content here regular whole' whole index room =
      let (r', done, f, same) =
        read_file-Fed s.piece_size chunk_size pieces_per_chunk (suc (length content)) (next_file r)
          i content (omega arith) whole index room in
      (
        r',
        rw (at-some s r.file_index e here, regular, whole') done,
        record {
          next = f.next;
          index = f.index;
          room = f.room;
          total = f.total;
          read = f.read;
          stream = f.stream;
        },
        same,
      )

  read_entries-Fed :
      (before rest : List FileEntry) (bs : List Bytes) (r : V1Reader) (i : ℕ)
      → s.files ≡ before ++ rest
      → ArePresent rest bs
      → length s.files < 2 ^ 64
      → r.file_index ≡ length before
      → chunk_size / s.piece_size ≡ pieces_per_chunk
      → chunk_size ≡ s.piece_size * pieces_per_chunk
      → r.piece_index ≡ i % 2 ^ 64
      → length r.chunk < chunk_size
      → r.bytes_read < 2 ^ 64
      → (r' : V1Reader) × (read_entries s chunk_size r (map file bs) ≡ ok r')
        × Fed s.piece_size chunk_size pieces_per_chunk r i (join bs) r'
  unfolding read_entries
  read_entries-Fed before [] [] r i split_ present few at_ whole' whole index room small = (
    r,
    refl,
    record {
      next = i;
      index = index;
      room = room;
      total = omega arith;
      read = omega arith;
      stream = λ rest. refl;
    },
  )
  read_entries-Fed before [] (b ∷ bs) r i split_ present few at_ whole' whole index room small =
      absurd present
  read_entries-Fed before (e ∷ es) [] r i split_ present few at_ whole' whole index room small =
      absurd present
  read_entries-Fed before (e ∷ es) (b ∷ bs) r i split_ ((regular, size), present) few at_ whole'
        whole index room small =
      let here : get_elem? s.files r.file_index ≡ some e =
        rw (split_, at_) (get_elem?-append before e es) in
      let (r', done, f, next_) = read_entry-Fed r i e b here regular whole' whole index room in
      let n = length-append before (e ∷ es) in
      let m = length-append before (e ∷ []) in
      let (r'', all_, g) =
        read_entries-Fed (before ++ e ∷ []) es bs r' (f.next)
          (split_ ∙ sym (append_assoc before (e ∷ []) es)) present few
          (omega (arith, next_, ap length split_)) whole' whole (f.index) (f.room)
          (omega (arith, f.read)) in
      (r'', rw done all_, Fed-trans s.piece_size chunk_size pieces_per_chunk b (join bs) f g)

  last_chunk :
      (r r' : V1Reader) (content : Bytes)
      → (f : Fed s.piece_size chunk_size pieces_per_chunk r 0 content r') → r.chunk ≡ []
      → 0 < s.piece_size
      → length content + s.piece_size ≤ 2 ^ 64
      → (contents (push_last s.piece_size r').pushed
          ≡ outcome s.piece_size chunk_size pieces_per_chunk r' (f.next) [])
        × ((push_last s.piece_size r').piece_index
            ≡ sub64 (add64 (length content) s.piece_size) 1 / s.piece_size)
        × ((push_last s.piece_size r').bytes_read ≡ r'.bytes_read)
  unfolding push_last split_fuel
  last_chunk r r' content f fresh pos fits =
      let ps = s.piece_size in
      let m = length r'.chunk in
      let c =
        ceil_shift ps (f.next) m (length content) pos (omega (arith, f.total, ap length fresh))
          fits in
      let all_of = append-nil r'.chunk in
      let small = div-le_self (sub64 (add64 (length content) ps) 1) ps in
      elim (Bool-cases (length r'.chunk == 0)) [
        | inl e ↦
            let none_left : length r'.chunk ≡ 0 = ground arith in
            let nothing = no_pieces ps pos (omega arith) in
            rw e (
              sym (append-nil (contents r'.pushed))
                  ∙ ap
                      (λ l.
                        contents r'.pushed
                        ++ stamped (numbered pieces_per_chunk (f.next) (split chunk_size l)))
                      (sym (all_of ∙ length-nil r'.chunk none_left)),
              omega (
                arith,
                f.index,
                c,
                small,
                ap (λ k. sub64 (add64 k ps) 1 / ps) none_left,
                nothing,
              ),
              refl,
            )
        | inr e ↦
            let some_left : 0 < length r'.chunk = ground arith in
            let same : u32 r'.piece_index ≡ u32 (f.next) = omega (arith, f.index) in
            rw e (
              contents-append r'.pushed (record {
                piece_index = u32 r'.piece_index;
                file_index = u32 (sub64 r'.file_index (length r'.file_offsets));
                bytes = some r'.chunk;
              })
                  ∙ (ap (λ n. contents r'.pushed ++ (n, some r'.chunk) ∷ []) same
                      ∙ ap
                          (λ l.
                            contents r'.pushed ++ stamped (numbered pieces_per_chunk (f.next) l))
                          (sym (
                            ap (split chunk_size) all_of
                            ∙ split-short chunk_size r'.chunk some_left (omega (arith, f.room))))),
              omega (arith, f.index, c, small),
              refl,
            )
      ]
    where
      length-nil : (xs : Bytes) → length xs ≡ 0 → xs ≡ []
      length-nil [] h = refl
      length-nil (x ∷ xs) h = absurd (omega arith)

  pub piece_count_of :
      0 < s.piece_size
      → piece_count s ≡ sub64 (add64 s.total_file_size s.piece_size) 1 / s.piece_size
  unfolding piece_count
  piece_count_of pos =
      let some_size : (s.piece_size == 0) ≡ false = ground arith in rw some_size refl

  -- A storage with a positive piece size whose kept total is that of its entries, fewer than 2^64 of them,
  -- all regular files that are on the disk with the sizes the entries have, a total that fits 64 bits
  -- when a piece is added, and chunks of a positive whole number of pieces: the run returns, so its final
  -- check holds. The chunks are the consecutive chunks of the files behind each other, only the last
  -- of which may be shorter, with the index of their first piece modulo 2^32, and the bytes
  -- read are all bytes.
  pub run_v1_lem :
      (bs : List Bytes)
      → ArePresent s.files bs
      → s.total_file_size ≡ length (join bs)
      → length s.files < 2 ^ 64
      → length (join bs) + s.piece_size ≤ 2 ^ 64
      → 0 < s.piece_size
      → 0 < pieces_per_chunk
      → chunk_size ≡ s.piece_size * pieces_per_chunk
      → (r : V1Reader) × (run_v1 s chunk_size (map file bs) ≡ ok r)
        × (contents r.pushed ≡ stamped (numbered pieces_per_chunk 0 (split chunk_size (join bs))))
        × (r.bytes_read ≡ length (join bs))
  unfolding run_v1
  run_v1_lem bs present total few fits pos some_pieces whole =
      let ps = s.piece_size in
      let quotient : chunk_size / ps ≡ pieces_per_chunk =
        ap (λ k. k / ps) whole ∙ mul-div_cancel_left pieces_per_chunk pos in
      let rest : chunk_size % ps ≡ 0 = ap (λ k. k % ps) whole ∙ mul-mod_right ps pieces_per_chunk in
      let big : 0 < chunk_size = grind (arith, whole) in
      let (r, done, f) =
        read_entries-Fed [] s.files bs new_v1_reader 0 refl present few refl quotient whole refl big
          (omega arith) in
      let (out, index, bytes) = last_chunk new_v1_reader r (join bs) f refl pos fits in
      let positive : (ps == 0) ≡ false = grind arith in
      let checked : (chunk_size % ps == 0) ≡ true = grind (arith, rest) in
      let counted : ((push_last ps r).piece_index == piece_count s) ≡ true =
        test_equal _ _
          (index ∙ (ap (λ k. sub64 (add64 k ps) 1 / ps) (sym total) ∙ sym (piece_count_of pos))) in
      (
        push_last ps r,
        rw (positive, checked, done, counted) refl,
        out
            ∙ (f.stream []
                ∙ ap (λ l. stamped (numbered pieces_per_chunk 0 (split chunk_size l)))
                    (append-nil (join bs))),
        omega (arith, bytes, f.read),
      )
