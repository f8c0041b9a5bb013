-- ===== src/Hasher/Chunks.antt =====
-- The v1 hasher on the chunks of the v1 reader: the pieces are those of the files behind each other.
use native.Mathlib.Decide.{dec_lt}
use mathlib.Core.List.{map-append}
use dottorrent.Base.{
  ℕ, zero, suc, ◌+◌, ◌-◌, ◌*◌, ◌/◌, ◌^◌, ◌≤◌, ◌<◌, ◌≡◌, refl, true, false, some, List, [], ◌∷◌,
  ◌++◌, map, append_assoc, append-nil, Bytes, length, length-append, length-map, take, drop, leb,
  ◌==◌, ok, arith, sym, ap, ◌∙◌,
}
use dottorrent.Base.Split.{
  split, split_fuel, split-step, split-short, split-append, numbered, numbered-append, length-take,
  length-drop, take-drop,
}
use dottorrent.Storage.{add64, sub64}
use dottorrent.Storage.Pieces.{ceil_bounds}
use dottorrent.Reader.{u32}
use dottorrent.Reader.Blocks.{stamped}
use dottorrent.Hasher.{V1Hasher, hash_v1_chunk, hash_v1_chunks}
use dottorrent.Hasher.Blocks.{hash_blocks_start}

pred_mul : (n p : ℕ) → 0 < n → (n - 1) * p + p ≡ n * p
pred_mul zero p h = absurd (omega arith)
pred_mul (suc n) p h = grind arith

le-mul : (n p : ℕ) → 0 < p → n ≤ n * p
le-mul n p h = grind arith

-- A product that is positive has a positive factor.
factor_pos : (n p : ℕ) → 0 < n * p → 0 < n
factor_pos zero p h = absurd (omega arith)
factor_pos (suc n) p h = omega arith

abbrev counts : List (ℕ × Bytes) → ℕ → ℕ → V1Hasher
counts ds m n = record { hashed = ds; bytes_done = m; bytes_hashed = n }

same_counts :
    {ds es : List (ℕ × Bytes)} {m m' n n' : ℕ}
    → ds ≡ es
    → m ≡ m'
    → n ≡ n'
    → counts ds m n ≡ counts es m' n'
same_counts {ds} {es} {m} {m'} {n} {n'} e f g =
    ap (λ l. counts l m n) e ∙ (ap (λ k. counts es k n) f ∙ ap (counts es m') g)

-- The hasher after more pieces, from `i` on, with this many bytes.
abbrev pub after_pieces : V1Hasher → ℕ → List Bytes → ℕ → V1Hasher
after_pieces h i digests n = record {
  hashed = h.hashed ++ numbered 1 i digests;
  bytes_done = add64 h.bytes_done n;
  bytes_hashed = add64 h.bytes_hashed n;
}

no_pieces_after :
    (h : V1Hasher) (i : ℕ)
    → h.bytes_done < 2 ^ 64
    → h.bytes_hashed < 2 ^ 64
    → after_pieces h i [] 0 ≡ h
no_pieces_after h i small small' = same_counts (append-nil h.hashed) (omega arith) (omega arith)

more_pieces :
    (h : V1Hasher) (i j : ℕ) (xs ys : List Bytes) (m n : ℕ)
    → j ≡ i + 1 * length xs
    → after_pieces (after_pieces h i xs m) j ys n ≡ after_pieces h i (xs ++ ys) (m + n)
more_pieces h i j xs ys m n e =
    same_counts
      (append_assoc h.hashed (numbered 1 i xs) (numbered 1 j ys)
        ∙ ap (λ l. h.hashed ++ l)
            (ap (λ k. numbered 1 i xs ++ numbered 1 k ys) e ∙ sym (numbered-append 1 i xs ys)))
      (omega arith) (omega arith)

module _ (sha1 : Bytes → Bytes) (piece_size : ℕ) where
  hash_v1_chunk_lem :
      (h : V1Hasher) (i : ℕ) (d : Bytes)
      → 0 < piece_size
      → 0 < length d
      → length d + piece_size ≤ 2 ^ 63
      → i < 2 ^ 32
      → h.bytes_done < 2 ^ 64
      → hash_v1_chunk sha1 piece_size h i (some d)
        ≡ ok (after_pieces h i (map sha1 (split piece_size d)) (length d))
  unfolding hash_v1_chunk
  hash_v1_chunk_lem h i d pos some_data fits index small =
      let n = (length d + piece_size - 1) / piece_size in
      let (low, high) = ceil_bounds (length d) piece_size pos in
      let n_pos = factor_pos n piece_size (omega (arith, low)) in
      let last = pred_mul n piece_size n_pos in
      let bound = le-mul (n - 1) piece_size pos in
      let some_size : (piece_size == 0) ≡ false = ground arith in
      let count : sub64 (add64 (length d) piece_size) 1 ≡ length d + piece_size - 1 =
        omega (arith, fits, pos) in
      let checked : leb 1 n ≡ true = ground arith in
      rw
        (
          some_size,
          count,
          checked,
          hash_blocks_start sha1 piece_size i d (n - 1) (h.hashed, h.bytes_done) pos
              (omega (arith, last, high)) (omega (arith, last, low))
              (omega (arith, bound, last, high, index, fits)) small,
        )
        refl

  chunks_nil :
      (ppc chunk_size : ℕ) (h : V1Hasher) (i : ℕ)
      → h.bytes_done < 2 ^ 64
      → h.bytes_hashed < 2 ^ 64
      → hash_v1_chunks sha1 piece_size h (stamped (numbered ppc i (split chunk_size [])))
        ≡ ok (after_pieces h i (map sha1 (split piece_size [])) 0)
  unfolding split_fuel hash_v1_chunks
  chunks_nil ppc chunk_size h i small small' = ap ok (sym (no_pieces_after h i small small'))

  -- The chunks of a text that start at piece `i`.
  pub chunks_from :
      (fuel ppc chunk_size : ℕ) (h : V1Hasher) (i : ℕ) (d : Bytes)
      → length d ≤ fuel
      → 0 < piece_size
      → 0 < ppc
      → chunk_size ≡ piece_size * ppc
      → chunk_size + piece_size ≤ 2 ^ 63
      → i + length (split piece_size d) < 2 ^ 32
      → h.bytes_done < 2 ^ 64
      → h.bytes_hashed < 2 ^ 64
      → hash_v1_chunks sha1 piece_size h (stamped (numbered ppc i (split chunk_size d)))
        ≡ ok (after_pieces h i (map sha1 (split piece_size d)) (length d))
  unfolding hash_v1_chunks
  chunks_from zero ppc chunk_size h i [] enough pos some_pieces whole fits index small small' =
      chunks_nil ppc chunk_size h i small small'
  chunks_from zero ppc chunk_size h i (x ∷ d) enough pos some_pieces whole fits index small small' =
      absurd (omega arith)
  chunks_from (suc fuel) ppc chunk_size h i [] enough pos some_pieces whole fits index small
        small' =
      chunks_nil ppc chunk_size h i small small'
  chunks_from (suc fuel) ppc chunk_size h i (x ∷ d) enough pos some_pieces whole fits index small
        small' =
      let all_of : Bytes = x ∷ d in
      let big : 0 < chunk_size = grind (arith, whole) in
      let same : u32 i ≡ i = omega (arith, index) in
      elim (dec_lt chunk_size (length all_of)) [
        | no few ↦
            let one = split-short chunk_size all_of (omega arith) (omega (arith, few)) in
            rw
              (
                ap (λ l. stamped (numbered ppc i l)) one,
                same,
                hash_v1_chunk_lem h i all_of pos (omega arith) (omega (arith, few, fits))
                    (omega (arith, index)) small,
              )
              refl
        | yes more ↦
            let front = take chunk_size all_of in
            let rest = drop chunk_size all_of in
            let f = length-take chunk_size all_of (omega (arith, more)) in
            let r = length-drop chunk_size all_of in
            let (parts, many) = split-append piece_size ppc front rest pos (f ∙ whole) in
            let whole_parts = ap (split piece_size) (sym (take-drop chunk_size all_of)) ∙ parts in
            let total = length-append (split piece_size front) (split piece_size rest) in
            let h' = after_pieces h i (map sha1 (split piece_size front)) (length front) in
            rw
              (
                ap (λ l. stamped (numbered ppc i l))
                    (split-step chunk_size all_of big (omega arith)),
                same,
                hash_v1_chunk_lem h i front pos (omega (arith, f, big)) (omega (arith, f, fits))
                    (omega (arith, index)) small,
              )
              (chunks_from fuel ppc chunk_size h' (i + ppc) rest (omega (arith, r, enough, big)) pos
                  some_pieces whole fits (omega (arith, index, total, many, ap length whole_parts))
                  (omega arith) (omega arith)
                ∙ ap ok (
                    more_pieces h i (i + ppc) (map sha1 (split piece_size front))
                      (map sha1 (split piece_size rest)) (length front) (length rest)
                      (omega (arith, many, length-map (split piece_size front) sha1)))
                ∙ ap ok (
                    ap (λ l. after_pieces h i l (length front + length rest))
                      (sym (map-append sha1 (split piece_size front) (split piece_size rest))
                        ∙ ap (map sha1) (sym whole_parts))
                    ∙ ap (after_pieces h i (map sha1 (split piece_size all_of)))
                        (omega (arith, f, r, more))))
      ]
