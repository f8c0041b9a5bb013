-- ===== src/Verifier/Whole.antt =====
-- The v1 pipeline from the files on the disk to the hashes in the storage, and the verification of the same
-- or other files against them.
use native.Mathlib.Decide.{dec_lt}
use dottorrent.Base.{
  ℕ, zero, suc, ◌+◌, ◌*◌, ◌^◌, ◌≤◌, ◌<◌, ◌≡◌, refl, List, [], ◌∷◌, map, Bytes, length, length-map,
  replicate, drop, Run, ok, ◌>>=◌, arith, sym, ap, ◌∙◌,
}
use dottorrent.Base.Split.{split, split-step, split-nil, length-drop}
use dottorrent.Storage.Pieces.{piece_count_lem}
use dottorrent.Storage.{FileStorage, piece_count}
use dottorrent.Reader.{run_v1, OnDisk, file}
use dottorrent.Reader.Blocks.{contents}
use dottorrent.Reader.Files.{ArePresent, join, run_v1_lem}
use dottorrent.Reader.Times.{
  store_times, with_times, store_times_lem, with_times-ArePresent, length-with_times,
}
use dottorrent.Hasher.{V1Hasher, hash_v1_chunks}
use dottorrent.Hasher.Chunks.{chunks_from, after_pieces}
use dottorrent.Verifier.{set_finished_pieces, verify_finished_pieces, new_piece_map}
use dottorrent.Verifier.Pieces.{
  set_finished_pieces_lem, verify_finished_pieces_lem, matches, matches_self,
}

abbrev pub new_v1_hasher : V1Hasher
new_v1_hasher = record { hashed = []; bytes_done = 0; bytes_hashed = 0 }

no_parts : (n : ℕ) → length (split {A = ℕ} n []) * n ≡ 0
no_parts n = ap (λ l. length l * n) (split-nil n) ∙ zero_times n
  where
    zero_times : (n : ℕ) → 0 * n ≡ 0
    zero_times n = omega arith

-- As many parts as round the size up.
split_bounds :
    (fuel n : ℕ) (d : Bytes)
    → length d ≤ fuel
    → 0 < n
    → (length d ≤ length (split n d) * n)
      × (length (split n d) * n < length d + n)
      × (length d ≡ 0 → length (split n d) * n ≡ 0)
split_bounds fuel n [] enough pos =
    let e = no_parts n in (omega (arith, e), omega (arith, e, pos), λ z. e)
split_bounds zero n (x ∷ d) enough pos = absurd (omega arith)
split_bounds (suc fuel) n (x ∷ d) enough pos =
    let rest = drop n (x ∷ d) in
    let l = length-drop n (x ∷ d) in
    let (low, high, none_left) = split_bounds fuel n rest (omega (arith, l, enough, pos)) pos in
    let step : length (split n (x ∷ d)) * n ≡ length (split n rest) * n + n =
      ap (λ ps. length ps * n) (split-step n (x ∷ d) pos (omega arith)) ∙ omega arith in
    (
      omega (arith, step, l, low),
      elim (dec_lt n (length (x ∷ d))) [
        | yes more ↦ omega (arith, step, l, high, more)
        | no few ↦ omega (arith, step, none_left (omega (arith, l, few)))
      ],
      λ z. absurd (omega (arith, z)),
    )

-- Two numbers of pieces that round up the same size.
same_ceiling : (a b n p : ℕ) → n ≤ a * p → a * p < n + p → n ≤ b * p → b * p < n + p → a ≡ b
same_ceiling a b n p la ha lb hb = elim (dec_lt a b) [
  | yes lt ↦ absurd (omega (arith, ha, lb, hb, la, apart a b p lt))
  | no ge ↦ elim (dec_lt b a) [
    | yes gt ↦ absurd (omega (arith, ha, lb, hb, la, apart b a p gt))
    | no le ↦ omega (arith, ge, le)
  ]
]
  where
    apart : (a b p : ℕ) → a < b → a * p + p ≤ b * p
    apart a b p lt = grind (arith, lt)

counted :
    (s : FileStorage) (bs : List Bytes)
    → s.total_file_size ≡ length (join bs)
    → length (join bs) + s.piece_size ≤ 2 ^ 64
    → 0 < s.piece_size
    → length (split s.piece_size (join bs)) ≡ piece_count s
counted s bs sized fits pos =
    let (low, high, none_left) =
      split_bounds (length (join bs)) s.piece_size (join bs) (omega arith) pos in
    let (low', high') = piece_count_lem s pos (omega (arith, sized, fits)) in
    same_ceiling (length (split s.piece_size (join bs))) (piece_count s) (length (join bs))
      s.piece_size low high (omega (arith, low', sized)) (omega (arith, high', sized))

-- Regular files of a storage that are on the disk, read in chunks of whole pieces.
pub record CanRead (s : FileStorage) (chunk_size pieces_per_chunk : ℕ) (bs : List Bytes)
    : Type 0 where
  pub present : ArePresent s.files bs
  pub sized : s.total_file_size ≡ length (join bs)
  pub few_files : length s.files < 2 ^ 64
  pub fits : length (join bs) + s.piece_size ≤ 2 ^ 64
  pub positive : 0 < s.piece_size
  pub some_pieces : 0 < pieces_per_chunk
  pub whole : chunk_size ≡ s.piece_size * pieces_per_chunk
  pub chunk_fits : chunk_size + s.piece_size ≤ 2 ^ 63
  pub few_pieces : piece_count s < 2 ^ 32

module _ (sha1 : Bytes → Bytes) where
  -- The reader and one hasher thread, on what is on the disk: the hashed pieces in their order.
  unfoldable pub hash_disk : FileStorage → ℕ → List OnDisk → Run V1Hasher
  hash_disk s chunk_size disk = do
    r ← run_v1 s chunk_size disk
    hash_v1_chunks sha1 s.piece_size new_v1_hasher (contents r.pushed)

  -- `storage_hasher` for v1 with one hasher thread, behind the checks of its constructors: the reader stores
  -- the last write times and the writer the hashes, in fields that the other does not use.
  unfoldable pub hash_storage : (ℕ → ℕ) → FileStorage → ℕ → List OnDisk → Run FileStorage
  unfolding store_times
  hash_storage write_time s chunk_size disk = do
    h ← hash_disk s chunk_size disk
    s' ← store_times write_time s 0 disk
    set_finished_pieces s' h.hashed

  -- `storage_verifier` for v1 with one hasher thread, behind the checks of its constructors, as its result; the
  -- reader stores the last write times in the storage here too.
  unfoldable pub verify_storage : FileStorage → ℕ → List OnDisk → Run (List ℕ)
  verify_storage s chunk_size disk = do
    h ← hash_disk s chunk_size disk
    verify_finished_pieces s (new_piece_map s) h.hashed

  -- The pieces that the hasher of the files finds: the digests of the consecutive pieces of all
  -- files behind each other.
  abbrev pub digests_of : FileStorage → List Bytes → List Bytes
  digests_of s bs = map sha1 (split s.piece_size (join bs))

  pub hash_disk_lem :
      (s : FileStorage) (chunk_size pieces_per_chunk : ℕ) (bs : List Bytes)
      → CanRead s chunk_size pieces_per_chunk bs
      → hash_disk s chunk_size (map file bs)
        ≡ ok (after_pieces new_v1_hasher 0 (digests_of s bs) (length (join bs)))
  unfolding hash_disk
  hash_disk_lem s chunk_size ppc bs c =
      let (r, done, out, bytes) =
        run_v1_lem s chunk_size ppc bs (c.present) (c.sized) (c.few_files) (c.fits) (c.positive)
          (c.some_pieces) (c.whole) in
      rw (done, out)
        (chunks_from sha1 s.piece_size (length (join bs)) ppc chunk_size new_v1_hasher 0 (join bs)
          (omega arith) (c.positive) (c.some_pieces) (c.whole) (c.chunk_fits)
          (omega (arith, counted s bs (c.sized) (c.fits) (c.positive), c.few_pieces)) (omega arith)
          (omega arith))

  length-digests_of :
      (s : FileStorage) (chunk_size ppc : ℕ) (bs : List Bytes)
      → CanRead s chunk_size ppc bs
      → length (digests_of s bs) ≡ piece_count s
  length-digests_of s chunk_size ppc bs c =
      length-map (split s.piece_size (join bs)) sha1 ∙ counted s bs (c.sized) (c.fits) (c.positive)

  -- The storage with the write times of all files.
  abbrev pub timed : (ℕ → ℕ) → FileStorage → FileStorage
  timed write_time s = record s { files = with_times write_time 0 s.files }

  timed_count :
      (write_time : ℕ → ℕ) (s : FileStorage) → piece_count (timed write_time s) ≡ piece_count s
  unfolding piece_count
  timed_count write_time s = refl

  -- For a storage of regular files that are on the disk with the sizes of their entries, read in chunks of
  -- whole pieces, with sizes that fit 64 bits, fewer than 2^32 pieces and a hash for each: the v1 pipeline
  -- of the reader, one hasher and the piece writer returns, the stored hashes are the digests of
  -- the consecutive pieces of all files behind each other, each entry has the last write time of its file,
  -- and nothing else of the storage changes.
  pub hash_storage_lem :
      (write_time : ℕ → ℕ) (s : FileStorage) (chunk_size pieces_per_chunk : ℕ) (bs : List Bytes)
      → CanRead s chunk_size pieces_per_chunk bs
      → length s.pieces ≡ piece_count s
      → hash_storage write_time s chunk_size (map file bs)
        ≡ ok (record s { files = with_times write_time 0 s.files; pieces = digests_of s bs })
  unfolding hash_storage
  hash_storage_lem write_time s chunk_size ppc bs c have =
      rw (hash_disk_lem s chunk_size ppc bs c, store_times_lem write_time s bs (c.present))
        (set_finished_pieces_lem (timed write_time s) (digests_of s bs)
          (have ∙ sym (timed_count write_time s))
          (length-digests_of s chunk_size ppc bs c ∙ sym (timed_count write_time s)))

  -- For such a storage the v1 pipeline of the reader, one hasher and the piece verifier returns, and its
  -- result has a 1 for exactly the pieces whose stored hash is the digest of the piece of the files behind
  -- each other.
  pub verify_storage_lem :
      (s : FileStorage) (chunk_size pieces_per_chunk : ℕ) (bs : List Bytes)
      → CanRead s chunk_size pieces_per_chunk bs
      → length s.pieces ≡ piece_count s
      → verify_storage s chunk_size (map file bs) ≡ ok (matches s.pieces (digests_of s bs))
  unfolding verify_storage
  verify_storage_lem s chunk_size ppc bs c have = rw (hash_disk_lem s chunk_size ppc bs c) (
      verify_finished_pieces_lem s (digests_of s bs) have (length-digests_of s chunk_size ppc bs c))

  -- The storage behind the hashing.
  abbrev hashed_storage : (ℕ → ℕ) → FileStorage → List Bytes → FileStorage
  hashed_storage write_time s hashes = record (timed write_time s) { pieces = hashes }

  same_count :
      (write_time : ℕ → ℕ) (s : FileStorage) (hashes : List Bytes)
      → piece_count (hashed_storage write_time s hashes) ≡ piece_count s
  unfolding piece_count
  same_count write_time s hashes = refl

  still_readable :
      (write_time : ℕ → ℕ) (s : FileStorage) (chunk_size ppc : ℕ) (bs hashes : List Bytes)
      → CanRead s chunk_size ppc bs
      → CanRead (hashed_storage write_time s hashes) chunk_size ppc bs
  still_readable write_time s chunk_size ppc bs hashes c = record {
    present = with_times-ArePresent write_time 0 s.files bs (c.present);
    sized = c.sized;
    few_files = omega (arith, c.few_files, length-with_times write_time 0 s.files);
    fits = c.fits;
    positive = c.positive;
    some_pieces = c.some_pieces;
    whole = c.whole;
    chunk_fits = c.chunk_fits;
    few_pieces = omega (arith, c.few_pieces, same_count write_time s hashes);
  }

  -- What the v1 pipeline hashed it verifies: for such a storage, when the verifier reads the same files,
  -- with chunks of any whole number of pieces, its result has a 1 for each piece.
  pub verify-hash_storage :
      (write_time : ℕ → ℕ) (s : FileStorage) (chunk_size ppc chunk_size' ppc' : ℕ) (bs : List Bytes)
      → CanRead s chunk_size ppc bs
      → CanRead s chunk_size' ppc' bs
      → length s.pieces ≡ piece_count s
      → (do
        s' ← hash_storage write_time s chunk_size (map file bs)
        verify_storage s' chunk_size' (map file bs))
        ≡ ok (replicate (piece_count s) 1)
  verify-hash_storage write_time s chunk_size ppc chunk_size' ppc' bs c c' have =
      let ds = digests_of s bs in
      let n = length-digests_of s chunk_size ppc bs c in
      rw (hash_storage_lem write_time s chunk_size ppc bs c have) (
        verify_storage_lem (hashed_storage write_time s ds) chunk_size' ppc' bs
          (still_readable write_time s chunk_size' ppc' bs ds c')
          (n ∙ sym (same_count write_time s ds))
        ∙ (ap ok (matches_self ds) ∙ ap (λ k. ok (replicate k 1)) n))
