-- ===== src/Storage/Pieces.antt =====
-- Pieces: how many there are, which of them hold a file, and their hashes.
use native.Mathlib.Nat.{div-add-mod', mod-lt, mod-eq_of_lt}
use native.Mathlib.Decide.{ℕ_discrete as dec_eq}
use dottorrent.Base.{
  subst, ℕ, zero, suc, ◌+◌, ◌-◌, ◌*◌, ◌/◌, ◌%◌, ◌^◌, ◌<◌, ◌≤◌, ◌≡◌, ◌≢◌, refl, sym, ap, ◌∙◌, true,
  false, some, List, [], ◌∷◌, Bytes, arith, Bool-cases, inl, inr, if◌then◌else◌, ltb, lt→ltb,
  ltb→lt, ◌==◌, ==_iff, ok, violation, ◌>>=◌, length, get_elem?, set, replicate, length-replicate,
  take,
}
use dottorrent.Entry.{FileEntry}
use dottorrent.Storage.{
  FileStorage, add64, sub64, piece_count, allocate_pieces, get_piece_hash, set_piece_hash,
  get_pieces_offsets, sum_sizes, at,
}

pub ceil_bounds : (n p : ℕ) → 0 < p → (n ≤ (n + p - 1) / p * p) × ((n + p - 1) / p * p < n + p)
ceil_bounds n p h =
    let parts = div-add-mod' (n + p - 1) p in
    let small = mod-lt (n + p - 1) {m = p} h in
    (omega (arith, parts, small), omega (arith, parts, small))

le-mul : (n p : ℕ) → 0 < p → n ≤ n * p
le-mul n p h = grind arith

-- The size of a file or of all files, rounded up in 64 bits.
round_up : (n p : ℕ) → 0 < p → n + p ≤ 2 ^ 64 → sub64 (add64 n p) 1 ≡ n + p - 1
round_up n p h fits = omega arith

-- With a positive piece size and a total that fits 64 bits when a piece is added, the pieces cover
-- the total size, and one piece less does not.
pub piece_count_lem :
    (s : FileStorage)
    → 0 < s.piece_size
    → s.total_file_size + s.piece_size ≤ 2 ^ 64
    → (s.total_file_size ≤ piece_count s * s.piece_size)
      × (piece_count s * s.piece_size < s.total_file_size + s.piece_size)
unfolding piece_count
piece_count_lem s p h =
    let some_size : (s.piece_size == 0) ≡ false = ground arith in
    rw some_size (
      rw (round_up s.total_file_size s.piece_size p h)
        (ceil_bounds s.total_file_size s.piece_size p))

module _ {A : Type 0} where
  get_elem?-set_self :
      (xs : List A) (i : ℕ) (v : A) → i < length xs → get_elem? (set xs i v) i ≡ some v
  get_elem?-set_self [] i v h = elim h [ ]
  get_elem?-set_self (x ∷ xs) zero v h = refl
  get_elem?-set_self (x ∷ xs) (suc i) v h = get_elem?-set_self xs i v (omega arith)

  get_elem?-set_ne :
      (xs : List A) (i j : ℕ) (v : A) → i ≢ j → get_elem? (set xs i v) j ≡ get_elem? xs j
  get_elem?-set_ne [] i j v h = refl
  get_elem?-set_ne (x ∷ xs) zero zero v h = absurd (h refl)
  get_elem?-set_ne (x ∷ xs) zero (suc j) v h = refl
  get_elem?-set_ne (x ∷ xs) (suc i) zero v h = refl
  get_elem?-set_ne (x ∷ xs) (suc i) (suc j) v h = get_elem?-set_ne xs i j v (λ e. h (ap suc e))

  get_elem?-replicate : (n i : ℕ) (v : A) → i < n → get_elem? (replicate n v) i ≡ some v
  get_elem?-replicate zero i v h = elim h [ ]
  get_elem?-replicate (suc n) zero v h = refl
  get_elem?-replicate (suc n) (suc i) v h = get_elem?-replicate n i v (omega arith)

-- A storage whose pieces were allocated for its size.
abbrev pub IsAllocated : FileStorage → Type 0
IsAllocated s = length s.pieces ≡ piece_count s

abbrev no_hash : Bytes
no_hash = replicate 20 0

piece_count-allocate_pieces : (s : FileStorage) → piece_count (allocate_pieces s) ≡ piece_count s
unfolding allocate_pieces
piece_count-allocate_pieces s = refl

pub allocate_pieces-IsAllocated : (s : FileStorage) → IsAllocated (allocate_pieces s)
unfolding allocate_pieces
allocate_pieces-IsAllocated s = length_pieces ∙ sym (piece_count-allocate_pieces s)
  where
    length_pieces : length (allocate_pieces s).pieces ≡ piece_count s
    length_pieces = length-replicate (piece_count s) _

-- Behind `allocate_pieces` the hash of each piece is there and zero, and no other index is accepted.
pub get-allocate_pieces :
    (s : FileStorage) (i : ℕ)
    → get_piece_hash (allocate_pieces s) i
      ≡ (if ltb i (piece_count s) then ok (replicate 20 0) else violation)
unfolding get_piece_hash allocate_pieces
get-allocate_pieces s i = elim (Bool-cases (ltb i (piece_count s))) [
  | inl e ↦ rw e (rw (get_elem?-replicate (piece_count s) i no_hash (ltb→lt _ _ e)) refl)
  | inr e ↦ rw e refl
]

set_piece_hash_ok :
    (s : FileStorage) (i : ℕ) (hash : Bytes)
    → IsAllocated s
    → i < piece_count s
    → set_piece_hash s i hash ≡ ok (record s { pieces = set s.pieces i hash })
unfolding set_piece_hash
set_piece_hash_ok s i hash a h =
    let here : ltb i (length s.pieces) ≡ true = ground (arith, a) in
    let same : (length s.pieces == piece_count s) ≡ true = ground (arith, a) in rw (here, same) refl

piece_count-pieces :
    (s : FileStorage) (ps : List Bytes) → piece_count (record s { pieces = ps }) ≡ piece_count s
unfolding piece_count
piece_count-pieces s ps = refl

get_piece_hash-set :
    (s : FileStorage) (i j : ℕ) (hash : Bytes)
    → IsAllocated s
    → i < piece_count s
    → get_piece_hash (record s { pieces = set s.pieces i hash }) j
      ≡ (if i == j then ok hash else get_piece_hash s j)
unfolding get_piece_hash
get_piece_hash-set s i j hash a h = elim (dec_eq i j) [
  | yes e ↦
      let same : (i == j) ≡ true = (==_iff i j).1 e in
      let here : ltb j (piece_count s) ≡ true = lt→ltb j _ (subst (λ k. k < piece_count s) e h) in
      let read : get_elem? (set s.pieces i hash) j ≡ some hash =
        subst (λ k. get_elem? (set s.pieces i hash) k ≡ some hash) e
          (get_elem?-set_self s.pieces i hash (omega (arith, a, h))) in
      rw (same, piece_count-pieces s (set s.pieces i hash), here, read) refl
  | no ne ↦
      let other : (i == j) ≡ false = ground arith in
      rw (other, piece_count-pieces s (set s.pieces i hash), get_elem?-set_ne s.pieces i j hash ne)
        refl
]

-- On a storage with as many hashes as pieces, a hash that is set at a piece is what is read there,
-- and every other index gives what it gave before.
pub get-set_piece_hash :
    (s : FileStorage) (i j : ℕ) (hash : Bytes)
    → IsAllocated s
    → i < piece_count s
    → (set_piece_hash s i hash >>= λ s'. get_piece_hash s' j)
      ≡ (if i == j then ok hash else get_piece_hash s j)
get-set_piece_hash s i j hash a h =
    rw (set_piece_hash_ok s i hash a h) (get_piece_hash-set s i j hash a h)

get_elem?-lt : {A : Type 0} (xs : List A) (i : ℕ) {v : A} → get_elem? xs i ≡ some v → i < length xs
get_elem?-lt [] i h = cc
get_elem?-lt (x ∷ xs) zero h = omega arith
get_elem?-lt (x ∷ xs) (suc i) h = omega (arith, get_elem?-lt xs i h)

offsets_run :
    (s : FileStorage) (i : ℕ) (e : FileEntry) (n : ℕ)
    → get_elem? s.files i ≡ some e
    → 0 < s.piece_size
    → sub64 (add64 e.file_size s.piece_size) 1 ≡ n
    → sum_sizes (take i s.files) / s.piece_size + n / s.piece_size < 2 ^ 64
    → get_pieces_offsets s i
      ≡ ok (
        sum_sizes (take i s.files) / s.piece_size,
        sum_sizes (take i s.files) / s.piece_size + n / s.piece_size,
      )
unfolding get_pieces_offsets
offsets_run s i e n found p rounded small =
    let here : ltb i (length s.files) ≡ true = lt→ltb i _ (get_elem?-lt s.files i found) in
    let some_size : (s.piece_size == 0) ≡ false = ground arith in
    rw (here, found, at)
      (rw (some_size, rounded)
        (ap (λ k. ok (sum_sizes (take i s.files) / s.piece_size, k)) (mod-eq_of_lt small)))

-- For a file that starts at a piece boundary, with a positive piece size and sizes that fit 64
-- bits, the two offsets are returned: the first piece starts where the file does, the pieces hold
-- all of the file, and without the last one they do not.
pub get_pieces_offsets_lem :
    (s : FileStorage) (i : ℕ) (e : FileEntry)
    → 0 < s.piece_size
    → get_elem? s.files i ≡ some e
    → sum_sizes (take i s.files) % s.piece_size ≡ 0
    → sum_sizes (take i s.files) + e.file_size + s.piece_size ≤ 2 ^ 64
    → (first last : ℕ) × (get_pieces_offsets s i ≡ ok (first, last))
      × (first * s.piece_size ≡ sum_sizes (take i s.files))
      × (sum_sizes (take i s.files) + e.file_size ≤ last * s.piece_size)
      × (last * s.piece_size < sum_sizes (take i s.files) + e.file_size + s.piece_size)
unfolding get_pieces_offsets
get_pieces_offsets_lem s i e p found aligned fits =
    let before = sum_sizes (take i s.files) in
    let parts = div-add-mod' before s.piece_size in
    let (covers, least) = ceil_bounds e.file_size s.piece_size p in
    (
      before / s.piece_size,
      before / s.piece_size + (e.file_size + s.piece_size - 1) / s.piece_size,
      offsets_run s i e (e.file_size + s.piece_size - 1) found p
          (round_up e.file_size s.piece_size p (omega arith))
          (omega (
            arith,
            parts,
            least,
            le-mul (before / s.piece_size) s.piece_size p,
            le-mul ((e.file_size + s.piece_size - 1) / s.piece_size) s.piece_size p,
          )),
      omega (arith, parts),
      omega (arith, parts, covers),
      omega (arith, parts, least),
    )
