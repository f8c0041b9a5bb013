-- ===== src/Session/Sizes.antt =====
-- The chunk size and the capacity that a session chooses, and the checks of the reader that gets them.
use native.Mathlib.Nat.{mul-mod_right}
use dottorrent.Base.{
  ℕ, zero, suc, ◌+◌, ◌-◌, ◌*◌, ◌/◌, ◌%◌, ◌^◌, ◌≤◌, ◌<◌, ◌≡◌, ◌≢◌, refl, Bool, true, false, Option,
  none, some, leb, ltb, ltb→lt, lt→ltb, ◌==◌, ==_iff, if◌then◌else◌, ok, violation, expects, ◌>>◌,
  arith, sym, ap, ◌∙◌, Bool-cases, inl, inr,
}
use dottorrent.Base.Pow.{pow_step, pow_pos, pow_mono}
use dottorrent.Utils.{log2_floor}
use dottorrent.Utils.Log.{log2_floor_unique}
use dottorrent.Storage.{FileStorage, has_single_bit}
use dottorrent.Reader.{check_reader}
use dottorrent.Session.{Options, larger, io_block_size, queue_capacity}

pow_split : (m d : ℕ) → 2 ^ (m + d) ≡ 2 ^ m * 2 ^ d
pow_split m zero = let e : m + 0 ≡ m = omega arith in ap (λ k. 2 ^ k) e ∙ omega arith
pow_split m (suc d) =
    let e : m + suc d ≡ suc (m + d) = omega arith in
    ap (λ k. 2 ^ k) e
    ∙ (pow_step (m + d) ∙ (ap (λ k. 2 * k) (pow_split m d) ∙ grind (arith, pow_step d)))

-- A power of two is a multiple of each smaller one.
pow_multiple : (m n : ℕ) → m ≤ n → 2 ^ n % 2 ^ m ≡ 0
pow_multiple m n h =
    let e : n ≡ m + (n - m) = omega arith in
    ap (λ k. 2 ^ k % 2 ^ m) e
    ∙ (ap (λ p. p % 2 ^ m) (pow_split m (n - m)) ∙ mul-mod_right (2 ^ m) (2 ^ (n - m)))

larger_multiple : (k j : ℕ) → larger (2 ^ k) (2 ^ j) % 2 ^ k ≡ 0
larger_multiple k j = elim (Bool-cases (ltb (2 ^ k) (2 ^ j))) [
  | inl e ↦ rw e (pow_multiple k j (smaller_exponent k j (ltb→lt _ _ e)))
  | inr e ↦ rw e (pow_multiple k k (omega arith))
]
  where
    smaller_exponent : (k j : ℕ) → 2 ^ k < 2 ^ j → k ≤ j
    smaller_exponent k j h = elim (Bool-cases (leb k j)) [
      | inl e ↦ ground arith
      | inr e ↦ absurd (omega (arith, h, pow_mono j k (ground arith)))
    ]

single_bit : (k : ℕ) → k < 64 → has_single_bit (2 ^ k) ≡ true
unfolding has_single_bit
single_bit k b =
    let below = pow_mono k 63 (omega arith) in
    let found : log2_floor (2 ^ k) ≡ k =
      log2_floor_unique (2 ^ k) k (omega (arith, below)) (omega arith)
        (omega (arith, pow_step k, pow_pos k)) in
    let some_size : (2 ^ k == 0) ≡ false = ground (arith, pow_pos k) in
    rw (some_size, found) ((==_iff (2 ^ k) (2 ^ k)).1 refl)

capacity_large : (o : Options) (block : ℕ) → ltb 1 (queue_capacity o block) ≡ true
unfolding queue_capacity
capacity_large o block = capacity_of o.max_memory
  where
    at_least_four : (n : ℕ) → ltb 1 (larger 4 n) ≡ true
    at_least_four n = elim (Bool-cases (ltb 4 n)) [
      | inl e ↦ rw e (lt→ltb 1 n (omega (arith, ltb→lt 4 n e)))
      | inr e ↦ rw e refl
    ]

    capacity_of :
        (m : Option ℕ)
        → ltb 1
            (elim m [ none ↦ larger 4 (4 * o.threads % 2 ^ 64) | some n ↦ larger 4 (n / block) ])
          ≡ true
    capacity_of none = at_least_four (4 * o.threads % 2 ^ 64)
    capacity_of (some n) = at_least_four (n / block)

-- What the checks of the reader leave to the chunk size.
reader_check :
    (s : FileStorage) (k chunk capacity : ℕ)
    → s.piece_size ≡ 2 ^ k
    → 14 ≤ k
    → k < 64
    → ltb 1 capacity ≡ true
    → check_reader s chunk capacity ≡ expects (chunk % s.piece_size == 0)
unfolding check_reader
reader_check s k chunk capacity size low high cap =
    let large : leb (16 * 1024) s.piece_size ≡ true = ground (arith, size, pow_mono 14 k low) in
    let bit : has_single_bit s.piece_size ≡ true = ap has_single_bit size ∙ single_bit k high in
    rw (large, bit, cap) (last_check (chunk % s.piece_size == 0))
  where
    last_check : (b : Bool) → (do expects b; expects true) ≡ expects b
    last_check true = refl
    last_check false = refl

abbrev pub IsPowerIfGiven : Option ℕ → Type 0
IsPowerIfGiven none = Unit
IsPowerIfGiven (some n) = (j : ℕ) × (n ≡ 2 ^ j)

chosen_power :
    (piece_size : ℕ) (m : Option ℕ)
    → IsPowerIfGiven m
    → (j : ℕ) × (io_block_size piece_size m ≡ larger piece_size (2 ^ j))
unfolding io_block_size
chosen_power piece_size none given = (20, refl)
chosen_power piece_size (some n) (j, e) = (j, ap (larger piece_size) e)

-- For a piece size that is a power of two from 16 KiB to below 2^64, and a least block size that is not given
-- or a power of two, the chunk size and the capacity that a session chooses pass the checks of the
-- constructor of the reader.
pub reader_accepts :
    (s : FileStorage) (o : Options) (k : ℕ)
    → s.piece_size ≡ 2 ^ k
    → 14 ≤ k
    → k < 64
    → IsPowerIfGiven o.min_io_block_size
    → check_reader s
        (io_block_size s.piece_size o.min_io_block_size)
        (queue_capacity o (io_block_size s.piece_size o.min_io_block_size))
      ≡ ok tt
reader_accepts s o k size low high given =
    let (j, power) = chosen_power s.piece_size o.min_io_block_size given in
    let block = io_block_size s.piece_size o.min_io_block_size in
    let rest : block % s.piece_size ≡ 0 =
      ap (λ n. n % s.piece_size) power
      ∙ (ap (λ p. larger p (2 ^ j) % p) size ∙ larger_multiple k j) in
    reader_check s k block (queue_capacity o block) size low high (capacity_large o block)
    ∙ ap expects ((==_iff (block % s.piece_size) 0).1 rest)

-- With such a piece size and a least block size above it that is no multiple of it, the constructor of
-- the reader fails a check.
pub reader_refuses :
    (s : FileStorage) (o : Options) (k n : ℕ)
    → s.piece_size ≡ 2 ^ k
    → 14 ≤ k
    → k < 64
    → o.min_io_block_size ≡ some n
    → s.piece_size < n
    → n % s.piece_size ≢ 0
    → check_reader s
        (io_block_size s.piece_size o.min_io_block_size)
        (queue_capacity o (io_block_size s.piece_size o.min_io_block_size))
      ≡ violation
unfolding io_block_size
reader_refuses s o k n size low high given above uneven =
    let block = io_block_size s.piece_size o.min_io_block_size in
    let chosen : block ≡ n =
      ap (io_block_size s.piece_size) given
      ∙ ap (λ b. if b then n else s.piece_size) (lt→ltb s.piece_size n above) in
    let fails : (block % s.piece_size == 0) ≡ false =
      test_fails (block % s.piece_size)
        (λ z. uneven (sym (ap (λ b. b % s.piece_size) chosen) ∙ z)) in
    reader_check s k block (queue_capacity o block) size low high (capacity_large o block)
    ∙ ap expects fails
  where
    test_fails : (n : ℕ) → n ≢ 0 → (n == 0) ≡ false
    test_fails zero h = absurd (h refl)
    test_fails (suc n) h = ground arith
