-- ===== src/Storage/Modes.antt =====
-- The piece size, the protocol versions and the file mode.
use dottorrent.Base.{
  ℕ, ◌+◌, ◌*◌, ◌^◌, ◌<◌, ◌≤◌, ◌≡◌, refl, true, false, not, ◌&&◌, ◌||◌, List, [], ◌∷◌, arith, All,
  if◌then◌else◌, leb, ◌==◌, ==_iff, ok,
}
use dottorrent.Utils.{log2_floor}
use dottorrent.Utils.Log.{log2_floor_unique}
use dottorrent.Base.Pow.{pow_step, pow_pos, pow_mono}
use dottorrent.Attributes.{v1, v2}
use dottorrent.Entry.{FileEntry}
use dottorrent.Storage.{FileStorage, set_piece_size, protocol, all_have_v2_data, is_empty}

-- Every power of two from 16 KiB on, in 64 bits, is accepted and becomes the piece size.
pub set_piece_size_accepts :
    (s : FileStorage) (k : ℕ)
    → 14 ≤ k
    → k < 64
    → set_piece_size s (2 ^ k) ≡ ok (record s { piece_size = 2 ^ k })
unfolding set_piece_size
set_piece_size_accepts s k h b =
    let large = pow_mono 14 k h in
    let below = pow_mono k 63 (omega arith) in
    let found : log2_floor (2 ^ k) ≡ k =
      log2_floor_unique (2 ^ k) k (omega (arith, below)) (omega arith)
        (omega (arith, pow_step k, pow_pos k)) in
    let min_size : leb (16 * 1024) (2 ^ k) ≡ true = ground (arith, large) in
    let some_size : (2 ^ k == 0) ≡ false = ground (arith, pow_pos k) in
    rw (min_size, some_size, found) (rw ((==_iff (2 ^ k) (2 ^ k)).1 refl) refl)

-- A size that `set_piece_size` accepts is a power of two, not below 16 KiB, and only the piece size
-- changes.
pub set_piece_size_sound :
    (s s' : FileStorage) (size : ℕ)
    → set_piece_size s size ≡ ok s'
    → (16384 ≤ size) × (size ≡ 2 ^ log2_floor size) × (s' ≡ record s { piece_size = size })
unfolding set_piece_size
set_piece_size_sound s s' size h = ground arith

-- The versions that a storage supports: v1 if there are piece hashes, v2 if no file misses its v2 data.
-- Without either, it is v1 for a storage of no bytes.
pub protocol_bits :
    (s : FileStorage)
    → protocol s
      ≡ (if not (is_empty s.pieces) || (not (all_have_v2_data s.files) && s.total_file_size == 0)
          then v1
          else 0)
        + (if all_have_v2_data s.files then v2 else 0)
unfolding protocol
protocol_bits s = ground arith

sum_sizes-eq-zero :
    (es : List FileEntry) → All (λ e. e.file_size ≡ 0) es → all_have_v2_data es ≡ true
unfolding all_have_v2_data
sum_sizes-eq-zero [] h = refl
sum_sizes-eq-zero (e ∷ es) (he, hs) = ground (arith, sum_sizes-eq-zero es hs)

-- A storage without piece hashes in which every file is empty supports v2 alone.
pub protocol_empty_files :
    (s : FileStorage) → s.pieces ≡ [] → All (λ e. e.file_size ≡ 0) s.files → protocol s ≡ v2
unfolding protocol
protocol_empty_files s none h = rw none (rw (sum_sizes-eq-zero s.files h) refl)
