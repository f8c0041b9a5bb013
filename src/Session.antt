-- ===== src/Session.antt =====
-- src/storage_hasher.cpp and src/storage_verifier.cpp: the sizes that their constructors choose, and the
-- calls that start, cancel and await the parts of the pipeline, in their order. What a part does with its
-- calls is that of the reader and of the pools.
pub mod Sizes
pub mod States
use dottorrent.Base.{
  ℕ, zero, suc, ◌+◌, ◌-◌, ◌*◌, ◌/◌, ◌%◌, ◌^◌, min, Bool, true, false, not, ◌&&◌, ◌||◌, Option, none,
  some, List, [], ◌∷◌, ◌++◌, drop, length, ltb, ◌==◌, if◌then◌else◌, Run, ok, throws, violation,
  undefined, expects, ◌>>=◌, ◌>>◌, runtime_error,
}
use dottorrent.Utils.{log2_floor}
use dottorrent.Attributes.{v1, hybrid}
use dottorrent.Storage.{
  FileStorage, set_piece_size, has_single_bit, optimize_alignment, allocate_pieces,
  inclusive_file_size_scan_v1, inclusive_file_size_scan_v2, protocol, sub64, add64,
}

abbrev pub larger : ℕ → ℕ → ℕ
larger a b = if ltb a b then b else a

-- The exponent of `choose_piece_size`. The logarithm of a double is not rounded up to the next integer for
-- sizes below 2^33, and above the exponent is 24 in any case.
unfoldable pub piece_size_exponent : ℕ → ℕ
piece_size_exponent total = min (larger 15 (log2_floor total - 9)) 24

-- For a storage of no bytes, the logarithm is no number that fits an `int`.
unfoldable pub choose_piece_size : FileStorage → Run FileStorage
unfolding piece_size_exponent set_piece_size
choose_piece_size s =
    if s.total_file_size == 0
    then undefined
    else set_piece_size s (2 ^ piece_size_exponent s.total_file_size)

pub record Options : Type 0 where
  pub protocol_version : ℕ
  pub min_io_block_size : Option ℕ
  pub max_memory : Option ℕ
  pub threads : ℕ

-- The size of a chunk, without ISA-L.
unfoldable pub io_block_size : ℕ → Option ℕ → ℕ
io_block_size piece_size none = larger piece_size (2 ^ 20)
io_block_size piece_size (some n) = larger piece_size n

unfoldable pub queue_capacity : Options → ℕ → ℕ
queue_capacity o block_size = elim o.max_memory [
  | none ↦ larger 4 (4 * o.threads % 2 ^ 64)
  | some n ↦ larger 4 (n / block_size)
]

-- A hasher or a verifier: its storage, what its constructor chose, and its flags. `calls` lists what it
-- called on its parts.
pub data Part : Type 0 where
  reader hasher checksum_hashers verifier : Part

pub data PartCall : Type 0 where
  starts requests_cancellation requests_stop waits : Part → PartCall

pub record Session : Type 0 where
  pub protocol_used : ℕ
  pub block_size : ℕ
  pub capacity : ℕ
  pub cumulative_file_size : List ℕ
  pub started : Bool
  pub stopped : Bool
  pub cancelled : Bool
  pub calls : List PartCall

abbrev pub new_session : ℕ → ℕ → ℕ → List ℕ → Session
new_session version block capacity sizes = record {
  protocol_used = version;
  block_size = block;
  capacity = capacity;
  cumulative_file_size = sizes;
  started = false;
  stopped = false;
  cancelled = false;
  calls = [];
}

abbrev pub sized_session : FileStorage → Options → ℕ → Run Session
sized_session s o version =
    let block = io_block_size s.piece_size o.min_io_block_size in
    do
      expects (not (version == 0))
      expects (has_single_bit s.piece_size)
      ok (
          new_session version block (queue_capacity o block) (
            if version == v1 then inclusive_file_size_scan_v1 s else inclusive_file_size_scan_v2 s))

-- The constructor of storage_hasher, with the storage that it leaves. The sizes are those of the storage
-- with its padding files.
unfoldable pub make_storage_hasher : FileStorage → Options → Run (FileStorage × Session)
unfolding choose_piece_size
make_storage_hasher s o = do
  s₁ ← if s.piece_size == 0 then choose_piece_size s else ok s
  expects (not (o.protocol_version == 0))
  expects (has_single_bit s₁.piece_size)
  s₂ ← if o.protocol_version == hybrid then optimize_alignment s₁ else ok s₁
  let s₃ =
      if o.protocol_version == v1 || o.protocol_version == hybrid then allocate_pieces s₂ else s₂
  session ← sized_session s₃ o o.protocol_version
  ok (s₃, session)

-- The constructor of storage_verifier.
unfoldable pub make_storage_verifier : FileStorage → Options → Run Session
make_storage_verifier s o =
    sized_session s o (if o.protocol_version == 0 then protocol s else o.protocol_version)

unfoldable pub running : Session → Bool
running s = s.started && (not s.cancelled && not s.stopped)

unfoldable pub done : Session → Bool
done s = s.cancelled || (s.started && s.stopped)

-- Those of a hasher; a verifier has no checksum hashers, and its calls are those without them.
unfoldable pub start : Session → Run Session
unfolding done
start s =
    if done s
    then throws runtime_error
    else ok (record s {
      started = true;
      calls =
          s.calls ++ starts verifier ∷ starts hasher ∷ starts checksum_hashers ∷ starts reader ∷ [];
    })

unfoldable pub cancel : Session → Run Session
unfolding done
cancel s =
    if done s
    then throws runtime_error
    else if not s.started
    then ok (record s { cancelled = true })
    else ok (record s {
      cancelled = true;
      stopped = true;
      calls =
          s.calls
          ++ requests_cancellation reader
            ∷ requests_cancellation hasher
            ∷ requests_cancellation checksum_hashers
            ∷ requests_cancellation verifier
            ∷ waits reader
            ∷ waits hasher
            ∷ waits checksum_hashers
            ∷ waits verifier
            ∷ [];
    })

unfoldable pub wait : Session → Run Session
unfolding done
wait s =
    if not s.started
    then throws runtime_error
    else if done s
    then throws runtime_error
    else ok (record s {
      stopped = true;
      calls =
          s.calls
          ++ waits reader
            ∷ requests_stop hasher
            ∷ requests_stop checksum_hashers
            ∷ waits hasher
            ∷ waits checksum_hashers
            ∷ requests_stop verifier
            ∷ waits verifier
            ∷ [];
    })

-- std::lower_bound in the cumulative sizes from the given index on.
unfoldable pub lower_bound : ℕ → List ℕ → ℕ → ℕ
lower_bound i [] bytes = i
lower_bound i (x ∷ xs) bytes = if ltb x bytes then lower_bound (suc i) xs bytes else i

-- The entry before the given index.
abbrev pub before_index : List ℕ → ℕ → ℕ
before_index [] i = 0
before_index (x ∷ xs) zero = 0
before_index (x ∷ xs) (suc zero) = x
before_index (x ∷ xs) (suc (suc i)) = before_index xs (suc i)

-- current_file_progress: the file that the bytes done have come to, from the one of the last call on, and
-- the bytes done of it.
unfoldable pub current_file_progress : Session → ℕ → ℕ → ℕ × ℕ
unfolding lower_bound
current_file_progress s last_index bytes =
    let index = lower_bound last_index (drop last_index s.cumulative_file_size) bytes in
    if index == 0
    then (index, bytes)
    else (index, sub64 bytes (before_index s.cumulative_file_size index))
