-- ===== src/Parsing/Pieces.antt =====
-- The hashes of the pieces are read back from the string that holds them one behind the other.
use dottorrent.Base.{
  ℕ, ◌+◌, ◌*◌, ◌/◌, ◌≡◌, refl, true, List, [], ◌∷◌, ◌++◌, Bytes, length, take, drop, replicate,
  length-replicate, length-append, append_assoc, ◌==◌, ok, ◌>>=◌, arith, sym, ap, ◌∙◌, All,
}
use dottorrent.Base.Split.{take-append, drop-append, numbered}
use dottorrent.Storage.{FileStorage, piece_count, allocate_pieces, set_piece_hash}
use dottorrent.Verifier.{set_finished_piece, set_finished_pieces}
use dottorrent.Verifier.Pieces.{set_finished_pieces_lem}
use dottorrent.Serialization.{join_all, make_v1_pieces_string}
use dottorrent.Parsing.Files.{digest_of, set_pieces}

-- A digest of SHA-1.
abbrev pub IsSha1 : Bytes → Type 0
IsSha1 h = length h ≡ 20

pub length-join_all : (hs : List Bytes) → All IsSha1 hs → length (join_all hs) ≡ 20 * length hs
length-join_all [] digests = refl
length-join_all (h ∷ hs) (digest, digests) =
    let l = length-append h (join_all hs) in
    let rest = length-join_all hs digests in omega (arith, l, rest, digest)

-- From the piece `idx` on.
set_pieces-join_all :
    (s : FileStorage) (front : Bytes) (hs : List Bytes) (idx : ℕ)
    → length front ≡ 20 * idx
    → All IsSha1 hs
    → set_pieces (length hs) idx (front ++ join_all hs) s
      ≡ set_finished_pieces s (numbered 1 idx hs)
unfolding set_pieces set_finished_pieces set_finished_piece
set_pieces-join_all s front [] idx at_ digests = refl
set_pieces-join_all s front (h ∷ hs) idx at_ (digest, digests) =
    let here : take 20 (drop (20 * idx) (front ++ (h ++ join_all hs))) ≡ h =
      ap (take 20) (drop-append (20 * idx) front (h ++ join_all hs) at_)
      ∙ take-append 20 h (join_all hs) digest in
    let l = length-append front h in
    let size : (length h == 20) ≡ true = ground arith in
    let next = λ (s' : FileStorage).
      sym (ap (λ t. set_pieces (length hs) (idx + 1) t s') (append_assoc front h (join_all hs)))
      ∙ set_pieces-join_all s' (front ++ h) hs (idx + 1) (omega (arith, l, at_, digest)) digests in
    let first : digest_of 20 (take 20 (drop (20 * idx) (front ++ (h ++ join_all hs)))) ≡ ok h =
      ap (digest_of 20) here ∙ rw size refl in
    ap
      (λ r. r >>= λ hash. set_piece_hash s idx hash >>= λ s'.
        set_pieces (length hs) (idx + 1) (front ++ (h ++ join_all hs)) s')
      first
    ∙ (λ i. set_piece_hash s idx h >>= λ s'. next s' i)

-- A storage that has a hash for each piece, all of 20 bytes: the string of them, read into a storage of the same
-- number of pieces, gives the hashes back.
pub set_pieces-make_v1_pieces_string :
    (s t : FileStorage)
    → All IsSha1 s.pieces
    → length s.pieces ≡ piece_count t
    → set_pieces
        (length (make_v1_pieces_string s) / 20)
        0
        (make_v1_pieces_string s)
        (allocate_pieces t)
      ≡ ok (record t { pieces = s.pieces })
unfolding make_v1_pieces_string allocate_pieces piece_count
set_pieces-make_v1_pieces_string s t digests total =
    let l = length-join_all s.pieces digests in
    let n : length (join_all s.pieces) / 20 ≡ length s.pieces = omega (arith, l) in
    let fresh = length-replicate (piece_count t) (replicate 20 0) in
    ap (λ k. set_pieces k 0 (join_all s.pieces) (allocate_pieces t)) n
    ∙ (set_pieces-join_all (allocate_pieces t) [] s.pieces 0 refl digests
        ∙ set_finished_pieces_lem (allocate_pieces t) s.pieces fresh total)
