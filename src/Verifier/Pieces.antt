-- ===== src/Verifier/Pieces.antt =====
-- All pieces of a storage, written and verified in the order of their indices.
use dottorrent.Base.{
  ℕ, zero, suc, ◌+◌, ◌≤◌, ◌<◌, ◌≡◌, refl, true, Option, none, some, List, [], ◌∷◌, ◌++◌,
  append_assoc, Bytes, bytes_eq, bytes_eq_refl, length, length-append, get_elem?, set, replicate,
  length-replicate, ltb, lt→ltb, ◌==◌, if◌then◌else◌, Run, ok, undefined, arith, sym, ap, ◌∙◌,
}
use dottorrent.Base.Split.{numbered}
use dottorrent.Storage.{FileStorage, piece_count, get_piece_hash, set_piece_hash}
use dottorrent.Verifier.{
  set_finished_piece, set_finished_pieces, verify_finished_piece, verify_finished_pieces,
  new_piece_map,
}

pub set-append :
    {A : Type 0} (xs : List A) (y v : A) (ys : List A) (i : ℕ)
    → i ≡ length xs
    → set (xs ++ y ∷ ys) i v ≡ xs ++ v ∷ ys
set-append [] y v ys zero e = refl
set-append [] y v ys (suc i) e = absurd (omega arith)
set-append (x ∷ xs) y v ys zero e = absurd (omega arith)
set-append (x ∷ xs) y v ys (suc i) e = ap (◌∷◌ x) (set-append xs y v ys i (omega arith))

pub get_elem?-append :
    {A : Type 0} (xs : List A) (y : A) (ys : List A) (i : ℕ)
    → i ≡ length xs
    → get_elem? (xs ++ y ∷ ys) i ≡ some y
get_elem?-append [] y ys zero e = refl
get_elem?-append [] y ys (suc i) e = absurd (omega arith)
get_elem?-append (x ∷ xs) y ys zero e = absurd (omega arith)
get_elem?-append (x ∷ xs) y ys (suc i) e = get_elem?-append xs y ys i (omega arith)

abbrev with_pieces : FileStorage → List Bytes → FileStorage
with_pieces s hashes = record s { pieces = hashes }

-- The write of one hash.
set_piece_hash_ok :
    (s : FileStorage) (i : ℕ) (h : Bytes)
    → i < length s.pieces
    → length s.pieces ≡ piece_count s
    → set_piece_hash s i h ≡ ok (with_pieces s (set s.pieces i h))
unfolding set_piece_hash
set_piece_hash_ok s i h inside total =
    let first : ltb i (length s.pieces) ≡ true = lt→ltb _ _ inside in
    let second : (length s.pieces == piece_count s) ≡ true = ground arith in rw (first, second) refl

same_count :
    (s : FileStorage) (hashes : List Bytes) → piece_count (with_pieces s hashes) ≡ piece_count s
unfolding piece_count
same_count s hashes = refl

-- The hashes from piece `length front` on.
write_from :
    (s : FileStorage) (front old hashes : List Bytes) (i : ℕ)
    → i ≡ length front
    → length old ≡ length hashes
    → length front + length old ≡ piece_count s
    → set_finished_pieces (with_pieces s (front ++ old)) (numbered 1 i hashes)
      ≡ ok (with_pieces s (front ++ hashes))
unfolding set_finished_pieces set_finished_piece
write_from s front [] [] i at_ same total = refl
write_from s front [] (h ∷ hs) i at_ same total = absurd (omega arith)
write_from s front (o ∷ os) [] i at_ same total = absurd (omega arith)
write_from s front (o ∷ os) (h ∷ hs) i at_ same total =
    let l = length-append front (o ∷ os) in
    let l' = length-append front (h ∷ []) in
    rw
      (
        set_piece_hash_ok (with_pieces s (front ++ o ∷ os)) i h (omega (arith, l, at_))
            (l ∙ (total ∙ sym (same_count s (front ++ o ∷ os)))),
        set-append front o h os i at_,
        sym (append_assoc front (h ∷ []) os),
      )
      (write_from s (front ++ h ∷ []) os hs (i + 1) (omega (arith, at_, l')) (omega (arith, same))
          (omega (arith, l', total))
        ∙ ap (λ ps. ok (with_pieces s ps)) (append_assoc front (h ∷ []) hs))

-- Where a storage has a hash for each of its pieces, the writer puts the hashes of all pieces, in the order of
-- their indices, in place of them, whatever was there, and changes nothing else.
pub set_finished_pieces_lem :
    (s : FileStorage) (hashes : List Bytes)
    → length s.pieces ≡ piece_count s
    → length hashes ≡ piece_count s
    → set_finished_pieces s (numbered 1 0 hashes) ≡ ok (record s { pieces = hashes })
set_finished_pieces_lem s hashes have total =
    write_from s [] s.pieces hashes 0 refl (have ∙ sym total) (omega (arith, have))

-- One for each piece whose hash is the stored one.
abbrev pub matches : List Bytes → List Bytes → List ℕ
matches [] hashes = []
matches (r ∷ rs) [] = []
matches (r ∷ rs) (h ∷ hs) = (if bytes_eq r h then 1 else 0) ∷ matches rs hs

get_ok :
    (s : FileStorage) (i : ℕ) (real : Bytes)
    → i < piece_count s
    → get_elem? s.pieces i ≡ some real
    → get_piece_hash s i ≡ ok real
unfolding get_piece_hash
get_ok s i real small found =
    let stored : Option Bytes → Run Bytes =
      λ o. elim o [ none ↦ undefined | some hash ↦ ok hash ] in
    rw (lt→ltb _ _ small) (ap stored found)

verify_ok :
    (s : FileStorage) (piece_map : List ℕ) (i : ℕ) (real h : Bytes)
    → i < piece_count s
    → i < length piece_map
    → get_elem? s.pieces i ≡ some real
    → verify_finished_piece s piece_map (i, h)
      ≡ ok (set piece_map i (if bytes_eq real h then 1 else 0))
unfolding verify_finished_piece
verify_ok s piece_map i real h small inside found =
    rw (lt→ltb _ _ small, get_ok s i real small found, lt→ltb _ _ inside) refl

verify_from :
    (s : FileStorage) (front_real real hashes : List Bytes) (front old : List ℕ) (i : ℕ)
    → s.pieces ≡ front_real ++ real
    → i ≡ length front_real
    → i ≡ length front
    → length real ≡ length hashes
    → length old ≡ length hashes
    → i + length hashes ≤ piece_count s
    → verify_finished_pieces s (front ++ old) (numbered 1 i hashes)
      ≡ ok (front ++ matches real hashes)
unfolding verify_finished_pieces
verify_from s fr [] [] front [] i split_ at_ at' same same' total = refl
verify_from s fr [] [] front (o ∷ os) i split_ at_ at' same same' total = absurd (omega arith)
verify_from s fr [] (h ∷ hs) front old i split_ at_ at' same same' total = absurd (omega arith)
verify_from s fr (r ∷ rs) [] front old i split_ at_ at' same same' total = absurd (omega arith)
verify_from s fr (r ∷ rs) (h ∷ hs) front [] i split_ at_ at' same same' total = absurd (omega arith)
verify_from s fr (r ∷ rs) (h ∷ hs) front (o ∷ os) i split_ at_ at' same same' total =
    let l = length-append front (o ∷ os) in
    let mark : ℕ = if bytes_eq r h then 1 else 0 in
    let l' = length-append front (mark ∷ []) in
    let m = length-append fr (r ∷ []) in
    rw
      (
        verify_ok s (front ++ o ∷ os) i r h (omega (arith, total)) (omega (arith, l, at'))
            (ap (λ ps. get_elem? ps i) split_ ∙ get_elem?-append fr r rs i at_),
        set-append front o mark os i at',
        sym (append_assoc front (mark ∷ []) os),
      )
      (verify_from s (fr ++ r ∷ []) rs hs (front ++ mark ∷ []) os (i + 1)
          (split_ ∙ sym (append_assoc fr (r ∷ []) rs)) (omega (arith, m, at_))
          (omega (arith, l', at')) (omega (arith, same)) (omega (arith, same'))
          (omega (arith, total))
        ∙ ap ok (append_assoc front (mark ∷ []) (matches rs hs)))

-- Where a storage has a hash for each of its pieces, the verifier that gets the hashes of all pieces, in the
-- order of their indices, marks with 1 exactly those that are the stored ones.
pub verify_finished_pieces_lem :
    (s : FileStorage) (hashes : List Bytes)
    → length s.pieces ≡ piece_count s
    → length hashes ≡ piece_count s
    → verify_finished_pieces s (new_piece_map s) (numbered 1 0 hashes)
      ≡ ok (matches s.pieces hashes)
unfolding new_piece_map
verify_finished_pieces_lem s hashes have total =
    verify_from s [] s.pieces hashes [] (replicate (piece_count s) 0) 0 refl refl refl
      (have ∙ sym total) (length-replicate (piece_count s) 0 ∙ sym total) (omega (arith, total))

pub matches_self : (hashes : List Bytes) → matches hashes hashes ≡ replicate (length hashes) 1
matches_self [] = refl
matches_self (h ∷ hs) = rw (bytes_eq_refl h) (ap (◌∷◌ 1) (matches_self hs))
