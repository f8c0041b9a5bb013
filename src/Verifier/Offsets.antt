-- ===== src/Verifier/Offsets.antt =====
-- v2_piece_verifier::initialize_offsets_and_trees: where the pieces of each file stand in the piece map.
use dottorrent.Base.{
  ℕ, ◌+◌, ◌-◌, ◌^◌, ◌<◌, ◌≡◌, refl, Bool, true, false, not, invalid_argument, List, [], ◌∷◌, length,
  ◌==◌, if◌then◌else◌, Run, ok, throws, violation, undefined, logic_error, ltb, ◌%◌, subst, ◌⊎◌,
  ◌>>=◌, arith, sym, ap, ◌∙◌, Bool-cases, inl, inr,
}
use dottorrent.Entry.{FileEntry, is_padding_file, piece_layer}
use dottorrent.Storage.{add64}

abbrev pub max_size_t : ℕ
max_size_t = 2 ^ 64 - 1

-- The pieces of the map that a regular file has: those of its layer, or one for its root.
unfoldable pub entry_pieces : FileEntry → Run ℕ
entry_pieces e = do layer ← piece_layer e; ok (if length layer == 0 then 1 else length layer)

-- `file_offsets_` is kept from its back on.
abbrev pub previous_offset : List ℕ → ℕ
previous_offset [] = 0
previous_offset (back ∷ []) = if back == max_size_t then 0 else back
previous_offset (back ∷ before ∷ rest) = if back == max_size_t then before else back

unfoldable pub add_offset : FileEntry → List ℕ → Run (List ℕ)
unfolding entry_pieces
add_offset e [] = violation
add_offset e (back ∷ rest) =
    if is_padding_file e
    then ok (back ∷ max_size_t ∷ rest)
    else (do n ← entry_pieces e; ok (add64 (previous_offset (back ∷ rest)) n ∷ back ∷ rest))

unfoldable pub offsets_from : List FileEntry → List ℕ → Run (List ℕ)
unfolding add_offset
offsets_from [] offsets = ok offsets
offsets_from (e ∷ es) offsets = do offsets' ← add_offset e offsets; offsets_from es offsets'

-- One round of the loop that sums up the size of the piece map in an `int`, which is kept here as the number
-- of its 32 bits. The size of a layer is a `std::size_t`, and its sum is converted back; the 1 for a file
-- without a layer is an `int`, whose overflow is undefined.
unfoldable pub add_map_size : FileEntry → ℕ → Run ℕ
add_map_size e size = do
  layer ← piece_layer e
  if not (length layer == 0)
      then ok ((size + length layer) % 2 ^ 32)
      else if size == 2 ^ 31 - 1
      then undefined
      else ok ((size + 1) % 2 ^ 32)

-- The size that the piece map gets. A negative one becomes a `std::size_t` that no vector can have, and
-- `resize` throws.
unfoldable pub map_size_from : ℕ → List FileEntry → Run ℕ
unfolding add_map_size
map_size_from size [] = if ltb size (2 ^ 31) then ok size else throws logic_error
map_size_from size (e ∷ es) =
    let rest = map_size_from size es in
    if is_padding_file e then rest else (do size' ← add_map_size e size; map_size_from size' es)

-- The number of pieces of an entry in the map, if its layer can be read.
unfoldable pub pieces_of : FileEntry → ℕ
pieces_of e = if is_padding_file e then 0 else if length e.layer == 0 then 1 else length e.layer

abbrev pub sum_pieces : List FileEntry → ℕ
sum_pieces [] = 0
sum_pieces (e ∷ es) = pieces_of e + sum_pieces es

-- Every regular file has v2 data.
abbrev pub AllHaveData : List FileEntry → Type 0
AllHaveData [] = Unit
AllHaveData (e ∷ es) = ((is_padding_file e ≡ true) ⊎ (e.has_v2_data ≡ true)) × AllHaveData es

-- The offsets of the entries as they should be, from the first on, and the end.
abbrev pub expected_offsets : ℕ → List FileEntry → List ℕ
expected_offsets n [] = n ∷ []
expected_offsets n (e ∷ es) =
    (if is_padding_file e then max_size_t else n) ∷ expected_offsets (n + pieces_of e) es

-- The list whose back end is the first argument's front.
abbrev pub front_to_back : List ℕ → List ℕ → List ℕ
front_to_back [] xs = xs
front_to_back (y ∷ ys) xs = front_to_back ys (y ∷ xs)

previous-back : (n : ℕ) (rest : List ℕ) → n < max_size_t → previous_offset (n ∷ rest) ≡ n
previous-back n [] h = ground arith
previous-back n (m ∷ rest) h = ground arith

pub pieces_of_padding : (e : FileEntry) → is_padding_file e ≡ true → pieces_of e ≡ 0
unfolding pieces_of
pieces_of_padding e pad = rw pad refl

pub entry_pieces_ok :
    (e : FileEntry)
    → is_padding_file e ≡ false
    → (is_padding_file e ≡ true) ⊎ (e.has_v2_data ≡ true)
    → entry_pieces e ≡ ok (pieces_of e)
unfolding entry_pieces piece_layer pieces_of
entry_pieces_ok e regular (inl p) = absurd (cc (sym regular ∙ p))
entry_pieces_ok e regular (inr d) = rw regular (data_read e.has_v2_data d)
  where
    data_read :
        (b : Bool)
        → b ≡ true
        → ((if not b then throws invalid_argument else ok e.layer) >>= λ layer.
            ok (if length layer == 0 then 1 else length layer))
          ≡ ok (if length e.layer == 0 then 1 else length e.layer)
    data_read true d = refl
    data_read false d = cc

add_offset_padding :
    (n : ℕ) (e : FileEntry) (rest : List ℕ)
    → is_padding_file e ≡ true
    → add_offset e (n ∷ rest) ≡ ok (n ∷ max_size_t ∷ rest)
unfolding add_offset
add_offset_padding n e rest pad = rw pad refl

add_offset_regular :
    (n : ℕ) (e : FileEntry) (rest : List ℕ)
    → is_padding_file e ≡ false
    → (is_padding_file e ≡ true) ⊎ (e.has_v2_data ≡ true)
    → n + pieces_of e < max_size_t
    → add_offset e (n ∷ rest) ≡ ok ((n + pieces_of e) ∷ n ∷ rest)
unfolding add_offset
add_offset_regular n e rest regular has fits =
    let back = previous-back n rest (omega (arith, fits)) in
    let sum : add64 n (pieces_of e) ≡ n + pieces_of e = omega (arith, fits) in
    rw (regular, entry_pieces_ok e regular has, back, sum) refl

offset_shown :
    (n : ℕ) (e : FileEntry) (b : Bool) (xs : List ℕ)
    → is_padding_file e ≡ b
    → (if b then max_size_t else n) ∷ xs ≡ (if is_padding_file e then max_size_t else n) ∷ xs
offset_shown n e b xs h = ap (λ c. (if c then max_size_t else n) ∷ xs) (sym h)

offsets_onto :
    (n : ℕ) (es : List FileEntry) (rest : List ℕ)
    → AllHaveData es
    → n + sum_pieces es < max_size_t
    → (r : List ℕ) × (offsets_from es (n ∷ rest) ≡ ok r)
      × (front_to_back r [] ≡ front_to_back rest (expected_offsets n es))
unfolding offsets_from
offsets_onto n [] rest have fits = (n ∷ rest, refl, refl)
offsets_onto n (e ∷ es) rest (has, have) fits = elim (Bool-cases (is_padding_file e)) [
  | inl pad ↦
      let none_of = pieces_of_padding e pad in
      let same : n ≡ n + pieces_of e = omega (arith, none_of) in
      let (r, done, out) =
        offsets_onto n es (max_size_t ∷ rest) have (omega (arith, none_of, fits)) in
      (
        r,
        ap (λ x. x >>= λ o. offsets_from es o) (add_offset_padding n e rest pad) ∙ done,
        out
            ∙ (ap (λ m. front_to_back rest (max_size_t ∷ expected_offsets m es)) same
                ∙ ap (front_to_back rest)
                    (offset_shown n e true (expected_offsets (n + pieces_of e) es) pad)),
      )
  | inr regular ↦
      let (r, done, out) =
        offsets_onto (n + pieces_of e) es (n ∷ rest) have (omega (arith, fits)) in
      (
        r,
        ap (λ x. x >>= λ o. offsets_from es o)
              (add_offset_regular n e rest regular has (omega (arith, fits)))
            ∙ done,
        out
            ∙ ap (front_to_back rest)
                (offset_shown n e false (expected_offsets (n + pieces_of e) es) regular),
      )
]

add_map_size_ok :
    (e : FileEntry) (size : ℕ)
    → is_padding_file e ≡ false
    → (is_padding_file e ≡ true) ⊎ (e.has_v2_data ≡ true)
    → size + pieces_of e < 2 ^ 31
    → add_map_size e size ≡ ok (size + pieces_of e)
unfolding add_map_size piece_layer pieces_of is_padding_file
add_map_size_ok e size regular (inl pad) small = absurd (cc (sym regular ∙ pad))
add_map_size_ok e size regular (inr data_read) small = elim (Bool-cases (length e.layer == 0)) [
  | inl empty ↦
      let less : size + 1 < 2 ^ 31 =
        subst (λ k. size + k < 2 ^ 31) (rw (regular, empty) refl) small in
      let inside : (size == 2 ^ 31 - 1) ≡ false = ground (arith, less) in
      rw (data_read, regular, empty, inside) (ap ok (omega (arith, less)))
  | inr filled ↦
      let less : size + length e.layer < 2 ^ 31 =
        subst (λ k. size + k < 2 ^ 31) (rw (regular, filled) refl) small in
      rw (data_read, regular, filled) (ap ok (omega (arith, less)))
]

map_size_ok :
    (size : ℕ) (es : List FileEntry)
    → AllHaveData es
    → size + sum_pieces es < 2 ^ 31
    → map_size_from size es ≡ ok (size + sum_pieces es)
unfolding map_size_from
map_size_ok size [] have small =
    let inside : ltb size (2 ^ 31) ≡ true = ground (arith, small) in rw inside (ap ok (omega arith))
map_size_ok size (e ∷ es) (has, have) small = elim (Bool-cases (is_padding_file e)) [
  | inl pad ↦
      let none_of = pieces_of_padding e pad in
      let sum : size + sum_pieces es ≡ size + (pieces_of e + sum_pieces es) =
        omega (arith, none_of) in
      rw pad (map_size_ok size es have (omega (arith, small, none_of)) ∙ ap ok sum)
  | inr regular ↦
      let sum : size + pieces_of e + sum_pieces es ≡ size + (pieces_of e + sum_pieces es) =
        omega arith in
      rw (regular, add_map_size_ok e size regular has (omega (arith, small)))
        (map_size_ok (size + pieces_of e) es have (omega (arith, small)) ∙ ap ok sum)
]

-- Where every regular file has v2 data and the pieces of all files are fewer than 2^31: both loops of
-- `initialize_offsets_and_trees` return. The offset of a regular file is the number of pieces of the regular
-- files before it, that of a padding file the largest `std::size_t`, and behind the offsets of the
-- files stands the number of all pieces, which is the size of the piece map.
pub offsets_lem :
    (es : List FileEntry)
    → AllHaveData es
    → sum_pieces es < 2 ^ 31
    → ((r : List ℕ) × (offsets_from es (0 ∷ []) ≡ ok r)
        × (front_to_back r [] ≡ expected_offsets 0 es))
      × (map_size_from 0 es ≡ ok (sum_pieces es))
offsets_lem es have fits =
    let sum : 0 + sum_pieces es ≡ sum_pieces es = omega arith in
    (
      offsets_onto 0 es [] have (omega (arith, fits)),
      map_size_ok 0 es have (omega (arith, fits)) ∙ ap ok sum,
    )
