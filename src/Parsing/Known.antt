-- ===== src/Parsing/Known.antt =====
-- Dictionaries of the keys that have a place in the metafile: nothing of them is kept as another field.
use dottorrent.Base.{
  ◌≡◌, refl, Bool, true, false, not, ◌&&◌, ◌||◌, List, [], ◌∷◌, Bytes, bytes_eq, arith, Bool-cases,
  inl, inr,
}
use dottorrent.Announce.{bytes_lt}
use dottorrent.Metafile.{member}
use dottorrent.Bencode.{Dict, Bencode, insert_or_assign}
use dottorrent.Parsing.{known_keys, other_fields}
use dottorrent.Serialization.Fields.{Field, put_all}

and_parts : (a b : Bool) → a && b ≡ true → (a ≡ true) × (b ≡ true)
and_parts false b h = ground arith
and_parts true b h = (refl, h)

module _ {V : Type 0} (B : Bencode V) where
  -- A dictionary of known keys only.
  abbrev pub all_known : Dict V → Bool
  all_known [] = true
  all_known ((k, v) ∷ d) = member bytes_eq k known_keys && all_known d

  insert-known :
      (key : Bytes) (v : V) (d : Dict V)
      → member bytes_eq key known_keys ≡ true
      → all_known d ≡ true
      → all_known (insert_or_assign key v d) ≡ true
  insert-known key v [] known all = rw known refl
  insert-known key v ((k, w) ∷ d) known all =
      let (here, rest) = and_parts (member bytes_eq k known_keys) (all_known d) all in
      elim (Bool-cases (bytes_eq k key)) [
        | inl same ↦ rw (same, known, rest) refl
        | inr other ↦ elim (Bool-cases (bytes_lt key k)) [
          | inl less ↦ rw (other, less, known, here, rest) refl
          | inr more ↦ rw (other, more, here, insert-known key v d known rest) refl
        ]
      ]

  abbrev pub fields_known : List (Field V) → Bool
  fields_known [] = true
  fields_known ((b, (k, v)) ∷ fs) = (not b || member bytes_eq k known_keys) && fields_known fs

  pub put_all-known :
      (fs : List (Field V)) (d : Dict V)
      → fields_known fs ≡ true
      → all_known d ≡ true
      → all_known (put_all B fs d) ≡ true
  put_all-known [] d known all = all
  put_all-known ((false, (k, v)) ∷ fs) d known all = put_all-known fs d known all
  put_all-known ((true, (k, v)) ∷ fs) d known all =
      let (here, rest) = and_parts (member bytes_eq k known_keys) (fields_known fs) known in
      put_all-known fs (insert_or_assign k v d) rest (insert-known k v d here all)

  pub other_fields-known : (kept d : Dict V) → all_known d ≡ true → other_fields B kept d ≡ kept
  unfolding other_fields
  other_fields-known kept [] all = refl
  other_fields-known kept ((k, v) ∷ d) all =
      let (here, rest) = and_parts (member bytes_eq k known_keys) (all_known d) all in
      rw here (other_fields-known kept d rest)
