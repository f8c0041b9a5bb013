-- ===== src/Parsing/Layers.antt =====
-- The layers of the files of a v2 metafile are read back from the dictionary that holds them by root.
use dottorrent.Base.{
  ℕ, ◌≤◌, ◌≡◌, refl, true, false, ◌&&◌, Option, none, some, List, [], ◌∷◌, ◌++◌, map, Bytes, length,
  ltb, ◌==◌, bytes_eq, bytes_eq_refl, if◌then◌else◌, ok, ◌>>=◌, arith, sym, ap, ◌∙◌, subst,
  append_assoc, Bool-cases, inl, inr, All,
}
use dottorrent.Base.Split.{split, split_fuel, split-full}
use dottorrent.Entry.{
  FileEntry, is_padding_file, has_attribute, pieces_root, piece_layer, set_piece_layer,
}
use dottorrent.Bencode.{Dict, Bencode, IsBencode, find_key}
use dottorrent.Parsing.Files.{digests_of, parse_layer, parse_layers}
use dottorrent.Serialization.{join_all, make_v2_piece_layers_string}
use dottorrent.Serialization.Torrents.{put_layers}
use dottorrent.Serialization.Fields.{Field, lookup, put_all, find_key-put_all}

-- A digest of SHA-256.
abbrev pub IsSha256 : Bytes → Type 0
IsSha256 h = length h ≡ 32

-- The digests in a string of them.
digests_of-join_all :
    (hs : List Bytes) → All IsSha256 hs → digests_of (split 32 (join_all hs)) ≡ ok hs
unfolding digests_of split_fuel
digests_of-join_all [] digests = refl
digests_of-join_all (h ∷ hs) (digest, digests) =
    let size : (length h == 32) ≡ true = ground arith in
    rw (split-full 32 h (join_all hs) (omega arith) digest, size, digests_of-join_all hs digests)
      refl

-- A file as it is before its layer is read.
abbrev pub without_layer : FileEntry → FileEntry
without_layer e = record e { layer = [] }

-- A regular file with the root and layer that its size asks for.
pub record HasLayer (piece_size : ℕ) (e : FileEntry) : Type 0 where
  pub rooted : piece_size ≤ e.file_size → e.has_v2_data ≡ true
  pub small : ltb piece_size e.file_size ≡ false → e.layer ≡ []
  pub no_padding : is_padding_file e ≡ false
  pub digests : All IsSha256 e.layer

-- Files with one root are of one content.
abbrev pub Agrees : ℕ → FileEntry → FileEntry → Type 0
Agrees piece_size e f =
    bytes_eq f.root_hash e.root_hash ≡ true
    → (ltb piece_size f.file_size ≡ ltb piece_size e.file_size) × (f.layer ≡ e.layer)

All-behind :
    {A : Type 0} (P : A → Type 0) (xs : List A) (y : A) (ys : List A)
    → All P (xs ++ y ∷ ys)
    → All P ys
All-behind P [] y ys (p, ps) = ps
All-behind P (x ∷ xs) y ys (p, ps) = All-behind P xs y ys ps

module _ {V : Type 0} (B : Bencode V) (laws : IsBencode B) (piece_size : ℕ) where
  layer_fields : List FileEntry → List (Field V)
  layer_fields es =
      map (λ e. (ltb piece_size e.file_size, (e.root_hash, B.string (join_all e.layer)))) es

  put_layers_lem :
      (es : List FileEntry) (d : Dict V)
      → All (HasLayer piece_size) es
      → put_layers B piece_size es d ≡ ok (put_all B (layer_fields es) d)
  unfolding put_layers layer_fields make_v2_piece_layers_string pieces_root piece_layer
  put_layers_lem [] d layers = refl
  put_layers_lem (e ∷ es) d (layer, layers) = elim (Bool-cases (ltb piece_size e.file_size)) [
    | inl large ↦
        let data_ : e.has_v2_data ≡ true = layer.rooted (ground arith) in
        rw (large, data_) (put_layers_lem es _ layers)
    | inr small ↦ rw small (put_layers_lem es d layers)
  ]

  same-Agrees :
      (e f : FileEntry) (old : Option V)
      → Agrees piece_size e f
      → (ltb piece_size e.file_size ≡ true → old ≡ some (B.string (join_all e.layer)))
      → (if bytes_eq f.root_hash e.root_hash && ltb piece_size f.file_size
          then some (B.string (join_all f.layer))
          else old)
        ≡ old
  same-Agrees e f old agree is_old = elim (Bool-cases (bytes_eq f.root_hash e.root_hash)) [
    | inl same ↦
        let (size, layer) = agree same in
        elim (Bool-cases (ltb piece_size f.file_size)) [
          | inl large ↦
              rw (same, large)
                (ap (λ l. some (B.string (join_all l))) layer ∙ sym (is_old (sym size ∙ large)))
          | inr small ↦ rw (same, small) refl
        ]
    | inr other ↦ rw other refl
  ]

  -- Files that agree with a file do not change what its root gives.
  lookup-Agrees :
      (e : FileEntry) (es : List FileEntry)
      → All (Agrees piece_size e) es
      → (old : Option V)
      → (ltb piece_size e.file_size ≡ true → old ≡ some (B.string (join_all e.layer)))
      → lookup B e.root_hash (layer_fields es) old ≡ old
  unfolding layer_fields
  lookup-Agrees e [] agrees old is_old = refl
  lookup-Agrees e (f ∷ fs) (agree, agrees) old is_old =
      ap (lookup B e.root_hash (layer_fields fs)) (same-Agrees e f old agree is_old)
      ∙ lookup-Agrees e fs agrees old is_old

  lookup-append :
      (key : Bytes) (es fs : List FileEntry) (old : Option V)
      → lookup B key (layer_fields (es ++ fs)) old
        ≡ lookup B key (layer_fields fs) (lookup B key (layer_fields es) old)
  unfolding layer_fields
  lookup-append key [] fs old = refl
  lookup-append key (e ∷ es) fs old = lookup-append key es fs _

  -- The layer of a file that is larger than a piece, and nothing for another.
  abbrev stored_layer : FileEntry → Option V
  stored_layer e = if ltb piece_size e.file_size then some (B.string (join_all e.layer)) else none

  lookup_own :
      (front : List FileEntry) (e : FileEntry) (rest : List FileEntry)
      → All (Agrees piece_size e) (front ++ e ∷ rest)
      → All (Agrees piece_size e) rest
      → lookup B e.root_hash (layer_fields (front ++ e ∷ rest)) none ≡ stored_layer e
  unfolding layer_fields
  lookup_own front e rest all behind = elim (Bool-cases (ltb piece_size e.file_size)) [
    | inl large ↦
        lookup-append e.root_hash front (e ∷ rest) none
        ∙ rw (large, bytes_eq_refl e.root_hash)
            (lookup-Agrees e rest behind (some (B.string (join_all e.layer))) (λ h. refl))
    | inr small ↦
        rw small (lookup-Agrees e (front ++ e ∷ rest) all none (λ h. absurd (cc (h, small))))
  ]

  same_padding : (e : FileEntry) → is_padding_file (without_layer e) ≡ is_padding_file e
  unfolding is_padding_file has_attribute
  same_padding e = refl

  parse_layer_lem :
      (e : FileEntry) (d : Dict V)
      → HasLayer piece_size e
      → find_key e.root_hash d ≡ stored_layer e
      → parse_layer B piece_size d (without_layer e) ≡ ok e
  unfolding parse_layer pieces_root set_piece_layer
  parse_layer_lem e d layer here = elim (Bool-cases (ltb piece_size e.file_size)) [
    | inl large ↦
        let whole : ltb e.file_size piece_size ≡ false = ground (arith, large) in
        let v2_data : e.has_v2_data ≡ true = layer.rooted (ground (arith, large)) in
        let stored : find_key e.root_hash d ≡ some (B.string (join_all e.layer)) =
          here ∙ rw large refl in
        rw
          (
            whole,
            same_padding e ∙ layer.no_padding,
            v2_data,
            stored,
            laws.get-string (join_all e.layer),
            digests_of-join_all e.layer layer.digests,
          )
          refl
    | inr small ↦
        let none_there : find_key e.root_hash d ≡ none = here ∙ rw small refl in
        let same : ok (without_layer e) ≡ ok e =
          λ i. ok (record e { layer = sym (layer.small small) i }) in
        elim (Bool-cases (ltb e.file_size piece_size)) [
          | inl less ↦ rw less same
          | inr equal ↦
              let v2_data : e.has_v2_data ≡ true = layer.rooted (ground (arith, equal)) in
              rw (equal, same_padding e ∙ layer.no_padding, v2_data, none_there)
                (ap (λ l. ok (record e { has_v2_data = true; layer = l }))
                  (sym (layer.small small)))
        ]
  ]

  parse_layers_lem :
      (es : List FileEntry) (d : Dict V)
      → All (HasLayer piece_size) es
      → All (λ e. find_key e.root_hash d ≡ stored_layer e) es
      → parse_layers B piece_size d (map without_layer es) ≡ ok es
  unfolding parse_layers
  parse_layers_lem [] d layers here = refl
  parse_layers_lem (e ∷ es) d (layer, layers) (here, there) =
      rw (parse_layer_lem e d layer here, parse_layers_lem es d layers there) refl

  -- Each file of a list, behind those in front of it, finds its own layer.
  find_own :
      (whole front es : List FileEntry)
      → front ++ es ≡ whole
      → All (λ e. All (Agrees piece_size e) whole) es
      → All (λ e. find_key e.root_hash (put_all B (layer_fields whole) []) ≡ stored_layer e) es
  find_own whole front [] parts agree = tt
  find_own whole front (e ∷ es) parts (own, others) =
      let mine : All (Agrees piece_size e) (front ++ e ∷ es) =
        subst (All (Agrees piece_size e)) (sym parts) own in
      (
        find_key-put_all B e.root_hash (layer_fields whole) []
            ∙ subst (λ l. lookup B e.root_hash (layer_fields l) none ≡ stored_layer e) parts
                (lookup_own front e es mine (All-behind (Agrees piece_size e) front e es mine)),
        find_own whole (front ++ e ∷ []) es (append_assoc front (e ∷ []) es ∙ parts) others,
      )

  -- Regular files, those of at least a piece with a root, those of at most a piece without a layer, and layers of
  -- digests of 32 bytes; two files with the same root have the same layer, and both or none of them are larger
  -- than a piece. From the dictionary of layers that is written for them, the layers of all files are read back.
  pub parse_layers-put_layers :
      (es : List FileEntry)
      → All (HasLayer piece_size) es
      → All (λ e. All (Agrees piece_size e) es) es
      → put_layers B piece_size es [] >>= (λ d. parse_layers B piece_size d (map without_layer es))
        ≡ ok es
  parse_layers-put_layers es layers agree =
      rw (put_layers_lem es [] layers) (parse_layers_lem es _ layers (find_own es [] es refl agree))
