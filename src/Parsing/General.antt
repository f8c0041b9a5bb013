-- ===== src/Parsing/General.antt =====
-- The fields outside the files: what the printer wrote under their keys is read back.
use dottorrent.Base.{
  to_i64, to_u64, ℕ, ◌%◌, ◌^◌, ◌<◌, ◌≡◌, refl, Bool, true, false, not, ◌&&◌, Option, none, some,
  List, [], ◌∷◌, ◌++◌, map, Bytes, codes, length, lt→ltb, ◌==◌, bytes_eq, if◌then◌else◌, ok, ◌>>=◌,
  arith, sym, ap, ◌∙◌, subst, append-nil, append_assoc, inl, inr, ◌⊎◌, All,
}
use dottorrent.InfoHash.{InfoHash, info_hash_eq, from_data}
use dottorrent.Metafile.{
  DhtNode, node_eq, Metafile, member, add_unique, add_dht_node, add_similar_torrent,
}
use dottorrent.Bencode.{Dict, Bencode, IsBencode, found, access, find_key}
use dottorrent.Parsing.{string_field, string_list, each_string, parse_nodes, add_infohash}
use dottorrent.Serialization.{is_filled, is_some_list, strings, number}
use dottorrent.Serialization.Torrents.{node_value}
use dottorrent.Serialization.Fields.{info_hash_of}

-- Each element is new when it comes.
abbrev pub all_new {ℓ} : {A : Type ℓ} → (A → A → Bool) → List A → List A → Bool
all_new same xs [] = true
all_new same xs (v ∷ vs) = not (member same v xs) && all_new same (xs ++ v ∷ []) vs

abbrev pub when {ℓ} : {A : Type ℓ} → Bool → A → Option A
when b v = if b then some v else none

-- Ports of 16 bits.
abbrev pub HasPort : DhtNode → Type 0
HasPort n = n.port < 2 ^ 16

-- A digest of SHA-1 or of SHA-256.
abbrev pub IsDigest : Bytes → Type 0
IsDigest h = (length h ≡ 20) ⊎ (length h ≡ 32)

pub u64-i64 : (n : ℕ) → n < 2 ^ 63 → to_u64 (to_i64 n) ≡ n
u64-i64 n h = rw (lt→ltb n (2 ^ 63) h) (omega arith)

module _ {V : Type 0} (B : Bencode V) (laws : IsBencode B) where
  pub string_field_lem :
      (key : Bytes) (d : Dict V) (m : Metafile) (put : Metafile → Bytes → Metafile) (s : Bytes)
      → find_key key d ≡ when (is_filled s) (B.string s)
      → put m [] ≡ m
      → string_field B key d m put ≡ ok (put m s)
  string_field_lem key d m put [] here same = rw here (ap ok (sym same))
  string_field_lem key d m put (c ∷ s) here same = rw (here, laws.get-string (c ∷ s)) refl

  -- A list of strings, added one by one.
  each_string_lem :
      (put : List Bytes → Metafile) (add : Metafile → Bytes → Metafile) (xs ss : List Bytes)
      → ((ys : List Bytes) (s : Bytes) → add (put ys) s ≡ put (add_unique bytes_eq s ys))
      → all_new bytes_eq xs ss ≡ true
      → each_string B (λ m s. ok (add m s)) (put xs) (map B.string ss) ≡ ok (put (xs ++ ss))
  unfolding each_string
  each_string_lem put add xs [] adds fresh = ap (λ l. ok (put l)) (sym (append-nil xs))
  each_string_lem put add xs (s ∷ ss) adds fresh =
      let out : member bytes_eq s xs ≡ false = ground arith in
      let later : all_new bytes_eq (xs ++ s ∷ []) ss ≡ true = ground arith in
      let added : add (put xs) s ≡ put (xs ++ s ∷ []) = adds xs s ∙ rw out refl in
      rw (laws.get-string s, added)
        (each_string_lem put add (xs ++ s ∷ []) ss adds later
          ∙ ap (λ l. ok (put l)) (append_assoc xs (s ∷ []) ss))

  pub string_list_lem :
      (put : List Bytes → Metafile) (add : Metafile → Bytes → Metafile) (m : Metafile)
      (ss : List Bytes) (key : Bytes) (d : Dict V)
      → m ≡ put []
      → ((ys : List Bytes) (s : Bytes) → add (put ys) s ≡ put (add_unique bytes_eq s ys))
      → all_new bytes_eq [] ss ≡ true
      → find_key key d ≡ when (is_some_list ss) (strings B ss)
      → found (find_key key d) (ok m) (string_list B (λ m s. ok (add m s)) m) ≡ ok (put ss)
  string_list_lem put add m [] key d same adds fresh here = rw here (ap ok same)
  string_list_lem put add m (s ∷ ss) key d same adds fresh here =
      rw (here, laws.get-list (map B.string (s ∷ ss)), same)
        (each_string_lem put add [] (s ∷ ss) adds fresh)

  -- The nodes.
  parse_nodes_lem :
      (m : Metafile) (xs ns : List DhtNode)
      → all_new node_eq xs ns ≡ true
      → All HasPort ns
      → parse_nodes B (record m { dht_nodes = xs }) (map (node_value B) ns)
        ≡ ok (record m { dht_nodes = xs ++ ns })
  unfolding parse_nodes add_dht_node
  parse_nodes_lem m xs [] fresh ports =
      ap (λ l. ok (record m { dht_nodes = l })) (sym (append-nil xs))
  parse_nodes_lem m xs (n ∷ ns) fresh (port, ports) =
      let out : member node_eq n xs ≡ false = ground arith in
      let later : all_new node_eq (xs ++ n ∷ []) ns ≡ true = ground arith in
      let cut : to_u64 (to_i64 n.port) % 2 ^ 16 ≡ n.port =
        ap (λ k. k % 2 ^ 16) (u64-i64 n.port (omega (arith, port))) ∙ omega (arith, port) in
      rw
        (
          laws.get-list (B.string n.url ∷ number B n.port ∷ []),
          laws.get-string n.url,
          laws.get-integer (to_i64 n.port),
          cut,
          out,
        )
        (parse_nodes_lem m (xs ++ n ∷ []) ns later ports
          ∙ ap (λ l. ok (record m { dht_nodes = l })) (append_assoc xs (n ∷ []) ns))

  pub dht_nodes_lem :
      (m : Metafile) (ns : List DhtNode) (d : Dict V)
      → m.dht_nodes ≡ []
      → all_new node_eq [] ns ≡ true
      → All HasPort ns
      → find_key (codes "nodes") d ≡ when (is_some_list ns) (B.list (map (node_value B) ns))
      → found
          (find_key (codes "nodes") d)
          (ok m)
          (λ v. do vs ← access (B.get_list v); parse_nodes B m vs)
        ≡ ok (record m { dht_nodes = ns })
  dht_nodes_lem m [] d none_yet fresh ports here =
      rw here (ap (λ l. ok (record m { dht_nodes = l })) none_yet)
  dht_nodes_lem m (n ∷ ns) d none_yet fresh ports here =
      rw (here, laws.get-list (map (node_value B) (n ∷ ns)))
        (subst
          (λ l.
            parse_nodes B (record m { dht_nodes = l }) (map (node_value B) (n ∷ ns))
            ≡ ok (record m { dht_nodes = n ∷ ns }))
          (sym none_yet) (parse_nodes_lem m [] (n ∷ ns) fresh ports))

  -- The similar torrents.
  add_infohash_lem :
      (m : Metafile) (h : Bytes)
      → IsDigest h
      → add_infohash m h ≡ ok (add_similar_torrent m (info_hash_of h))
  unfolding add_infohash from_data
  add_infohash_lem m h (inl short) =
      let test : (length h == 20) ≡ true = ground arith in rw test refl
  add_infohash_lem m h (inr long) =
      let test : (length h == 20) ≡ false = ground arith in
      let test' : (length h == 32) ≡ true = ground arith in rw (test, test') refl

  similar_lem :
      (m : Metafile) (xs : List InfoHash) (hs : List Bytes)
      → all_new info_hash_eq xs (map info_hash_of hs) ≡ true
      → All IsDigest hs
      → each_string B add_infohash (record m { similar_torrents = xs }) (map B.string hs)
        ≡ ok (record m { similar_torrents = xs ++ map info_hash_of hs })
  unfolding each_string add_similar_torrent
  similar_lem m xs [] fresh digests =
      ap (λ l. ok (record m { similar_torrents = l })) (sym (append-nil xs))
  similar_lem m xs (h ∷ hs) fresh (digest, digests) =
      let k = info_hash_of h in
      let out : member info_hash_eq k xs ≡ false = ground arith in
      let later : all_new info_hash_eq (xs ++ k ∷ []) (map info_hash_of hs) ≡ true = ground arith in
      rw (laws.get-string h, add_infohash_lem (record m { similar_torrents = xs }) h digest, out)
        (similar_lem m (xs ++ k ∷ []) hs later digests
          ∙ ap (λ l. ok (record m { similar_torrents = l }))
              (append_assoc xs (k ∷ []) (map info_hash_of hs)))

  pub similar_list_lem :
      (m : Metafile) (hs : List Bytes) (key : Bytes) (d : Dict V)
      → m.similar_torrents ≡ []
      → all_new info_hash_eq [] (map info_hash_of hs) ≡ true
      → All IsDigest hs
      → find_key key d ≡ when (is_some_list hs) (strings B hs)
      → found (find_key key d) (ok m) (string_list B add_infohash m)
        ≡ ok (record m { similar_torrents = map info_hash_of hs })
  similar_list_lem m [] key d none_yet fresh digests here =
      rw here (ap (λ l. ok (record m { similar_torrents = l })) none_yet)
  similar_list_lem m (h ∷ hs) key d none_yet fresh digests here =
      rw (here, laws.get-list (map B.string (h ∷ hs)))
        (subst
          (λ l.
            each_string B add_infohash (record m { similar_torrents = l }) (map B.string (h ∷ hs))
            ≡ ok (record m { similar_torrents = map info_hash_of (h ∷ hs) }))
          (sym none_yet) (similar_lem m [] (h ∷ hs) fresh digests))
