-- ===== src/Serialization/Fields.antt =====
-- The dictionaries that the printer makes, as the list of their fields: what a key of them holds.
use dottorrent.Base.{
  ◌≡◌, refl, Bool, true, false, not, ◌&&◌, Option, some, List, [], ◌∷◌, map, Bytes, codes, length,
  bytes_eq, bytes_eq-eq, if◌then◌else◌, ◌==◌, ok, ap, subst, ◌∙◌, Bool-cases, inl, inr,
}
use dottorrent.Announce.{AnnounceUrl}
use dottorrent.InfoHash.{InfoHash, of_v1, of_v2, deref}
use dottorrent.Metafile.{Metafile}
use dottorrent.Bencode.{
  Dict, Bencode, find_key, insert_or_assign, find_key-insert_self, find_key-insert_other,
}
use dottorrent.Serialization.{announce_tiers, put_if, is_filled, is_some_list, strings, number}
use dottorrent.Serialization.Torrents.{
  make_bvalue_common, put_trackers, put_similar, similar_values, node_value,
}

-- A field that may be there.
abbrev pub Field : Type 0 → Type 0
Field V = Bool × (Bytes × V)

-- The info hash of a v1 or v2 torrent, by its size.
abbrev pub info_hash_of : Bytes → InfoHash
info_hash_of h = if length h == 20 then of_v1 h else of_v2 h

abbrev pub first_url : List AnnounceUrl → Bytes
first_url [] = []
first_url (a ∷ xs) = a.url

module _ {V : Type 0} (B : Bencode V) where
  abbrev pub put_all : List (Field V) → Dict V → Dict V
  put_all [] d = d
  put_all ((b, (k, v)) ∷ fs) d = put_all fs (put_if B b k v d)

  -- The value of a key: that of its last field.
  abbrev pub lookup : Bytes → List (Field V) → Option V → Option V
  lookup key [] old = old
  lookup key ((b, (k, v)) ∷ fs) old = lookup key fs (if bytes_eq k key && b then some v else old)

  find_key-put_if :
      (b : Bool) (k key : Bytes) (v : V) (d : Dict V)
      → find_key key (put_if B b k v d) ≡ (if bytes_eq k key && b then some v else find_key key d)
  find_key-put_if false k key v d = elim (Bool-cases (bytes_eq k key)) [
    | inl same ↦ rw same refl
    | inr other ↦ rw other refl
  ]
  find_key-put_if true k key v d = elim (Bool-cases (bytes_eq k key)) [
    | inl same ↦ rw same (
        subst (λ x. find_key x (insert_or_assign k v d) ≡ some v) (bytes_eq-eq k key same)
          (find_key-insert_self k v d))
    | inr other ↦ rw other (find_key-insert_other k key v d other)
  ]

  pub find_key-put_all :
      (key : Bytes) (fs : List (Field V)) (d : Dict V)
      → find_key key (put_all fs d) ≡ lookup key fs (find_key key d)
  find_key-put_all key [] d = refl
  find_key-put_all key ((b, (k, v)) ∷ fs) d =
      find_key-put_all key fs (put_if B b k v d) ∙ ap (lookup key fs) (find_key-put_if b k key v d)

  -- The fields outside the info dictionary, where the similar torrents have the given hashes.
  abbrev pub common_fields : Metafile → List Bytes → List (Field V)
  common_fields m hashes =
      (is_some_list m.announce_list, (codes "announce", B.string (first_url m.announce_list)))
      ∷ (
        is_some_list m.announce_list,
        (codes "announce-list", B.list (map (strings B) (announce_tiers m.announce_list))),
      )
      ∷ (is_filled m.comment, (codes "comment", B.string m.comment))
      ∷ (is_filled m.created_by, (codes "created by", B.string m.created_by))
      ∷ (not (m.creation_date == 0), (codes "creation date", number B m.creation_date))
      ∷ (is_some_list m.collections, (codes "collections", strings B m.collections))
      ∷ (is_some_list m.http_seeds, (codes "httpseeds", strings B m.http_seeds))
      ∷ (is_some_list hashes, (codes "similar", strings B hashes))
      ∷ (is_some_list m.web_seeds, (codes "url-list", strings B m.web_seeds))
      ∷ (is_some_list m.dht_nodes, (codes "nodes", B.list (map (node_value B) m.dht_nodes)))
      ∷ []

  similar_values_lem :
      (hs : List Bytes) → similar_values B (map info_hash_of hs) ≡ ok (map B.string hs)
  unfolding similar_values of_v1 of_v2 deref
  similar_values_lem [] = refl
  similar_values_lem (h ∷ hs) = elim (Bool-cases (length h == 20)) [
    | inl short ↦ rw (short, similar_values_lem hs) refl
    | inr long ↦ rw (long, similar_values_lem hs) refl
  ]

  put_trackers_lem :
      (xs : List AnnounceUrl) (d : Dict V)
      → put_trackers B xs d
        ≡ put_if B
            (is_some_list xs)
            (codes "announce-list")
            (B.list (map (strings B) (announce_tiers xs)))
            (put_if B (is_some_list xs) (codes "announce") (B.string (first_url xs)) d)
  put_trackers_lem [] d = refl
  put_trackers_lem (a ∷ xs) d = refl

  put_similar_lem :
      (hs : List Bytes) (d : Dict V)
      → put_similar B (map info_hash_of hs) d
        ≡ ok (put_if B (is_some_list hs) (codes "similar") (strings B hs) d)
  unfolding put_similar
  put_similar_lem [] d = refl
  put_similar_lem (h ∷ hs) d = rw (similar_values_lem (h ∷ hs)) refl

  -- The dictionary of the fields that all protocols share, for similar torrents of one hash each.
  pub make_bvalue_common_lem :
      (m : Metafile) (hashes : List Bytes)
      → m.similar_torrents ≡ map info_hash_of hashes
      → make_bvalue_common B m ≡ ok (put_all (common_fields m hashes) [])
  unfolding make_bvalue_common
  make_bvalue_common_lem m hashes similar =
      rw (similar, put_trackers_lem m.announce_list []) (rw (put_similar_lem hashes _) refl)
