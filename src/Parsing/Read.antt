-- ===== src/Parsing/Read.antt =====
-- All fields that come before the files.
use dottorrent.Base.{
  lt→ltb, ◌*◌, pos, to_i64, ◌^◌, ◌<◌, ◌≡◌, refl, true, false, none, some, List, [], ◌∷◌, map, Bytes,
  codes, bytes_eq, ◌==◌, ok, arith, sym, ap, ◌∙◌, subst, Bool-cases, inl, inr, All,
}
use dottorrent.Announce.{AnnounceUrl}
use dottorrent.Announce.Order.{IsOrdered}
use dottorrent.InfoHash.{info_hash_eq}
use dottorrent.Metafile.{
  ticks_per_second, node_eq, Metafile, add_collection, add_http_seed, add_web_seed, set_private,
  set_creation_date, set_comment, set_created_by, set_name,
}
use dottorrent.Metafile.Seeds.{all_differ}
use dottorrent.Bencode.{Dict, Bencode, IsBencode, catch_access, find_key}
use dottorrent.Parsing.{
  parse_announce, parse_private, parse_comment, parse_created_by, parse_creation_date,
  parse_collections, parse_http_seeds, parse_web_seeds, parse_dht_nodes, parse_similar_torrents,
  parse_name,
}
use dottorrent.Parsing.Trackers.{parse_announce_lem}
use dottorrent.Parsing.General.{
  all_new, when, HasPort, IsDigest, string_field_lem, string_list_lem, dht_nodes_lem,
  similar_list_lem,
}
use dottorrent.Parsing.Torrent.{new_metafile, parse_general}
use dottorrent.Serialization.Fields.{info_hash_of, lookup, common_fields}

-- What the lists of a metafile keep, and the torrents that can be written as one hash each.
pub record IsWritable (m : Metafile) (hashes : List Bytes) : Type 0 where
  pub ordered : IsOrdered m.announce_list
  pub urls_differ : all_differ (map (λ a. a.url) m.announce_list) ≡ true
  pub new_http : all_new bytes_eq [] m.http_seeds ≡ true
  pub new_web : all_new bytes_eq [] m.web_seeds ≡ true
  pub new_collections : all_new bytes_eq [] m.collections ≡ true
  pub new_nodes : all_new node_eq [] m.dht_nodes ≡ true
  pub ports : All HasPort m.dht_nodes
  pub similar : m.similar_torrents ≡ map info_hash_of hashes
  pub new_similar : all_new info_hash_eq [] (map info_hash_of hashes) ≡ true
  pub digests : All IsDigest hashes
  pub date : m.creation_date * ticks_per_second < 2 ^ 63

-- A value that holds the fields of a metafile, and a dictionary under "info".
pub record IsWritten {V : Type 0} (B : Bencode V) (root : V) (m : Metafile) (hashes : List Bytes)
    (name : Bytes) : Type 0 where
  pub d : Dict V
  pub info_value : V
  pub info : Dict V
  pub is_dict : B.get_dict root ≡ some d
  pub fields :
      (key : Bytes)
      → bytes_eq (codes "info") key ≡ false
      → bytes_eq (codes "piece layers") key ≡ false
      → find_key key d ≡ lookup B key (common_fields B m hashes) none
  pub has_info : find_key (codes "info") d ≡ some info_value
  pub info_dict : B.get_dict info_value ≡ some info
  pub private_field : find_key (codes "private") info ≡ when m.is_private (B.integer (pos 1))
  pub name_field : find_key (codes "name") info ≡ some (B.string name)
  pub no_collections : find_key (codes "collections") info ≡ none
  pub no_similar : find_key (codes "similar") info ≡ none

-- The fields that are read, with the given name.
abbrev pub general_fields : Metafile → Bytes → Metafile
general_fields m name = record new_metafile {
  announce_list = m.announce_list;
  http_seeds = m.http_seeds;
  web_seeds = m.web_seeds;
  dht_nodes = m.dht_nodes;
  name = name;
  comment = m.comment;
  creation_date = m.creation_date;
  created_by = m.created_by;
  is_private = m.is_private;
  similar_torrents = m.similar_torrents;
  collections = m.collections;
}

module _ {V : Type 0} (B : Bencode V) (laws : IsBencode B) (root : V) (m : Metafile)
    (hashes : List Bytes) (name : Bytes) (able : IsWritable m hashes)
    (w : IsWritten B root m hashes name) where
  read_announce :
      parse_announce B root new_metafile
      ≡ ok (record new_metafile { announce_list = m.announce_list })
  unfolding parse_announce
  read_announce = go m.announce_list refl
    where
      go :
          (xs : List AnnounceUrl)
          → m.announce_list ≡ xs
          → parse_announce B root new_metafile ≡ ok (record new_metafile { announce_list = xs })
      go [] e =
          rw
            (
              w.is_dict,
              w.fields (codes "announce-list") refl refl,
              w.fields (codes "announce") refl refl,
              e,
            )
            refl
      go (a ∷ xs) e =
          parse_announce_lem B laws new_metafile a xs root w.d (subst IsOrdered e (able.ordered))
            (subst (λ l. all_differ (map (λ a. a.url) l) ≡ true) e (able.urls_differ)) (w.is_dict)
            (w.fields (codes "announce-list") refl refl ∙ rw e refl)
            (w.fields (codes "announce") refl refl ∙ rw e refl)

  read_private :
      (m' : Metafile)
      → m'.is_private ≡ false
      → parse_private B root m' ≡ ok (record m' { is_private = m.is_private })
  unfolding parse_private set_private
  read_private m' e = elim (Bool-cases m.is_private) [
    | inl flag ↦
        let here : find_key (codes "private") w.info ≡ some (B.integer (pos 1)) =
          w.private_field ∙ rw flag refl in
        rw (w.is_dict, w.has_info, w.info_dict, here, laws.get-integer (pos 1), flag) refl
    | inr clear ↦
        let here : find_key (codes "private") w.info ≡ none = w.private_field ∙ rw clear refl in
        rw (w.is_dict, w.has_info, w.info_dict, here, clear)
          (ap (λ b. ok (record m' { is_private = b })) e)
  ]

  read_comment :
      (m' : Metafile)
      → m'.comment ≡ []
      → parse_comment B root m' ≡ ok (record m' { comment = m.comment })
  unfolding parse_comment set_comment
  read_comment m' e = rw (w.is_dict) (
      string_field_lem B laws (codes "comment") w.d m' set_comment m.comment
        (w.fields (codes "comment") refl refl) (ap (λ s. record m' { comment = s }) (sym e)))

  read_created_by :
      (m' : Metafile)
      → m'.created_by ≡ []
      → parse_created_by B root m' ≡ ok (record m' { created_by = m.created_by })
  unfolding parse_created_by set_created_by
  read_created_by m' e = rw (w.is_dict) (
      string_field_lem B laws (codes "created by") w.d m' set_created_by m.created_by
        (w.fields (codes "created by") refl refl) (ap (λ s. record m' { created_by = s }) (sym e)))

  read_date :
      (m' : Metafile)
      → m'.creation_date ≡ 0
      → parse_creation_date B root m' ≡ ok (record m' { creation_date = m.creation_date })
  unfolding parse_creation_date set_creation_date
  read_date m' e = elim (Bool-cases (m.creation_date == 0)) [
    | inl unset ↦
        let zero_date : m.creation_date ≡ 0 = ground arith in
        rw (w.is_dict, w.fields (codes "creation date") refl refl, unset)
          (ap (λ n. ok (record m' { creation_date = n })) (e ∙ sym zero_date))
    | inr set_date ↦
        let small : m.creation_date < 2 ^ 63 = omega (arith, able.date) in
        let number_is : to_i64 m.creation_date ≡ pos m.creation_date =
          rw (lt→ltb m.creation_date (2 ^ 63) small) refl in
        rw
          (
            w.is_dict,
            w.fields (codes "creation date") refl refl,
            set_date,
            laws.get-integer (to_i64 m.creation_date),
            number_is,
            lt→ltb (m.creation_date * ticks_per_second) (2 ^ 63) (able.date),
          )
          (ap (λ n. ok (record m' { creation_date = n })) (omega (arith, small)))
  ]

  read_collections :
      (m' : Metafile)
      → m'.collections ≡ []
      → parse_collections B root m' ≡ ok (record m' { collections = m.collections })
  unfolding parse_collections add_collection
  read_collections m' e =
      rw (w.is_dict, w.has_info, w.info_dict, w.no_collections)
        (ap catch_access (
          string_list_lem B laws (λ l. record m' { collections = l }) add_collection m'
            m.collections (codes "collections") w.d (ap (λ l. record m' { collections = l }) e)
            (λ ys s. refl) (able.new_collections) (w.fields (codes "collections") refl refl)))

  read_http_seeds :
      (m' : Metafile)
      → m'.http_seeds ≡ []
      → parse_http_seeds B root m' ≡ ok (record m' { http_seeds = m.http_seeds })
  unfolding parse_http_seeds add_http_seed
  read_http_seeds m' e = rw (w.is_dict) (
      ap catch_access (
        string_list_lem B laws (λ l. record m' { http_seeds = l }) add_http_seed m' m.http_seeds
          (codes "httpseeds") w.d (ap (λ l. record m' { http_seeds = l }) e) (λ ys s. refl)
          (able.new_http) (w.fields (codes "httpseeds") refl refl)))

  read_web_seeds :
      (m' : Metafile)
      → m'.web_seeds ≡ []
      → parse_web_seeds B root m' ≡ ok (record m' { web_seeds = m.web_seeds })
  unfolding parse_web_seeds add_web_seed
  read_web_seeds m' e = rw (w.is_dict) (
      ap catch_access (
        string_list_lem B laws (λ l. record m' { web_seeds = l }) add_web_seed m' m.web_seeds
          (codes "url-list") w.d (ap (λ l. record m' { web_seeds = l }) e) (λ ys s. refl)
          (able.new_web) (w.fields (codes "url-list") refl refl)))

  read_nodes :
      (m' : Metafile)
      → m'.dht_nodes ≡ []
      → parse_dht_nodes B root m' ≡ ok (record m' { dht_nodes = m.dht_nodes })
  unfolding parse_dht_nodes
  read_nodes m' e = rw (w.is_dict) (
      ap catch_access (
        dht_nodes_lem B laws m' m.dht_nodes w.d e (able.new_nodes) (able.ports)
          (w.fields (codes "nodes") refl refl)))

  read_similar :
      (m' : Metafile)
      → m'.similar_torrents ≡ []
      → parse_similar_torrents B root m' ≡ ok (record m' { similar_torrents = m.similar_torrents })
  unfolding parse_similar_torrents
  read_similar m' e =
      rw (w.is_dict, w.has_info, w.info_dict, w.no_similar, able.similar)
        (ap catch_access (
          similar_list_lem B laws m' hashes (codes "similar") w.d e (able.new_similar)
            (able.digests) (w.fields (codes "similar") refl refl)))

  read_name : (m' : Metafile) → parse_name B root m' ≡ ok (record m' { name = name })
  unfolding parse_name set_name
  read_name m' = rw (w.is_dict, w.has_info, w.info_dict, w.name_field, laws.get-string name) refl

  -- The fields of a written metafile that come before the files are read back as they were.
  pub parse_general_lem : parse_general B root new_metafile ≡ ok (general_fields m name)
  unfolding parse_general
  parse_general_lem =
      let m1 = record new_metafile { announce_list = m.announce_list } in
      let m2 = record m1 { is_private = m.is_private } in
      let m3 = record m2 { comment = m.comment } in
      let m4 = record m3 { created_by = m.created_by } in
      let m5 = record m4 { creation_date = m.creation_date } in
      let m6 = record m5 { collections = m.collections } in
      let m7 = record m6 { http_seeds = m.http_seeds } in
      let m8 = record m7 { web_seeds = m.web_seeds } in
      let m9 = record m8 { dht_nodes = m.dht_nodes } in
      let m10 = record m9 { similar_torrents = m.similar_torrents } in
      rw
        (
          read_announce,
          read_private m1 refl,
          read_comment m2 refl,
          read_created_by m3 refl,
          read_date m4 refl,
          read_collections m5 refl,
          read_http_seeds m6 refl,
          read_web_seeds m7 refl,
          read_nodes m8 refl,
          read_similar m9 refl,
          read_name m10,
        )
        refl
