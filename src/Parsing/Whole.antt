-- ===== src/Parsing/Whole.antt =====
-- A whole v1 torrent with several files: what the printer makes of it, the parser reads back.
use dottorrent.Base.{
  pos, to_i64, ℕ, ◌*◌, ◌^◌, ◌<◌, ◌≤◌, ◌≡◌, refl, true, false, none, List, [], ◌∷◌, map, Bytes,
  codes, length, leb, ◌==◌, if◌then◌else◌, ok, ◌>>=◌, arith, ◌∙◌, Bool-cases, inl, inr, All,
}
use dottorrent.Attributes.{multi, v1}
use dottorrent.Storage.{
  FileStorage, file_mode, add_files, set_file_mode, set_piece_size, has_single_bit, piece_count,
}
use dottorrent.Announce.{AnnounceUrl}
use dottorrent.Metafile.{Metafile, set_source}
use dottorrent.Bencode.{
  Dict, Bencode, IsBencode, find_key, insert_or_assign, find_key-insert_self, find_key-insert_other,
}
use dottorrent.Parsing.{parse_source, parse_other_info_fields, parse_protocol}
use dottorrent.Parsing.Known.{fields_known, put_all-known, other_fields-known}
use dottorrent.Parsing.Files.{parse_file_list_v1, parse_piece_size, parse_pieces_v1}
use dottorrent.Parsing.Torrent.{empty_storage, parse_v1, parse_metafile}
use dottorrent.Parsing.General.{u64-i64, string_field_lem}
use dottorrent.Parsing.Entries.{IsPlainEntry, entry_value, make_file_list_lem, add_entries_lem}
use dottorrent.Parsing.Pieces.{IsSha1, set_pieces-make_v1_pieces_string}
use dottorrent.Parsing.Read.{IsWritable, IsWritten, general_fields, parse_general_lem}
use dottorrent.Serialization.{
  is_filled, number, filename, make_v1_pieces_string, put_files_v1, put_files_in_mode, put_last,
  make_bvalue_infodict_v1,
}
use dottorrent.Serialization.Torrents.{make_bvalue_v1}
use dottorrent.Serialization.Fields.{
  Field, lookup, put_all, find_key-put_all, common_fields, make_bvalue_common_lem,
}

-- The name that is written.
abbrev pub written_name : Metafile → Bytes
written_name m = if is_filled m.name then m.name else filename m.storage.root_directory

-- The storage that is read: the same files, piece size and pieces, in a new storage.
abbrev pub read_files : Metafile → FileStorage
read_files m = record (set_file_mode (add_files empty_storage m.storage.files) multi) {
  piece_size = m.storage.piece_size;
}

abbrev pub read_storage : Metafile → FileStorage
read_storage m = record (read_files m) { pieces = m.storage.pieces }

abbrev pub read_metafile : Metafile → Metafile
read_metafile m = record (general_fields m (written_name m)) {
  storage = read_storage m;
  source = m.source;
}

-- A v1 torrent of at least two regular files, with its hashes, that is written without an entry for cross seeding.
pub record IsPlainTorrent (m : Metafile) (hashes : List Bytes) : Type 0 where
  pub writable : IsWritable m hashes
  pub two_files : 2 ≤ length m.storage.files
  pub entries : All IsPlainEntry m.storage.files
  pub size_min : 16 * 1024 ≤ m.storage.piece_size
  pub size_power : has_single_bit m.storage.piece_size ≡ true
  pub size_max : m.storage.piece_size < 2 ^ 63
  pub digests : All IsSha1 m.storage.pieces
  pub all_pieces : length m.storage.pieces ≡ piece_count (read_files m)
  pub no_cross_seeding : m.enable_cross_seeding ≡ false

module _ {V : Type 0} (B : Bencode V) where
  -- The fields of the info dictionary.
  abbrev info_fields : (List AnnounceUrl → Bytes) → Metafile → List V → List (Field V)
  info_fields cross_seed m files =
      (true, (codes "files", B.list files))
      ∷ (true, (codes "name", B.string (written_name m)))
      ∷ (true, (codes "piece length", number B m.storage.piece_size))
      ∷ (true, (codes "pieces", B.string (make_v1_pieces_string m.storage)))
      ∷ (m.is_private, (codes "private", B.integer (pos 1)))
      ∷ (is_filled m.source, (codes "source", B.string m.source))
      ∷ (m.enable_cross_seeding, (codes "cross_seed_entry", B.string (cross_seed m.announce_list)))
      ∷ []

several_files : (s : FileStorage) → 2 ≤ length s.files → file_mode s ≡ multi
unfolding file_mode
several_files s two =
    let first : (length s.files == 0) ≡ false = ground arith in
    let second : (length s.files == 1) ≡ false = ground arith in rw (first, second) refl

module _ {V : Type 0} (B : Bencode V) (laws : IsBencode B) (cross_seed : List AnnounceUrl → Bytes)
    (m : Metafile) (hashes : List Bytes) (able : IsPlainTorrent m hashes) where
  files : List V
  files = map (entry_value B laws) m.storage.files

  info : Dict V
  info = put_all B (info_fields B cross_seed m files) []

  d : Dict V
  d = insert_or_assign (codes "info") (B.dict info) (put_all B (common_fields B m hashes) [])

  info_made : make_bvalue_infodict_v1 B cross_seed m [] ≡ ok info
  unfolding make_bvalue_infodict_v1 put_files_v1 put_files_in_mode put_last info files
  info_made =
      rw
        (
          several_files m.storage able.two_files,
          make_file_list_lem B laws m.storage.files able.entries,
        )
        refl

  made : make_bvalue_v1 B cross_seed m [] ≡ ok (B.dict d)
  unfolding make_bvalue_v1 d
  made = rw (make_bvalue_common_lem B m hashes able.writable.similar, info_made) refl

  in_info : (key : Bytes) → find_key key info ≡ lookup B key (info_fields B cross_seed m files) none
  unfolding info
  in_info key = find_key-put_all B key (info_fields B cross_seed m files) []

  written : IsWritten B (B.dict d) m hashes (written_name m)
  unfolding d
  written = record {
    d = d;
    info_value = B.dict info;
    info = info;
    is_dict = laws.get-dict d;
    fields = λ key other layers.
        find_key-insert_other (codes "info") key (B.dict info)
          (put_all B (common_fields B m hashes) []) other
        ∙ find_key-put_all B key (common_fields B m hashes) [];
    has_info =
        find_key-insert_self (codes "info") (B.dict info) (put_all B (common_fields B m hashes) []);
    info_dict = laws.get-dict info;
    private_field = in_info (codes "private");
    name_field = in_info (codes "name");
    no_collections = in_info (codes "collections");
    no_similar = in_info (codes "similar");
  }

  read_protocol : parse_protocol B (B.dict d) ≡ ok v1
  unfolding parse_protocol written
  read_protocol =
      rw (written.is_dict, written.has_info, written.info_dict, in_info (codes "meta version")) refl

  abbrev general : Metafile
  general = general_fields m (written_name m)

  read_list :
      parse_file_list_v1 B (B.dict d) general
      ≡ ok (record general {
        storage = set_file_mode (add_files empty_storage m.storage.files) multi;
      })
  unfolding parse_file_list_v1 files written set_file_mode
  read_list =
      rw
        (
          written.is_dict,
          written.has_info,
          written.info_dict,
          in_info (codes "files"),
          laws.get-list files,
          add_entries_lem B laws empty_storage m.storage.files able.entries,
        )
        refl

  abbrev sized : Metafile
  sized = record general { storage = read_files m }

  read_size :
      parse_piece_size B
        (B.dict d)
        (record general { storage = set_file_mode (add_files empty_storage m.storage.files) multi })
      ≡ ok sized
  unfolding parse_piece_size set_piece_size written set_file_mode
  read_size =
      let big : leb (16 * 1024) m.storage.piece_size ≡ true = ground (arith, able.size_min) in
      rw
        (
          written.is_dict,
          written.has_info,
          written.info_dict,
          in_info (codes "piece length"),
          laws.get-integer (to_i64 m.storage.piece_size),
          u64-i64 m.storage.piece_size able.size_max,
          big,
          able.size_power,
        )
        refl

  abbrev hashed : Metafile
  hashed = record general { storage = read_storage m }

  read_pieces : parse_pieces_v1 B (B.dict d) sized ≡ ok hashed
  unfolding parse_pieces_v1 written set_file_mode
  read_pieces =
      rw
        (
          written.is_dict,
          written.has_info,
          written.info_dict,
          in_info (codes "pieces"),
          laws.get-string (make_v1_pieces_string m.storage),
          set_pieces-make_v1_pieces_string m.storage (read_files m) able.digests able.all_pieces,
        )
        refl

  read_source : parse_source B (B.dict d) hashed ≡ ok (read_metafile m)
  unfolding parse_source set_source written info
  read_source =
      rw (written.is_dict, written.has_info, written.info_dict)
        (string_field_lem B laws (codes "source") info hashed set_source m.source
          (in_info (codes "source")) refl)

  read_other : parse_other_info_fields B (B.dict d) [] ≡ ok []
  unfolding parse_other_info_fields info written
  read_other =
      let known : fields_known B (info_fields B cross_seed m files) ≡ true =
        rw able.no_cross_seeding (elim (Bool-cases m.is_private) [
          | inl flag ↦
              rw flag
                (elim (Bool-cases (is_filled m.source)) [ inl f ↦ rw f refl | inr f ↦ rw f refl ])
          | inr flag ↦
              rw flag
                (elim (Bool-cases (is_filled m.source)) [ inl f ↦ rw f refl | inr f ↦ rw f refl ])
        ]) in
      rw
        (
          written.is_dict,
          written.has_info,
          written.info_dict,
          other_fields-known B [] info
              (put_all-known B (info_fields B cross_seed m files) [] known refl),
        )
        refl

  -- A metafile of at least two regular files without checksums, v2 data and times, whose paths are names that are
  -- not empty and hold no slash; with ordered trackers of different urls, no element twice in its other lists,
  -- ports of 16 bits and similar torrents of one digest each; with a date below 2^63 nanoseconds, which the clock of
  -- the system holds, with sizes below 2^63, a piece size that is
  -- a power of two of at least 16 KiB and a digest of 20 bytes for each piece; without cross seeding and other
  -- info fields. The bencode value that is made of it as a v1 torrent is parsed, for any number of rounds, as a
  -- metafile with the same trackers, seeds, nodes, similar torrents, collections and plain fields, the name that
  -- was written, a new storage with the same files, piece size and hashes, and no other info fields.
  pub parse_metafile-make_bvalue_v1 :
      (rounds : ℕ)
      → make_bvalue_v1 B cross_seed m [] >>= parse_metafile B rounds
        ≡ ok (record { metafile = read_metafile m; other_info_fields = [] })
  unfolding parse_metafile parse_v1
  parse_metafile-make_bvalue_v1 rounds =
      rw
        (
          made,
          read_protocol,
          parse_general_lem B laws (B.dict d) m hashes (written_name m) able.writable written,
          read_list,
          read_size,
          read_pieces,
          read_source,
          read_other,
        )
        refl
