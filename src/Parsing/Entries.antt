-- ===== src/Parsing/Entries.antt =====
-- An entry of the list of files is read back.
use dottorrent.Base.{
  to_i64, ℕ, ◌^◌, ◌<◌, ◌≡◌, refl, Bool, true, false, not, ◌&&◌, Option, none, some, List, [], ◌∷◌,
  ◌++◌, map, Bytes, codes, replicate, ◌==◌, ok, ◌>>=◌, arith, sym, ap, ◌∙◌, Option-cases,
  append-nil, append_assoc, inl, inr, All,
}
use dottorrent.Attributes.{attributes_to_string}
use dottorrent.Attributes.Letters.{make-attributes_to_string}
use dottorrent.Checksum.{is_hash_function_name, make_hash_function, find_name}
use dottorrent.Entry.{FilePath, FileEntry, is_symlink, has_attribute, make_entry, check_invariants}
use dottorrent.Storage.{FileStorage, add_file, add_files}
use dottorrent.Bencode.{Dict, Bencode, IsBencode}
use dottorrent.Parsing.General.{u64-i64}
use dottorrent.Parsing.Paths.{path_append, path_elements, slash_parts, without_slash}
use dottorrent.Parsing.Files.{
  append_all, parse_path, parse_file_name, parse_length, parse_file_attributes, parse_symlink,
  parse_checksums, parse_file_entry_v1, add_entries_v1,
}
use dottorrent.Serialization.{
  strings, number, put_symlink, put_checksums, make_file_info_v1, make_file_list,
}

-- A name of a file or directory: some bytes without a slash.
abbrev pub no_slash : Bytes → Bool
no_slash [] = true
no_slash (c ∷ s) = not (c == b'/') && no_slash s

abbrev pub IsName : Bytes → Type 0
IsName [] = ⊥
IsName (c ∷ s) = no_slash (c ∷ s) ≡ true

slash_parts_name : (part s : Bytes) → no_slash s ≡ true → slash_parts part s ≡ (part ++ s) ∷ []
slash_parts_name part [] h = ap (λ l. l ∷ []) (sym (append-nil part))
slash_parts_name part (c ∷ s) h =
    let other : (c == b'/') ≡ false = ground arith in
    let rest : no_slash s ≡ true = ground arith in
    rw other
      (slash_parts_name (part ++ c ∷ []) s rest ∙ ap (λ l. l ∷ []) (append_assoc part (c ∷ []) s))

path_elements_name : (s : Bytes) → IsName s → path_elements s ≡ s ∷ []
unfolding path_elements
path_elements_name [] h = absurd h
path_elements_name (c ∷ s) h =
    let other : (c == b'/') ≡ false = ground arith in
    let rest : no_slash s ≡ true = ground arith in rw (other, slash_parts_name (c ∷ []) s rest) refl

without_slash_names : (p : FilePath) → All IsName p → without_slash p ≡ p
without_slash_names [] h = refl
without_slash_names ([] ∷ p) (h, hs) = absurd h
without_slash_names ((c ∷ s) ∷ p) (h, hs) = ap (◌∷◌ (c ∷ s)) (without_slash_names p hs)

path_append_name :
    (p : FilePath) (s : Bytes) → All IsName p → IsName s → path_append p s ≡ p ++ s ∷ []
unfolding path_append
path_append_name p [] hs h = absurd h
path_append_name p (c ∷ s) hs h =
    let other : (c == b'/') ≡ false = ground arith in
    let rest : no_slash s ≡ true = ground arith in
    rw (other, without_slash_names p hs, slash_parts_name (c ∷ []) s rest) refl

abbrev pub HasFlags : Option ℕ → Type 0
HasFlags none = Unit
HasFlags (some a) = a < 16

All-snoc : (p : FilePath) (s : Bytes) → All IsName p → IsName s → All IsName (p ++ s ∷ [])
All-snoc [] s hp h = (h, tt)
All-snoc (x ∷ p) s (hx, hp) h = (hx, All-snoc p s hp h)

-- An entry as it is read from a v1 metafile: a regular file without checksums.
pub record IsPlainEntry (e : FileEntry) : Type 0 where
  pub names : All IsName e.path
  pub size : e.file_size < 2 ^ 63
  pub no_link : is_symlink e ≡ false
  pub no_target : e.symlink_path ≡ none
  pub no_checksums : e.checksums ≡ []
  pub no_data : e.has_v2_data ≡ false
  pub no_root : e.root_hash ≡ replicate 32 0
  pub no_layer : e.layer ≡ []
  pub no_time : e.last_modified_time ≡ none
  pub flags : HasFlags e.attributes

module _ {V : Type 0} (B : Bencode V) (laws : IsBencode B) where
  pub append_all_names :
      (p q : FilePath) → All IsName p → All IsName q → append_all B p (map B.string q) ≡ ok (p ++ q)
  unfolding append_all
  append_all_names p [] hp hq = ap ok (sym (append-nil p))
  append_all_names p (s ∷ q) hp (h, hq) =
      rw (laws.get_as-string s, path_append_name p s hp h)
        (append_all_names (p ++ s ∷ []) q (All-snoc p s hp h) hq
          ∙ ap ok (append_assoc p (s ∷ []) q))

  -- Keys that are not the name of a hash function.
  abbrev pub no_hashes : Dict V → Bool
  no_hashes [] = true
  no_hashes ((k, v) ∷ d) = not (is_hash_function_name k) && no_hashes d

  parse_no_checksums :
      (d : Dict V) (e : FileEntry) → no_hashes d ≡ true → parse_checksums B d e ≡ ok e
  unfolding parse_checksums
  parse_no_checksums [] e h = refl
  parse_no_checksums ((k, v) ∷ d) e h =
      let other : is_hash_function_name k ≡ false = ground arith in
      let rest : no_hashes d ≡ true = ground arith in rw other (parse_no_checksums d e rest)

  -- The fields of an entry.
  abbrev pub entry_fields : FilePath → ℕ → Option ℕ → Dict V
  entry_fields p n none = (codes "length", number B n) ∷ (codes "path", strings B p) ∷ []
  entry_fields p n (some a) =
      (codes "attr", B.string (attributes_to_string a))
      ∷ (codes "length", number B n)
      ∷ (codes "path", strings B p)
      ∷ []

  make_file_info_v1_lem :
      (e : FileEntry)
      → is_symlink e ≡ false
      → e.checksums ≡ []
      → make_file_info_v1 B e ≡ ok (B.dict (entry_fields e.path e.file_size e.attributes))
  unfolding make_file_info_v1 put_symlink put_checksums
  make_file_info_v1_lem e link sums = elim (Option-cases e.attributes) [
    | inl empty ↦ rw (link, sums, empty) refl
    | inr (a, full) ↦ rw (link, sums, full) refl
  ]

  read_path :
      (p : FilePath) (n : ℕ) (a : Option ℕ)
      → All IsName p
      → parse_file_name B (entry_fields p n a) ≡ ok p
  unfolding parse_file_name parse_path
  read_path p n none names = rw (laws.get-list (map B.string p)) (append_all_names [] p tt names)
  read_path p n (some a) names =
      rw (laws.get-list (map B.string p)) (append_all_names [] p tt names)

  read_length :
      (p : FilePath) (n : ℕ) (a : Option ℕ)
      → n < 2 ^ 63
      → parse_length B (entry_fields p n a) ≡ ok n
  read_length p n none small = rw (laws.get-integer (to_i64 n)) (ap ok (u64-i64 n small))
  read_length p n (some a) small = rw (laws.get-integer (to_i64 n)) (ap ok (u64-i64 n small))

  read_attributes :
      (p : FilePath) (n : ℕ) (a : Option ℕ)
      → HasFlags a
      → parse_file_attributes B (entry_fields p n a) ≡ ok a
  unfolding parse_file_attributes
  read_attributes p n none flags = refl
  read_attributes p n (some a) flags =
      rw (laws.get-string (attributes_to_string a), make-attributes_to_string a flags) refl

  read_symlink :
      (p : FilePath) (n : ℕ) (a : Option ℕ) → parse_symlink B (entry_fields p n a) ≡ ok none
  unfolding parse_symlink
  read_symlink p n none = refl
  read_symlink p n (some a) = refl

  read_checksums :
      (p : FilePath) (n : ℕ) (a : Option ℕ) (e : FileEntry)
      → parse_checksums B (entry_fields p n a) e ≡ ok e
  unfolding is_hash_function_name make_hash_function find_name
  read_checksums p n none e = parse_no_checksums _ e refl
  read_checksums p n (some a) e = parse_no_checksums _ e refl

  same_entry :
      (e : FileEntry) → IsPlainEntry e → make_entry e.path e.file_size e.attributes none ≡ ok e
  unfolding make_entry check_invariants is_symlink has_attribute
  same_entry e plain = rw plain.no_link (λ i. ok (record e {
    checksums = sym plain.no_checksums i;
    has_v2_data = sym plain.no_data i;
    root_hash = sym plain.no_root i;
    layer = sym plain.no_layer i;
    symlink_path = sym plain.no_target i;
    last_modified_time = sym plain.no_time i;
  }))

  abbrev pub entry_value : FileEntry → V
  entry_value e = B.dict (entry_fields e.path e.file_size e.attributes)

  parse_entry_value :
      (e : FileEntry) → IsPlainEntry e → parse_file_entry_v1 B (entry_value e) ≡ ok e
  unfolding parse_file_entry_v1
  parse_entry_value e plain =
      let d = entry_fields e.path e.file_size e.attributes in
      rw
        (
          laws.get-dict d,
          read_path e.path e.file_size e.attributes plain.names,
          read_length e.path e.file_size e.attributes plain.size,
          read_attributes e.path e.file_size e.attributes plain.flags,
          read_symlink e.path e.file_size e.attributes,
          same_entry e plain,
        )
        (read_checksums e.path e.file_size e.attributes e)

  pub make_file_list_lem :
      (es : List FileEntry) → All IsPlainEntry es → make_file_list B es ≡ ok (map entry_value es)
  unfolding make_file_list
  make_file_list_lem [] plain = refl
  make_file_list_lem (e ∷ es) (p, plain) =
      rw (make_file_info_v1_lem e p.no_link p.no_checksums, make_file_list_lem es plain) refl

  pub add_entries_lem :
      (s : FileStorage) (es : List FileEntry)
      → All IsPlainEntry es
      → add_entries_v1 B s (map entry_value es) ≡ ok (add_files s es)
  unfolding add_entries_v1 add_files
  add_entries_lem s [] plain = refl
  add_entries_lem s (e ∷ es) (p, plain) =
      rw (parse_entry_value e p) (add_entries_lem (add_file s e) es plain)

  -- For regular files without checksums, whose paths are names that are not empty and hold no slash and whose
  -- sizes are below 2^63: the list that is written for `files` is read as these entries, in their order.
  pub add_entries-make_file_list :
      (s : FileStorage) (es : List FileEntry)
      → All IsPlainEntry es
      → make_file_list B es >>= add_entries_v1 B s ≡ ok (add_files s es)
  add_entries-make_file_list s es plain =
      rw (make_file_list_lem es plain) (add_entries_lem s es plain)
