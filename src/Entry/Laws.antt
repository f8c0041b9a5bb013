-- ===== src/Entry/Laws.antt =====
-- The accessors of an entry: the v2 data, the checksums, and what the constructor accepts.
use dottorrent.Base.{
  ◌≡◌, refl, sym, ap, ◌∙◌, Option, none, some, Bytes, Bool-cases, inl, inr, if◌then◌else◌, bytes_eq,
  bytes_eq-eq,
}
use dottorrent.Entry.{FileEntry, find_checksum, get_checksum, add_checksum}

-- The value that an `emplace` leaves: the old one if there is one.
abbrev pub old_or_new : Option Bytes → Bytes → Bytes
old_or_new none value = value
old_or_new (some old) value = old

-- Behind `add_checksum`, its name is found with the checksum that was there before, or else with the new
-- one; each other name is found as before.
pub get-add_checksum :
    (e : FileEntry) (name value other : Bytes)
    → get_checksum (add_checksum e name value) other ≡ (
        if bytes_eq name other
        then some (old_or_new (get_checksum e name) value)
        else get_checksum e other)
unfolding add_checksum get_checksum find_checksum
get-add_checksum e name value other = by_old (find_checksum name e.checksums) refl
  where
    by_old :
        (o : Option Bytes)
        → find_checksum name e.checksums ≡ o
        → get_checksum (add_checksum e name value) other ≡ (
            if bytes_eq name other
            then some (old_or_new (get_checksum e name) value)
            else get_checksum e other)
    by_old none h = rw h refl
    by_old (some old) h = elim (Bool-cases (bytes_eq name other)) [
      | inl same ↦
          rw (h, same)
            (ap (λ k. find_checksum k e.checksums) (sym (bytes_eq-eq name other same)) ∙ h)
      | inr differ ↦ rw (h, differ) refl
    ]
