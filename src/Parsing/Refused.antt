-- ===== src/Parsing/Refused.antt =====
-- Lists of trackers that the parser does not take.
use dottorrent.Base.{◌≡◌, refl, some, List, [], ◌∷◌, map, Bytes, codes, violation}
use dottorrent.Announce.{tier_count}
use dottorrent.Metafile.{Metafile, add_announce, add_tracker}
use dottorrent.Bencode.{Dict, Bencode, IsBencode, find_key}
use dottorrent.Parsing.{parse_announce, parse_tiers, parse_tier, each_string}
use dottorrent.Serialization.{strings}

-- The first url of the second tier, while there is no tracker.
second_tier :
    (m : Metafile) (url : Bytes) → m.announce_list ≡ [] → add_tracker m url (some 1) ≡ violation
unfolding add_tracker add_announce tier_count
second_tier m url none_yet = rw none_yet refl

-- A metafile without trackers fails a check of its list of trackers where `announce-list` begins with an empty
-- tier and has a url in the next one.
pub parse_announce-empty_tier :
    {V : Type 0} (B : Bencode V) (laws : IsBencode B) (root : V) (d : Dict V) (m : Metafile)
    (url : Bytes) (urls : List Bytes) (tiers : List V)
    → m.announce_list ≡ []
    → B.get_dict root ≡ some d
    → find_key (codes "announce-list") d
      ≡ some (B.list (strings B [] ∷ strings B (url ∷ urls) ∷ tiers))
    → parse_announce B root m ≡ violation
unfolding parse_announce parse_tiers parse_tier each_string
parse_announce-empty_tier B laws root d m url urls tiers none_yet is_dict here =
    rw
      (
        is_dict,
        here,
        laws.get-list (strings B [] ∷ strings B (url ∷ urls) ∷ tiers),
        laws.get-list [],
        laws.get-list (map B.string (url ∷ urls)),
        laws.get-string url,
        second_tier m url none_yet,
      )
      refl
