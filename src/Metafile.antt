-- ===== src/Metafile.antt =====
-- src/metafile.cpp: the object that holds the fields of a metafile, and the functions that change them.
-- An unordered set is a list without duplicates, whose order means nothing. The functions that read and
-- write metafiles, and the fields of `info` that they leave over (`other_info_fields_`), are in Parsing and
-- Serialization.
pub mod Trackers
pub mod Seeds
pub mod Append
use dottorrent.Base.{
  ℤ, pos, negsuc, to_u64, ℕ, ◌+◌, ◌*◌, ◌^◌, ltb, Bool, true, false, not, ◌&&◌, ◌||◌, Option, none,
  some, List, [], ◌∷◌, ◌++◌, Bytes, length, get_elem?, leb, ◌==◌, if◌then◌else◌, Run, ok, throws,
  violation, undefined, ◌>>=◌, ◌>>◌, expects, bytes_eq,
}
use dottorrent.Announce.{AnnounceUrl, tier_count, insert, erase, erase_announce, find_url}
use dottorrent.Storage.{FileStorage}
use dottorrent.InfoHash.{InfoHash, info_hash_eq}

pub record DhtNode : Type 0 where
  pub url : Bytes
  pub port : ℕ

unfoldable pub node_eq : DhtNode → DhtNode → Bool
node_eq a b = bytes_eq a.url b.url && a.port == b.port

pub record Metafile : Type 0 where
  pub storage : FileStorage
  pub announce_list : List AnnounceUrl
  pub http_seeds : List Bytes
  pub web_seeds : List Bytes
  pub dht_nodes : List DhtNode
  pub name : Bytes
  pub comment : Bytes
  pub creation_date : ℕ
  pub created_by : Bytes
  pub is_private : Bool
  pub source : Bytes
  pub enable_cross_seeding : Bool
  pub similar_torrents : List InfoHash
  pub collections : List Bytes

-- `announce_list_` after a call that may fail.
abbrev pub with_list : Metafile → Run (List AnnounceUrl) → Run Metafile
with_list m r = do xs ← r; ok (record m { announce_list = xs })

-- The branch of `add_tracker` for a url that is in the list, in another tier or in the same one.
unfoldable pub update_tier : List AnnounceUrl → AnnounceUrl → AnnounceUrl → Run (List AnnounceUrl)
update_tier xs announce old =
    if not (old.tier == announce.tier)
    then (do ys ← insert xs announce; erase_announce ys old)
    else ok xs

-- add_tracker(announce_url)
unfoldable pub add_announce : List AnnounceUrl → AnnounceUrl → Run (List AnnounceUrl)
add_announce xs announce = do
  expects (leb announce.tier (tier_count xs))
  elim (get_elem? xs (find_url xs announce.url)) [
    | some old ↦ update_tier xs announce old
    | none ↦ insert xs announce
  ]

unfoldable pub add_tracker : Metafile → Bytes → Option ℕ → Run Metafile
add_tracker m url tier =
    let t : ℕ = elim tier [ none ↦ tier_count m.announce_list | some t ↦ t ] in
    with_list m (add_announce m.announce_list (record { url = url; tier = t }))

unfoldable pub remove_tracker : Metafile → Bytes → Option ℕ → Run Metafile
remove_tracker m url none =
    let it = find_url m.announce_list url in
    if not (it == length m.announce_list) then with_list m (erase m.announce_list it) else ok m
remove_tracker m url (some tier) =
    with_list m (erase_announce m.announce_list (record { url = url; tier = tier }))

unfoldable pub clear_trackers : Metafile → Metafile
clear_trackers m = record m { announce_list = [] }

-- Adding a value behind the others if none is equal to it, and removing the first one that is.
abbrev pub member {ℓ} : {A : Type ℓ} → (A → A → Bool) → A → List A → Bool
member same v [] = false
member same v (x ∷ xs) = same x v || member same v xs

abbrev pub add_unique {ℓ} : {A : Type ℓ} → (A → A → Bool) → A → List A → List A
add_unique same v xs = if member same v xs then xs else xs ++ v ∷ []

abbrev pub remove_first {ℓ} : {A : Type ℓ} → (A → A → Bool) → A → List A → List A
remove_first same v [] = []
remove_first same v (x ∷ xs) = if same x v then xs else x ∷ remove_first same v xs

unfoldable pub add_http_seed : Metafile → Bytes → Metafile
add_http_seed m url = record m { http_seeds = add_unique bytes_eq url m.http_seeds }

unfoldable pub remove_http_seed : Metafile → Bytes → Metafile
remove_http_seed m url = record m { http_seeds = remove_first bytes_eq url m.http_seeds }

unfoldable pub clear_http_seeds : Metafile → Metafile
clear_http_seeds m = record m { http_seeds = [] }

unfoldable pub add_web_seed : Metafile → Bytes → Metafile
add_web_seed m url = record m { web_seeds = add_unique bytes_eq url m.web_seeds }

unfoldable pub remove_web_seed : Metafile → Bytes → Metafile
remove_web_seed m url = record m { web_seeds = remove_first bytes_eq url m.web_seeds }

unfoldable pub clear_web_seeds : Metafile → Metafile
clear_web_seeds m = record m { web_seeds = [] }

unfoldable pub add_dht_node : Metafile → DhtNode → Metafile
unfolding node_eq
add_dht_node m node = record m { dht_nodes = add_unique node_eq node m.dht_nodes }

unfoldable pub remove_dht_node : Metafile → DhtNode → Metafile
unfolding node_eq
remove_dht_node m node = record m { dht_nodes = remove_first node_eq node m.dht_nodes }

unfoldable pub clear_dht_nodes : Metafile → Metafile
clear_dht_nodes m = record m { dht_nodes = [] }

unfoldable pub add_similar_torrent : Metafile → InfoHash → Metafile
unfolding info_hash_eq
add_similar_torrent m similar_torrent = record m {
  similar_torrents = add_unique info_hash_eq similar_torrent m.similar_torrents;
}

unfoldable pub remove_similar_torrent : Metafile → InfoHash → Metafile
unfolding info_hash_eq
remove_similar_torrent m similar_torrent = record m {
  similar_torrents = remove_first info_hash_eq similar_torrent m.similar_torrents;
}

unfoldable pub clear_similar_torrents : Metafile → Metafile
clear_similar_torrents m = record m { similar_torrents = [] }

unfoldable pub add_collection : Metafile → Bytes → Metafile
add_collection m collection = record m {
  collections = add_unique bytes_eq collection m.collections;
}

unfoldable pub remove_collection : Metafile → Bytes → Metafile
remove_collection m collection = record m {
  collections = remove_first bytes_eq collection m.collections;
}

unfoldable pub clear_collections : Metafile → Metafile
clear_collections m = record m { collections = [] }

-- The fields that are set as they are.
unfoldable pub set_name : Metafile → Bytes → Metafile
set_name m name = record m { name = name }

unfoldable pub set_comment : Metafile → Bytes → Metafile
set_comment m comment = record m { comment = comment }

unfoldable pub set_created_by : Metafile → Bytes → Metafile
set_created_by m created_by = record m { created_by = created_by }

-- The ticks that std::chrono::system_clock has in a second: libstdc++ counts nanoseconds in 64 bits.
abbrev pub ticks_per_second : ℕ
ticks_per_second = 10 ^ 9

-- Whether the ticks of a date fit the clock.
abbrev pub fits_clock : ℤ → Bool
fits_clock (pos n) = ltb (n * ticks_per_second) (2 ^ 63)
fits_clock (negsuc n) = leb ((n + 1) * ticks_per_second) (2 ^ 63)

-- set_creation_date(std::time_t): the date goes to the clock by `from_time_t`, where the overflow of the ticks is
-- undefined, and back to seconds.
unfoldable pub set_creation_date : Metafile → ℤ → Run Metafile
set_creation_date m time =
    if fits_clock time then ok (record m { creation_date = to_u64 time }) else undefined

unfoldable pub set_source : Metafile → Bytes → Metafile
set_source m source = record m { source = source }

unfoldable pub enable_cross_seeding : Metafile → Bool → Metafile
enable_cross_seeding m flag = record m { enable_cross_seeding = flag }

unfoldable pub set_private : Metafile → Bool → Metafile
set_private m flag = record m { is_private = flag }
