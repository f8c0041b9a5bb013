-- ===== src/Announce.antt =====
-- include/dottorrent/announce_url.hpp, include/dottorrent/announce_url_list.hpp and
-- src/announce_url_list.cpp: the trackers of a torrent, sorted by tier and url. An iterator is its
-- position. The binary searches of the C++ library give the end of the longest prefix that passes their
-- test, which is what the standard says of a range that is partitioned by it; on other ranges they are
-- undefined.
pub mod Order
pub mod Insert
pub mod Erase
pub mod Examples
use dottorrent.Base.{
  ℕ, zero, suc, ◌+◌, ◌-◌, Bool, true, false, not, ◌&&◌, ◌||◌, Option, none, some, List, [], ◌∷◌,
  ◌^◌, ◌++◌, map, Bytes, length, get_elem?, take, drop, ltb, leb, ◌==◌, if◌then◌else◌, Run, ok,
  throws, violation, undefined, ◌>>=◌, ◌>>◌, expects, out_of_range, bytes_eq,
}

-- `lhs < rhs` for strings: in the order of the first byte that differs.
abbrev pub bytes_lt : Bytes → Bytes → Bool
bytes_lt s [] = false
bytes_lt [] (d ∷ t) = true
bytes_lt (c ∷ s) (d ∷ t) = ltb c d || (c == d && bytes_lt s t)

pub record AnnounceUrl : Type 0 where
  pub url : Bytes
  pub tier : ℕ

-- announce_url::operator<=>, as the test `a < b`.
unfoldable pub announce_lt : AnnounceUrl → AnnounceUrl → Bool
announce_lt a b = if a.tier == b.tier then bytes_lt a.url b.url else ltb a.tier b.tier

unfoldable pub announce_eq : AnnounceUrl → AnnounceUrl → Bool
announce_eq a b = bytes_eq a.url b.url && a.tier == b.tier

-- The end of the longest prefix that passes a test.
abbrev pub partition_point : (AnnounceUrl → Bool) → List AnnounceUrl → ℕ
partition_point test [] = 0
partition_point test (x ∷ xs) = if test x then suc (partition_point test xs) else 0

unfoldable pub tier_count : List AnnounceUrl → ℕ
tier_count [] = 0
tier_count (x ∷ []) = x.tier + 1
tier_count (x ∷ y ∷ xs) = tier_count (y ∷ xs)

unfoldable pub get_tier_begin : List AnnounceUrl → ℕ → ℕ
get_tier_begin xs tier = partition_point (λ a. ltb a.tier tier) xs

unfoldable pub get_tier_end : List AnnounceUrl → ℕ → ℕ
get_tier_end xs tier = partition_point (λ a. not (ltb tier a.tier)) xs

unfoldable pub get_tier : List AnnounceUrl → ℕ → ℕ × ℕ
unfolding get_tier_begin get_tier_end
get_tier xs tier = (get_tier_begin xs tier, get_tier_end xs tier)

unfoldable pub tier_size : List AnnounceUrl → ℕ → ℕ
unfolding get_tier
tier_size xs tier = (get_tier xs tier).1 - (get_tier xs tier).0

-- vector::insert and vector::erase.
abbrev pub insert_at : ℕ → AnnounceUrl → List AnnounceUrl → List AnnounceUrl
insert_at zero a xs = a ∷ xs
insert_at (suc pos) a [] = a ∷ []
insert_at (suc pos) a (x ∷ xs) = x ∷ insert_at pos a xs

abbrev pub erase_at : ℕ → List AnnounceUrl → List AnnounceUrl
erase_at pos [] = []
erase_at zero (x ∷ xs) = xs
erase_at (suc pos) (x ∷ xs) = x ∷ erase_at pos xs

unfoldable pub insert : List AnnounceUrl → AnnounceUrl → Run (List AnnounceUrl)
insert xs announce = do
  expects (leb announce.tier (tier_count xs))
  ok (insert_at (partition_point (λ x. not (announce_lt announce x)) xs) announce xs)

unfoldable pub emplace : List AnnounceUrl → Bytes → ℕ → Run (List AnnounceUrl)
emplace xs url tier = do
  expects (leb tier (tier_count xs))
  let first = (get_tier xs tier).0
  let last = (get_tier xs tier).1
  let it =
      first + partition_point (λ x. not (bytes_lt url x.url)) (take (last - first) (drop first xs))
  ok (insert_at it (record { url = url; tier = tier }) xs)

-- --a.tier
abbrev pub decrement : AnnounceUrl → AnnounceUrl
decrement a = record a { tier = if a.tier == 0 then 2 ^ 64 - 1 else a.tier - 1 }

-- Whether the position holds an entry of the tier.
abbrev pub tier_at : ℕ → ℕ → List AnnounceUrl → Bool
tier_at tier pos [] = false
tier_at tier zero (x ∷ xs) = x.tier == tier
tier_at tier (suc pos) (x ∷ xs) = tier_at tier pos xs

-- The entries from a position on, one tier lower.
abbrev pub decrement_from : ℕ → List AnnounceUrl → List AnnounceUrl
decrement_from zero xs = map decrement xs
decrement_from (suc pos) [] = []
decrement_from (suc pos) (x ∷ xs) = x ∷ decrement_from pos xs

-- What `erase` does behind vector::erase: where the next entry has another tier and no entry of the
-- erased one is left, the tiers of the entries from there on go down.
unfoldable pub close_gap : ℕ → ℕ → List AnnounceUrl → List AnnounceUrl
close_gap pos pos_tier ys =
    if ltb pos (length ys)
      && (not (tier_at pos_tier pos ys) && not (tier_at pos_tier (get_tier_begin ys pos_tier) ys))
    then decrement_from pos ys
    else ys

-- erase(iterator)
unfoldable pub erase : List AnnounceUrl → ℕ → Run (List AnnounceUrl)
erase xs pos = do
  expects (leb pos (length xs))
  elim (get_elem? xs pos) [ none ↦ ok xs | some a ↦ ok (close_gap pos a.tier (erase_at pos xs)) ]

-- The first position whose entry passes the test, or the length.
abbrev pub find_if : (AnnounceUrl → Bool) → List AnnounceUrl → ℕ
find_if test [] = 0
find_if test (x ∷ xs) = if test x then 0 else suc (find_if test xs)

unfoldable pub find_url : List AnnounceUrl → Bytes → ℕ
find_url xs url = find_if (λ a. bytes_eq a.url url) xs

-- find(const announce_url&): the search stays in the tier of the value.
unfoldable pub find : List AnnounceUrl → AnnounceUrl → ℕ
find xs value =
    let first = (get_tier xs value.tier).0 in
    let last = (get_tier xs value.tier).1 in
    let it = first + find_if (λ a. announce_eq a value) (take (last - first) (drop first xs)) in
    if it == last then length xs else it

-- erase(const announce_url&)
unfoldable pub erase_announce : List AnnounceUrl → AnnounceUrl → Run (List AnnounceUrl)
erase_announce xs announce =
    let it = find xs announce in if not (it == length xs) then erase xs it else ok xs

-- std::binary_search, with the tests `x < value` and `value < x`.
abbrev pub binary_search : (AnnounceUrl → Bool) → (AnnounceUrl → Bool) → List AnnounceUrl → Bool
binary_search below above [] = false
binary_search below above (x ∷ xs) = if below x then binary_search below above xs else not (above x)

unfoldable pub contains_tier : List AnnounceUrl → Bytes → ℕ → Bool
contains_tier xs url tier =
    let first = (get_tier xs tier).0 in
    let last = (get_tier xs tier).1 in
    binary_search (λ x. bytes_lt x.url url) (λ x. bytes_lt url x.url)
      (take (last - first) (drop first xs))

-- The loop over the tiers, from the one given, with the rounds left.
abbrev pub contains_from : List AnnounceUrl → Bytes → ℕ → ℕ → Bool
contains_from xs url tier zero = false
contains_from xs url tier (suc rounds) =
    if contains_tier xs url tier then true else contains_from xs url (suc tier) rounds

unfoldable pub contains_url : List AnnounceUrl → Bytes → Bool
contains_url xs url = contains_from xs url 0 (tier_count xs + 1)

-- contains(const announce_url&)
unfoldable pub contains : List AnnounceUrl → AnnounceUrl → Bool
contains xs announce = binary_search (λ x. announce_lt x announce) (λ x. announce_lt announce x) xs

-- The constructor from nested lists; each list that it sorts holds one url.
unfoldable pub from_nested : ℕ → List (List Bytes) → List AnnounceUrl
from_nested tier [] = []
from_nested tier (level ∷ il) =
    map (λ url. record { url = url; tier = tier }) level ++ from_nested (suc tier) il

-- The loop of `as_nested_vector`, with the rounds left.
unfoldable pub nested_from : List AnnounceUrl → ℕ → ℕ → List (List Bytes)
nested_from xs idx zero = []
nested_from xs idx (suc rounds) =
    let first = (get_tier xs idx).0 in
    let last = (get_tier xs idx).1 in
    map (λ a. a.url) (take (last - first) (drop first xs)) ∷ nested_from xs (suc idx) rounds

unfoldable pub as_nested_vector : List AnnounceUrl → List (List Bytes)
as_nested_vector announces = nested_from announces 0 (tier_count announces)
