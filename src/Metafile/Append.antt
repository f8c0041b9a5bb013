-- ===== src/Metafile/Append.antt =====
-- The last entry of an ordered list of trackers, and the first one.
use dottorrent.Base.{
  ℕ, suc, ◌+◌, ◌≤◌, ◌≡◌, refl, true, false, not, none, List, [], ◌∷◌, ◌++◌, map, Bytes, take, drop,
  ◌-◌, get_elem?, leb, ltb, bytes_eq, ok, arith, sym, ap, ◌∙◌, subst, ◌⊎◌,
}
use dottorrent.Announce.{
  AnnounceUrl, bytes_lt, announce_lt, partition_point, tier_count, insert, insert_at, find_url,
  find_if, contains_url, contains_tier, contains_from, binary_search, get_tier, get_tier_begin,
  get_tier_end,
}
use dottorrent.Announce.Order.{IsOrdered, ordered_from, bytes_le_trans, tier_count_lem}
use dottorrent.Announce.Order.{tiers_from as tiers_behind}
use dottorrent.Metafile.{member, add_announce}
use dottorrent.Metafile.Seeds.{all_differ, bytes_eq_sym}

abbrev pub urls : List AnnounceUrl → List Bytes
urls xs = map (λ a. a.url) xs

-- What follows an entry in an ordered list is not below it.
follows :
    (x : AnnounceUrl) (n : ℕ) (u : Bytes) (ys : List AnnounceUrl) (y : AnnounceUrl)
    (zs : List AnnounceUrl)
    → suc x.tier ≤ n
    → (suc x.tier ≡ n → bytes_lt u x.url ≡ false)
    → ordered_from n u (ys ++ y ∷ zs) ≡ true
    → announce_lt y x ≡ false
unfolding ordered_from announce_lt
follows x n u [] y zs le last h = ground (arith, bytes_le_trans x.url u y.url)
follows x n u (z ∷ ys) y zs le last h =
    let rest : ordered_from (suc z.tier) z.url (ys ++ y ∷ zs) ≡ true = ground arith in
    let up : suc x.tier ≤ suc z.tier = ground arith in
    let back : suc x.tier ≡ suc z.tier → bytes_lt z.url x.url ≡ false =
      λ e. ground (arith, bytes_le_trans x.url u z.url) in
    follows x (suc z.tier) z.url ys y zs up back rest

bytes_lt_irrefl : (s : Bytes) → bytes_lt s s ≡ false
bytes_lt_irrefl [] = refl
bytes_lt_irrefl (c ∷ s) = ground (arith, bytes_lt_irrefl s)

-- The position of a new last entry.
last_place :
    (n : ℕ) (u : Bytes) (xs : List AnnounceUrl) (a : AnnounceUrl) (rest : List AnnounceUrl)
    → ordered_from n u (xs ++ a ∷ rest) ≡ true
    → insert_at (partition_point (λ x. not (announce_lt a x)) xs) a xs ≡ xs ++ a ∷ []
unfolding ordered_from
last_place n u [] a rest h = refl
last_place n u (x ∷ xs) a rest h =
    let tail : ordered_from (suc x.tier) x.url (xs ++ a ∷ rest) ≡ true = ground arith in
    let above =
      follows x (suc x.tier) x.url xs a rest (omega arith) (λ e. bytes_lt_irrefl x.url) tail in
    rw above (ap (◌∷◌ x) (last_place (suc x.tier) x.url xs a rest tail))

small_tier :
    (n : ℕ) (u : Bytes) (xs : List AnnounceUrl) (a : AnnounceUrl) (rest : List AnnounceUrl)
    → ordered_from n u (xs ++ a ∷ rest) ≡ true
    → a.tier ≤ tiers_behind n xs
unfolding ordered_from tiers_behind
small_tier n u [] a rest h = ground arith
small_tier n u (x ∷ xs) a rest h =
    let tail : ordered_from (suc x.tier) x.url (xs ++ a ∷ rest) ≡ true = ground arith in
    small_tier (suc x.tier) x.url xs a rest tail

differs_from :
    (u : Bytes) (xs : List AnnounceUrl) (a : AnnounceUrl) (rest : List AnnounceUrl)
    → member bytes_eq u (urls (xs ++ a ∷ rest)) ≡ false
    → bytes_eq a.url u ≡ false
differs_from u [] a rest h = ground arith
differs_from u (x ∷ xs) a rest h =
    let away : member bytes_eq u (urls (xs ++ a ∷ rest)) ≡ false = ground arith in
    differs_from u xs a rest away

not_found :
    (xs : List AnnounceUrl) (a : AnnounceUrl) (rest : List AnnounceUrl)
    → all_differ (urls (xs ++ a ∷ rest)) ≡ true
    → get_elem? xs (find_if (λ x. bytes_eq x.url a.url) xs) ≡ none
not_found [] a rest h = refl
not_found (x ∷ xs) a rest h =
    let others : all_differ (urls (xs ++ a ∷ rest)) ≡ true = ground arith in
    let away : member bytes_eq x.url (urls (xs ++ a ∷ rest)) ≡ false = ground arith in
    rw (bytes_eq_sym x.url a.url ∙ differs_from x.url xs a rest away) (not_found xs a rest others)

-- The next entry of an ordered list of trackers is put behind those that come before it.
pub add_announce-next :
    (xs : List AnnounceUrl) (a : AnnounceUrl) (rest : List AnnounceUrl)
    → IsOrdered (xs ++ a ∷ rest)
    → all_differ (urls (xs ++ a ∷ rest)) ≡ true
    → add_announce xs a ≡ ok (xs ++ a ∷ [])
unfolding add_announce insert find_url
add_announce-next xs a rest ordered differ =
    let small : leb a.tier (tier_count xs) ≡ true =
      ground (arith, tier_count_lem xs, small_tier 0 [] xs a rest ordered) in
    rw (small, not_found xs a rest differ, small, last_place 0 [] xs a rest ordered) refl

-- Behind an entry comes one of its tier or of the next.
pub next_tier :
    (n : ℕ) (u : Bytes) (xs : List AnnounceUrl) (y z : AnnounceUrl) (zs : List AnnounceUrl)
    → ordered_from n u (xs ++ y ∷ z ∷ zs) ≡ true
    → (z.tier ≡ y.tier) ⊎ (z.tier ≡ suc y.tier)
unfolding ordered_from
next_tier n u [] y z zs h = ground arith
next_tier n u (x ∷ xs) y z zs h =
    let tail : ordered_from (suc x.tier) x.url (xs ++ y ∷ z ∷ zs) ≡ true = ground arith in
    next_tier (suc x.tier) x.url xs y z zs tail

slice_first :
    (first n k : ℕ) (u : Bytes) (xs : List AnnounceUrl)
    → first ≡ 0
    → n ≡ suc k
    → binary_search
        (λ x. bytes_lt x.url u)
        (λ x. bytes_lt u x.url)
        (take n (drop first (record { url = u; tier = 0 } ∷ xs)))
      ≡ true
slice_first first n k u xs e e' = rw (e, e', bytes_lt_irrefl u) refl

contains_tier_first :
    (u : Bytes) (xs : List AnnounceUrl)
    → contains_tier (record { url = u; tier = 0 } ∷ xs) u 0 ≡ true
unfolding contains_tier get_tier get_tier_begin get_tier_end
contains_tier_first u xs =
    let k = partition_point (λ a. not (ltb 0 a.tier)) xs in
    slice_first 0 (suc k - 0) k u xs refl (omega arith)

found_early :
    (n k : ℕ) (u : Bytes) (xs : List AnnounceUrl)
    → n ≡ suc k
    → contains_tier xs u 0 ≡ true
    → contains_from xs u 0 n ≡ true
found_early n k u xs e h = rw (e, h) refl

-- The search finds the first url.
pub contains_first :
    (a : AnnounceUrl) (xs : List AnnounceUrl) → a.tier ≡ 0 → contains_url (a ∷ xs) a.url ≡ true
unfolding contains_url
contains_first a xs e =
    let here : contains_tier (a ∷ xs) a.url 0 ≡ true =
      subst (λ t. contains_tier (record { url = a.url; tier = t } ∷ xs) a.url 0 ≡ true) (sym e)
        (contains_tier_first a.url xs) in
    found_early (tier_count (a ∷ xs) + 1) (tier_count (a ∷ xs)) a.url (a ∷ xs) (omega arith) here
