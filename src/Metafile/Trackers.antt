-- ===== src/Metafile/Trackers.antt =====
-- `add_tracker`: the list of trackers stays ordered.
use dottorrent.Base.{
  ℕ, zero, suc, ◌+◌, ◌-◌, ◌≤◌, ◌≡◌, ◌⊎◌, refl, take, drop, Bool, true, false, not, some, List, [],
  ◌∷◌, arith, length, get_elem?, leb, ltb, ◌==◌, ok, Bool-cases, Option-cases, inl, inr,
}
use dottorrent.Announce.{
  AnnounceUrl, tier_count, erase_announce, find, find_if, find_url, partition_point, get_tier,
  get_tier_begin, get_tier_end, announce_eq,
}
use dottorrent.Announce.Order.{IsOrdered}
use dottorrent.Announce.Insert.{insert_lem}
use dottorrent.Announce.Erase.{erase_lem}
use dottorrent.Metafile.{add_announce, update_tier}

place_or_end :
    (xs : List AnnounceUrl) (pos : ℕ)
    → pos ≤ length xs
    → ((pos == length xs) ≡ true)
      ⊎ ((a : AnnounceUrl) × ((pos == length xs) ≡ false) × (get_elem? xs pos ≡ some a))
place_or_end [] pos h = inl (ground arith)
place_or_end (x ∷ xs) zero h = inr (x, ground arith, refl)
place_or_end (x ∷ xs) (suc pos) h = elim (place_or_end xs pos (omega arith)) [
  | inl e ↦ inl (ground arith)
  | inr (a, e, here) ↦ inr (a, ground arith, here)
]

partition_point-le :
    (test : AnnounceUrl → Bool) (xs : List AnnounceUrl) → partition_point test xs ≤ length xs
partition_point-le test [] = omega arith
partition_point-le test (x ∷ xs) = ground (arith, partition_point-le test xs)

find_if-le : (test : AnnounceUrl → Bool) (xs : List AnnounceUrl) → find_if test xs ≤ length xs
find_if-le test [] = omega arith
find_if-le test (x ∷ xs) = ground (arith, find_if-le test xs)

slice-le :
    (m n : ℕ) (xs : List AnnounceUrl) → m ≤ length xs → m + length (take n (drop m xs)) ≤ length xs
slice-le zero n xs h = let shorter = take-le n xs in omega arith
  where
    take-le : (n : ℕ) (xs : List AnnounceUrl) → length (take n xs) ≤ length xs
    take-le zero xs = omega arith
    take-le (suc n) [] = omega arith
    take-le (suc n) (x ∷ xs) = omega (arith, take-le n xs)
slice-le (suc m) n [] h = absurd (omega arith)
slice-le (suc m) n (x ∷ xs) h = omega (arith, slice-le m n xs (omega arith))

find-le : (xs : List AnnounceUrl) (a : AnnounceUrl) → find xs a ≤ length xs
unfolding find get_tier get_tier_begin get_tier_end
find-le xs a =
    let first = partition_point (λ x. ltb x.tier a.tier) xs in
    let last = partition_point (λ x. not (ltb a.tier x.tier)) xs in
    let slice = take (last - first) (drop first xs) in
    let within =
      slice-le first (last - first) xs (partition_point-le (λ x. ltb x.tier a.tier) xs) in
    let found = find_if-le (λ x. announce_eq x a) slice in
    elim (Bool-cases (first + find_if (λ x. announce_eq x a) slice == last)) [
      | inl e ↦ rw e (omega arith)
      | inr e ↦ rw e (omega (arith, within, found))
    ]

erase_announce-IsOrdered :
    (xs : List AnnounceUrl) (a : AnnounceUrl)
    → IsOrdered xs
    → (ys : List AnnounceUrl) × (erase_announce xs a ≡ ok ys) × IsOrdered ys
unfolding erase_announce
erase_announce-IsOrdered xs a ordered = elim (place_or_end xs (find xs a) (find-le xs a)) [
  | inl e ↦ (xs, rw e refl, ordered)
  | inr (old, e, here) ↦
      let (ys, done, ordered', urls) = erase_lem xs (find xs a) old ordered (find-le xs a) here in
      (ys, rw e done, ordered')
]

update_tier-IsOrdered :
    (xs : List AnnounceUrl) (a old : AnnounceUrl)
    → IsOrdered xs
    → a.tier ≤ tier_count xs
    → (ys : List AnnounceUrl) × (update_tier xs a old ≡ ok ys) × IsOrdered ys
unfolding update_tier
update_tier-IsOrdered xs a old ordered small = elim (Bool-cases (old.tier == a.tier)) [
  | inl e ↦ (xs, rw e refl, ordered)
  | inr e ↦
      let (pos, ys, done, others, here, ordered') = insert_lem xs a ordered small in
      let (zs, done', ordered'') = erase_announce-IsOrdered ys old ordered' in
      (zs, rw (e, done) done', ordered'')
]

-- On an ordered list of trackers, adding an entry of one of its tiers, or of the tier behind them, returns
-- an ordered list, whether the url is new, is in the tier already, or moves from another tier.
pub add_announce-IsOrdered :
    (xs : List AnnounceUrl) (a : AnnounceUrl)
    → IsOrdered xs
    → a.tier ≤ tier_count xs
    → (ys : List AnnounceUrl) × (add_announce xs a ≡ ok ys) × IsOrdered ys
unfolding add_announce
add_announce-IsOrdered xs a ordered small =
    let accepted : leb a.tier (tier_count xs) ≡ true = ground arith in
    elim (Option-cases (get_elem? xs (find_url xs a.url))) [
      | inl e ↦
          let (pos, ys, done, others, here, ordered') = insert_lem xs a ordered small in
          (ys, rw (accepted, e) done, ordered')
      | inr (old, e) ↦
          let (ys, done, ordered') = update_tier-IsOrdered xs a old ordered small in
          (ys, rw (accepted, e) done, ordered')
    ]
