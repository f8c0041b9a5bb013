-- ===== src/Announce/Insert.antt =====
-- `insert` and `emplace` keep the order, and do the same.
use dottorrent.Base.{
  ℕ, suc, ◌+◌, ◌-◌, ◌≤◌, ◌<◌, ◌≡◌, refl, Bool, true, false, not, ◌&&◌, ◌||◌, List, [], ◌∷◌, arith,
  Bytes, ltb, leb, ◌==◌, if◌then◌else◌, Bool-cases, inl, inr, ap, ok, take, drop, some, get_elem?,
}
use dottorrent.Announce.{
  AnnounceUrl, bytes_lt, announce_lt, tier_count, partition_point, insert_at, erase_at, insert,
  emplace, get_tier, get_tier_begin, get_tier_end,
}
use dottorrent.Announce.Order.{bytes_lt_asym, ordered_from, IsOrdered, tiers_from, tier_count_lem}

-- Insertion by recursion on the list.
pub put : AnnounceUrl → List AnnounceUrl → List AnnounceUrl
put a [] = a ∷ []
put a (x ∷ xs) = if announce_lt a x then a ∷ x ∷ xs else x ∷ put a xs

insert_at-partition_point :
    (a : AnnounceUrl) (xs : List AnnounceUrl)
    → insert_at (partition_point (λ x. not (announce_lt a x)) xs) a xs ≡ put a xs
unfolding put
insert_at-partition_point a [] = refl
insert_at-partition_point a (x ∷ xs) = elim (Bool-cases (announce_lt a x)) [
  | inl e ↦ rw e refl
  | inr e ↦ rw e (ap (λ ys. x ∷ ys) (insert_at-partition_point a xs))
]

-- An entry fits behind an entry of the tier before `n`.
abbrev fits : ℕ → Bytes → AnnounceUrl → Bool
fits n u a = (suc a.tier == n && not (bytes_lt a.url u)) || leb n a.tier

put-ordered :
    (a : AnnounceUrl) (n : ℕ) (u : Bytes) (xs : List AnnounceUrl)
    → ordered_from n u xs ≡ true
    → fits n u a ≡ true
    → a.tier ≤ tiers_from n xs
    → ordered_from n u (put a xs) ≡ true
unfolding put ordered_from tiers_from announce_lt
put-ordered a n u [] h room small = ground arith
put-ordered a n u (x ∷ xs) h room small =
    ground (arith, put-ordered a (suc x.tier) x.url xs, bytes_lt_asym a.url x.url)

-- Where the entry stands behind the insertion.
put-place :
    (a : AnnounceUrl) (xs : List AnnounceUrl)
    → (pos : ℕ) × (erase_at pos (put a xs) ≡ xs) × (get_elem? (put a xs) pos ≡ some a)
unfolding put
put-place a [] = (0, refl, refl)
put-place a (x ∷ xs) = elim (Bool-cases (announce_lt a x)) [
  | inl e ↦ (0, rw e refl, rw e refl)
  | inr e ↦
      let (pos, others, here) = put-place a xs in
      (suc pos, rw e (ap (λ ys. x ∷ ys) others), rw e here)
]

insert-put :
    (xs : List AnnounceUrl) (a : AnnounceUrl) → a.tier ≤ tier_count xs → insert xs a ≡ ok (put a xs)
unfolding insert
insert-put xs a small =
    let accepted : leb a.tier (tier_count xs) ≡ true = ground arith in
    rw accepted (ap ok (insert_at-partition_point a xs))

pub put-IsOrdered :
    (xs : List AnnounceUrl) (a : AnnounceUrl)
    → IsOrdered xs
    → a.tier ≤ tier_count xs
    → IsOrdered (put a xs)
put-IsOrdered xs a ordered small =
    put-ordered a 0 [] xs ordered (ground arith) (omega (arith, tier_count_lem xs))

-- An entry of one of the tiers of an ordered list, or of the tier behind them, is inserted: it stands in
-- the new list, the other entries are the old list in its order, and the new list is ordered.
pub insert_lem :
    (xs : List AnnounceUrl) (a : AnnounceUrl)
    → IsOrdered xs
    → a.tier ≤ tier_count xs
    → (pos : ℕ) × (ys : List AnnounceUrl) × (insert xs a ≡ ok ys)
      × (erase_at pos ys ≡ xs)
      × (get_elem? ys pos ≡ some a)
      × IsOrdered ys
insert_lem xs a ordered small =
    let (pos, others, here) = put-place a xs in
    (pos, put a xs, insert-put xs a small, others, here, put-IsOrdered xs a ordered small)

one_less : (m n : ℕ) → suc m - suc n ≡ m - n
one_less m n = omega arith

less_zero : (n : ℕ) → n - 0 ≡ n
less_zero n = omega arith

module _ (url : Bytes) (t : ℕ) where
  abbrev new : AnnounceUrl
  new = record { url = url; tier = t }

  abbrev upper_url : AnnounceUrl → Bool
  upper_url x = not (bytes_lt url x.url)

  abbrev upper_tier : AnnounceUrl → Bool
  upper_tier x = not (ltb t x.tier)

  abbrev lower_tier : AnnounceUrl → Bool
  lower_tier x = ltb x.tier t

  abbrev upper : AnnounceUrl → Bool
  upper x = not (announce_lt new x)

  -- In the tier, only the urls count.
  in_tier :
      (n : ℕ) (u : Bytes) (xs : List AnnounceUrl)
      → ordered_from n u xs ≡ true
      → t < n
      → partition_point upper_url (take (partition_point upper_tier xs) xs)
        ≡ partition_point upper xs
  unfolding ordered_from announce_lt
  in_tier n u [] h below = refl
  in_tier n u (x ∷ xs) h below = ground (arith, in_tier (suc x.tier) x.url xs)

  in_tier_first :
      (x : AnnounceUrl) (xs : List AnnounceUrl)
      → t ≤ x.tier
      → ordered_from (suc x.tier) x.url xs ≡ true
      → partition_point upper_url (take (partition_point upper_tier (x ∷ xs)) (x ∷ xs))
        ≡ partition_point upper (x ∷ xs)
  unfolding announce_lt
  in_tier_first x xs above h = ground (arith, in_tier (suc x.tier) x.url xs)

  slot :
      (n : ℕ) (u : Bytes) (xs : List AnnounceUrl)
      → ordered_from n u xs ≡ true
      → partition_point lower_tier xs
          + partition_point upper_url (
              take
                (partition_point upper_tier xs - partition_point lower_tier xs)
                (drop (partition_point lower_tier xs) xs))
        ≡ partition_point upper xs
  unfolding ordered_from announce_lt
  slot n u [] h = refl
  slot n u (x ∷ xs) h = elim (Bool-cases (ltb x.tier t)) [
    | inl lt ↦
        let not_lower : ltb t x.tier ≡ false = ground arith in
        let other : (t == x.tier) ≡ false = ground arith in
        let rest : ordered_from (suc x.tier) x.url xs ≡ true = ground arith in
        let less = one_less (partition_point upper_tier xs) (partition_point lower_tier xs) in
        rw (lt, not_lower, other) (rw less (omega (arith, slot (suc x.tier) x.url xs rest)))
    | inr ge ↦ rw ge (
        rw (less_zero (partition_point upper_tier (x ∷ xs)))
          (omega (arith, in_tier_first x xs (ground arith) (ground arith))))
  ]

-- On an ordered list, `emplace` does what `insert` does, the failed check included.
pub emplace-insert :
    (xs : List AnnounceUrl) (url : Bytes) (tier : ℕ)
    → IsOrdered xs
    → emplace xs url tier ≡ insert xs (record { url = url; tier = tier })
unfolding emplace insert get_tier get_tier_begin get_tier_end
emplace-insert xs url tier ordered = rw (slot url tier 0 [] xs ordered) refl
