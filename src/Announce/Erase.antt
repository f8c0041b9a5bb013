-- ===== src/Announce/Erase.antt =====
-- `erase` keeps the order and closes the gap that it leaves between the tiers.
use dottorrent.Base.{
  ℕ, zero, suc, ◌-◌, ◌≤◌, ◌<◌, ◌≡◌, refl, Bool, true, false, not, ◌&&◌, ◌||◌, List, [], ◌∷◌, map,
  arith, Bytes, ltb, leb, ◌==◌, if◌then◌else◌, Bool-cases, inl, inr, ap, sym, subst, ◌∙◌, ok,
  length, some, get_elem?,
}
use dottorrent.Announce.{
  AnnounceUrl, bytes_lt, announce_lt, announce_eq, partition_point, erase_at, erase, get_tier_begin,
  close_gap, tier_at, decrement, decrement_from, contains, binary_search,
}
use dottorrent.Announce.Order.{bytes_lt_asym, bytes_le_trans, bytes_eq-lt, ordered_from, IsOrdered}

-- Whether an entry of the tier is in the list.
abbrev pub any_tier : ℕ → List AnnounceUrl → Bool
any_tier t [] = false
any_tier t (x ∷ xs) = x.tier == t || any_tier t xs

-- Tiers from `m` on that do not go down.
sorted_tiers : ℕ → List AnnounceUrl → Bool
sorted_tiers m [] = true
sorted_tiers m (x ∷ xs) = leb m x.tier && sorted_tiers x.tier xs

ordered-sorted :
    (n : ℕ) (u : Bytes) (xs : List AnnounceUrl)
    → ordered_from n u xs ≡ true
    → sorted_tiers (n - 1) xs ≡ true
unfolding ordered_from sorted_tiers
ordered-sorted n u [] h = refl
ordered-sorted n u (x ∷ xs) h = ground (arith, ordered-sorted (suc x.tier) x.url xs)

sorted-weaken :
    (m k : ℕ) (xs : List AnnounceUrl) → m ≤ k → sorted_tiers k xs ≡ true → sorted_tiers m xs ≡ true
unfolding sorted_tiers
sorted-weaken m k [] le h = refl
sorted-weaken m k (x ∷ xs) le h = ground arith

sorted-erase_at :
    (pos m : ℕ) (xs : List AnnounceUrl)
    → sorted_tiers m xs ≡ true
    → sorted_tiers m (erase_at pos xs) ≡ true
unfolding sorted_tiers
sorted-erase_at pos m [] h = refl
sorted-erase_at zero m (x ∷ xs) h = sorted-weaken m x.tier xs (ground arith) (ground arith)
sorted-erase_at (suc pos) m (x ∷ xs) h = ground (arith, sorted-erase_at pos x.tier xs)

any_tier-above :
    (t m : ℕ) (xs : List AnnounceUrl) → sorted_tiers m xs ≡ true → t < m → any_tier t xs ≡ false
unfolding sorted_tiers
any_tier-above t m [] h lt = refl
any_tier-above t m (x ∷ xs) h lt = ground (arith, any_tier-above t x.tier xs)

-- The binary search for a tier finds an entry of it if there is one.
tier_at-begin :
    (t m : ℕ) (xs : List AnnounceUrl)
    → sorted_tiers m xs ≡ true
    → tier_at t (partition_point (λ a. ltb a.tier t) xs) xs ≡ any_tier t xs
unfolding sorted_tiers
tier_at-begin t m [] h = refl
tier_at-begin t m (x ∷ xs) h = elim (Bool-cases (ltb x.tier t)) [
  | inl lt ↦
      let other : (x.tier == t) ≡ false = ground arith in
      rw (lt, other) (tier_at-begin t x.tier xs (ground arith))
  | inr ge ↦ rw ge (ground (arith, any_tier-above t x.tier xs))
]

ordered-decrement :
    (m : ℕ) (u : Bytes) (xs : List AnnounceUrl)
    → ordered_from (suc (suc m)) u xs ≡ true
    → ordered_from (suc m) u (map decrement xs) ≡ true
unfolding ordered_from
ordered-decrement m u [] h = refl
ordered-decrement m u (x ∷ xs) h =
    let positive : x.tier ≡ suc (x.tier - 1) = ground arith in
    let rest : ordered_from (suc x.tier) x.url xs ≡ true = ground arith in
    let lower =
      ordered-decrement (x.tier - 1) x.url xs
        (subst (λ k. ordered_from (suc k) x.url xs ≡ true) positive rest) in
    ground (arith, lower)

above-first :
    (n pos : ℕ) (u : Bytes) (xs : List AnnounceUrl) (a : AnnounceUrl)
    → ordered_from n u xs ≡ true
    → get_elem? xs pos ≡ some a
    → n ≤ suc a.tier
unfolding ordered_from
above-first n pos u [] a h here = cc
above-first n zero u (x ∷ xs) a h here =
    let same : x ≡ a = cc in ground (arith, ap (λ (y : AnnounceUrl). y.tier) same)
above-first n (suc pos) u (x ∷ xs) a h here =
    ground (arith, above-first (suc x.tier) pos x.url xs a)

-- Whether the tiers go down behind an entry of the tier before `n`.
abbrev gap : ℕ → ℕ → ℕ → List AnnounceUrl → Bool
gap n t pos ys =
    ltb pos (length ys) && (not (tier_at t pos ys) && not (suc t == n || any_tier t ys))

first_erased :
    (n : ℕ) (u : Bytes) (x : AnnounceUrl) (xs : List AnnounceUrl)
    → ordered_from n u (x ∷ xs) ≡ true
    → ordered_from n u (if gap n x.tier 0 xs then map decrement xs else xs) ≡ true
unfolding ordered_from
first_erased n u x [] h = refl
first_erased n u x (y ∷ ys) h = elim (Bool-cases (y.tier == x.tier)) [
  | inl same ↦ rw same (ground (arith, bytes_le_trans u x.url y.url))
  | inr other ↦
      let next : y.tier ≡ suc x.tier = ground arith in
      let rest : ordered_from (suc y.tier) y.url ys ≡ true = ground arith in
      let rest' : ordered_from (suc (suc x.tier)) y.url ys ≡ true =
        subst (λ k. ordered_from (suc k) y.url ys ≡ true) next rest in
      let drop_one : suc y.tier - 1 ≡ y.tier = omega arith in
      let none_left : any_tier x.tier ys ≡ false =
        any_tier-above x.tier y.tier ys
          (subst (λ k. sorted_tiers k ys ≡ true) drop_one
            (ordered-sorted (suc y.tier) y.url ys rest))
          (omega arith) in
      let lower = ordered-decrement x.tier y.url ys rest' in
      let place : y.tier - 1 ≡ x.tier = omega (arith, next) in
      elim (Bool-cases (suc x.tier == n)) [
        | inl before ↦ rw (other, before) (ground (arith, rest))
        | inr apart ↦ rw (other, apart, none_left, place) (ground (arith, lower))
      ]
]

later_erased :
    (n : ℕ) (u : Bytes) (x : AnnounceUrl) (pos : ℕ) (ys : List AnnounceUrl) (c : Bool)
    → (suc x.tier == n && not (bytes_lt x.url u) || x.tier == n) ≡ true
    → ordered_from (suc x.tier) x.url (if c then decrement_from pos ys else ys) ≡ true
    → ordered_from n u (if c then x ∷ decrement_from pos ys else x ∷ ys) ≡ true
unfolding ordered_from
later_erased n u x pos ys true place h = rw (place, h) refl
later_erased n u x pos ys false place h = rw (place, h) refl

longer_gap :
    (n m t pos : ℕ) (x : AnnounceUrl) (ys : List AnnounceUrl)
    → (suc t == n || (x.tier == t || any_tier t ys)) ≡ (suc t == m || any_tier t ys)
    → gap n t (suc pos) (x ∷ ys) ≡ gap m t pos ys
longer_gap n m t pos x ys seen =
    let within : ltb (suc pos) (length (x ∷ ys)) ≡ ltb pos (length ys) = ground arith in
    rw (within, seen) refl

erased :
    (pos n : ℕ) (u : Bytes) (xs : List AnnounceUrl) (a : AnnounceUrl)
    → ordered_from n u xs ≡ true
    → get_elem? xs pos ≡ some a
    → ordered_from n u (
        if gap n a.tier pos (erase_at pos xs)
        then decrement_from pos (erase_at pos xs)
        else erase_at pos xs)
      ≡ true
unfolding ordered_from
erased pos n u [] a h here = cc
erased zero n u (x ∷ xs) a h here =
    let same : x ≡ a = cc in
    subst
      (λ (b : AnnounceUrl).
        ordered_from n u (if gap n b.tier 0 xs then map decrement xs else xs) ≡ true)
      same (first_erased n u x xs h)
erased (suc pos) n u (x ∷ xs) a h here =
    let rest : ordered_from (suc x.tier) x.url xs ≡ true = ground arith in
    let above = above-first (suc x.tier) pos x.url xs a rest here in
    let later = erased pos (suc x.tier) x.url xs a rest here in
    let seen : (suc a.tier == n || (x.tier == a.tier || any_tier a.tier (erase_at pos xs)))
        ≡ (suc a.tier == suc x.tier || any_tier a.tier (erase_at pos xs)) =
      ground (arith, above) in
    let place : (suc x.tier == n && not (bytes_lt x.url u) || x.tier == n) ≡ true = ground arith in
    let same_gap : gap n a.tier (suc pos) (x ∷ erase_at pos xs)
        ≡ gap (suc x.tier) a.tier pos (erase_at pos xs) =
      longer_gap n (suc x.tier) a.tier pos x (erase_at pos xs) seen in
    subst
      (λ c.
        ordered_from n u
          (if c then x ∷ decrement_from pos (erase_at pos xs) else x ∷ erase_at pos xs)
        ≡ true)
      (sym same_gap) (later_erased n u x pos (erase_at pos xs) _ place later)

-- The two outcomes, as `erase` computes them.
close_gap_lem :
    (pos t : ℕ) (ys : List AnnounceUrl)
    → sorted_tiers 0 ys ≡ true
    → close_gap pos t ys ≡ (if gap 0 t pos ys then decrement_from pos ys else ys)
unfolding close_gap get_tier_begin
close_gap_lem pos t ys sorted =
    let first : (suc t == 0) ≡ false = ground arith in rw (first, tier_at-begin t 0 ys sorted) refl

url-decrement_from :
    (pos : ℕ) (ys : List AnnounceUrl)
    → map (λ a. a.url) (decrement_from pos ys) ≡ map (λ a. a.url) ys
url-decrement_from zero [] = refl
url-decrement_from zero (x ∷ xs) = ap (λ us. x.url ∷ us) (url-decrement_from zero xs)
url-decrement_from (suc pos) [] = refl
url-decrement_from (suc pos) (x ∷ xs) = ap (λ us. x.url ∷ us) (url-decrement_from pos xs)

url-if :
    (c : Bool) (pos : ℕ) (ys : List AnnounceUrl)
    → map (λ a. a.url) (if c then decrement_from pos ys else ys) ≡ map (λ a. a.url) ys
url-if true pos ys = url-decrement_from pos ys
url-if false pos ys = refl

erase_run :
    (xs : List AnnounceUrl) (pos : ℕ) (a : AnnounceUrl)
    → pos ≤ length xs
    → get_elem? xs pos ≡ some a
    → erase xs pos ≡ ok (close_gap pos a.tier (erase_at pos xs))
unfolding erase
erase_run xs pos a within here =
    let accepted : leb pos (length xs) ≡ true = ground arith in rw (accepted, here) refl

-- Erasing the entry at a position of an ordered list, one that is sorted with no gap between its
-- tiers, returns an ordered list with the urls of the other entries, in their order.
pub erase_lem :
    (xs : List AnnounceUrl) (pos : ℕ) (a : AnnounceUrl)
    → IsOrdered xs
    → pos ≤ length xs
    → get_elem? xs pos ≡ some a
    → (ys : List AnnounceUrl) × (erase xs pos ≡ ok ys)
      × IsOrdered ys
      × (map (λ x. x.url) ys ≡ map (λ x. x.url) (erase_at pos xs))
erase_lem xs pos a ordered within here =
    let closed =
      close_gap_lem pos a.tier (erase_at pos xs)
        (sorted-erase_at pos 0 xs (ordered-sorted 0 [] xs ordered)) in
    let c = gap 0 a.tier pos (erase_at pos xs) in
    (
      (if c then decrement_from pos (erase_at pos xs) else erase_at pos xs),
      erase_run xs pos a within here ∙ ap ok closed,
      erased pos 0 [] xs a ordered here,
      url-if c pos (erase_at pos xs),
    )

-- Whether an entry is in the list, by comparing with each.
abbrev pub any_eq : AnnounceUrl → List AnnounceUrl → Bool
any_eq a [] = false
any_eq a (x ∷ xs) = announce_eq x a || any_eq a xs

any_eq-above :
    (a : AnnounceUrl) (n : ℕ) (u : Bytes) (xs : List AnnounceUrl)
    → ordered_from n u xs ≡ true
    → ltb (suc a.tier) n || (suc a.tier == n && bytes_lt a.url u) ≡ true
    → any_eq a xs ≡ false
unfolding ordered_from announce_eq
any_eq-above a n u [] h above = refl
any_eq-above a n u (x ∷ xs) h above = ground (
  arith,
  any_eq-above a (suc x.tier) x.url xs,
  bytes_eq-lt x.url a.url,
  bytes_lt_asym a.url u,
  bytes_le_trans u x.url a.url,
)

search-any :
    (a : AnnounceUrl) (n : ℕ) (u : Bytes) (xs : List AnnounceUrl)
    → ordered_from n u xs ≡ true
    → binary_search (λ x. announce_lt x a) (λ x. announce_lt a x) xs ≡ any_eq a xs
unfolding ordered_from announce_eq announce_lt
search-any a n u [] h = refl
search-any a n u (x ∷ xs) h = ground (
  arith,
  search-any a (suc x.tier) x.url xs,
  bytes_eq-lt x.url a.url,
  bytes_lt_asym a.url x.url,
  bytes_lt_asym x.url a.url,
  any_eq-above a (suc x.tier) x.url xs,
)

-- On an ordered list, the binary search of `contains` finds an entry exactly if one of the list is equal to it.
pub contains_lem :
    (xs : List AnnounceUrl) (a : AnnounceUrl) → IsOrdered xs → contains xs a ≡ any_eq a xs
unfolding contains
contains_lem xs a ordered = search-any a 0 [] xs ordered
