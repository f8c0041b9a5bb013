-- ===== src/Announce/Order.antt =====
-- The order of urls and entries, and the lists that the operations keep: sorted, with tiers from 0 on
-- and no gap.
use dottorrent.Base.{
  ℕ, suc, ◌≡◌, refl, Bool, true, false, not, ◌&&◌, ◌||◌, List, [], ◌∷◌, arith, Bytes, ◌==◌,
  bytes_eq,
}
use dottorrent.Announce.{AnnounceUrl, bytes_lt, tier_count}

-- Not both of two strings are below the other.
pub bytes_lt_asym : (s t : Bytes) → bytes_lt s t ≡ true → bytes_lt t s ≡ false
bytes_lt_asym s [] h = cc
bytes_lt_asym [] (d ∷ t) h = refl
bytes_lt_asym (c ∷ s) (d ∷ t) h = ground (arith, bytes_lt_asym s t)

-- The order of urls that are not above each other is transitive.
pub bytes_le_trans :
    (s t u : Bytes) → bytes_lt t s ≡ false → bytes_lt u t ≡ false → bytes_lt u s ≡ false
bytes_le_trans [] t u h k = no_below u
  where
    no_below : (u : Bytes) → bytes_lt u [] ≡ false
    no_below [] = refl
    no_below (c ∷ u) = refl
bytes_le_trans (c ∷ s) [] u h k = cc
bytes_le_trans (c ∷ s) (d ∷ t) [] h k = cc
bytes_le_trans (c ∷ s) (d ∷ t) (e ∷ u) h k = ground (arith, bytes_le_trans s t u)

-- Strings that are not below each other are equal.
pub bytes_eq-lt : (s t : Bytes) → bytes_eq s t ≡ (not (bytes_lt s t) && not (bytes_lt t s))
bytes_eq-lt [] [] = refl
bytes_eq-lt [] (d ∷ t) = refl
bytes_eq-lt (c ∷ s) [] = refl
bytes_eq-lt (c ∷ s) (d ∷ t) = ground (arith, bytes_eq-lt s t)

-- A list that may follow an entry of the tier before `n` with url `u`; `n` is 0 at the front.
unfoldable pub ordered_from : ℕ → Bytes → List AnnounceUrl → Bool
ordered_from n u [] = true
ordered_from n u (x ∷ xs) =
    (suc x.tier == n && not (bytes_lt x.url u) || x.tier == n) && ordered_from (suc x.tier) x.url xs

-- Sorted by tier and url, with tiers from 0 on and no gap between them.
abbrev pub IsOrdered : List AnnounceUrl → Type 0
IsOrdered xs = ordered_from 0 [] xs ≡ true

-- The number of tiers behind `n` tiers.
unfoldable pub tiers_from : ℕ → List AnnounceUrl → ℕ
tiers_from n [] = n
tiers_from n (x ∷ xs) = tiers_from (suc x.tier) xs

pub tier_count_lem : (xs : List AnnounceUrl) → tier_count xs ≡ tiers_from 0 xs
unfolding tier_count tiers_from
tier_count_lem [] = refl
tier_count_lem (x ∷ []) = omega arith
tier_count_lem (x ∷ y ∷ xs) = tier_count_lem (y ∷ xs)
