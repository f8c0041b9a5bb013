-- ===== src/Announce/Examples.antt =====
-- Three trackers in two tiers.
use dottorrent.Base.{
  ℕ, ◌≡◌, ◌≤◌, refl, arith, List, [], ◌∷◌, map, Bytes, codes, ok, some, get_elem?,
}
use dottorrent.Announce.{AnnounceUrl, insert, erase_at, erase, tier_count}
use dottorrent.Announce.Order.{IsOrdered, ordered_from}
use dottorrent.Announce.Insert.{insert_lem}
use dottorrent.Announce.Erase.{erase_lem}

abbrev tracker : Bytes → ℕ → AnnounceUrl
tracker url tier = record { url = url; tier = tier }

abbrev trackers : List AnnounceUrl
trackers = tracker (codes "b") 0 ∷ tracker (codes "a") 1 ∷ tracker (codes "c") 1 ∷ []

trackers-IsOrdered : IsOrdered trackers
unfolding ordered_from
trackers-IsOrdered = refl

one_tier_left : 1 ≤ tier_count trackers
unfolding tier_count
one_tier_left = omega arith

insert_lem_example :
    (pos : ℕ) × (ys : List AnnounceUrl) × (insert trackers (tracker (codes "b") 1) ≡ ok ys)
    × (erase_at pos ys ≡ trackers)
    × (get_elem? ys pos ≡ some (tracker (codes "b") 1))
    × IsOrdered ys
insert_lem_example = insert_lem trackers (tracker (codes "b") 1) trackers-IsOrdered one_tier_left

erase_lem_example :
    (ys : List AnnounceUrl) × (erase trackers 0 ≡ ok ys)
    × IsOrdered ys
    × (map (λ x. x.url) ys ≡ map (λ x. x.url) (erase_at 0 trackers))
erase_lem_example =
    erase_lem trackers 0 (tracker (codes "b") 0) trackers-IsOrdered (omega arith) refl
