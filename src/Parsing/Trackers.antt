-- ===== src/Parsing/Trackers.antt =====
-- The trackers of a metafile are read back from the lists of their tiers.
use dottorrent.Base.{
  ℕ, suc, ◌≡◌, refl, true, false, some, List, [], ◌∷◌, ◌++◌, map, Bytes, ◌==◌, ok, arith, sym, ap,
  ◌∙◌, append-nil, append_assoc, subst, inl, inr, codes,
}
use dottorrent.Announce.{AnnounceUrl}
use dottorrent.Announce.Order.{IsOrdered, ordered_from}
use dottorrent.Metafile.{Metafile, add_tracker}
use dottorrent.Metafile.Seeds.{all_differ}
use dottorrent.Metafile.Append.{urls, add_announce-next, next_tier, contains_first}
use dottorrent.Bencode.{Bencode, IsBencode, Dict, find_key}
use dottorrent.Parsing.{parse_tier, parse_tiers, each_string, parse_announce, add_first}
use dottorrent.Serialization.{tiers_from, announce_tiers, strings}

abbrev pending : ℕ → List Bytes → List AnnounceUrl
pending tier us = map (λ u. record { url = u; tier = tier }) us

abbrev listed : Metafile → List AnnounceUrl → Metafile
listed m xs = record m { announce_list = xs }

pending-append :
    (tier : ℕ) (us : List Bytes) (u : Bytes)
    → pending tier (us ++ u ∷ []) ≡ pending tier us ++ record { url = u; tier = tier } ∷ []
pending-append tier [] u = refl
pending-append tier (v ∷ us) u =
    ap (◌∷◌ (record { url = v; tier = tier })) (pending-append tier us u)

-- An entry of the tier joins the pending ones.
joins :
    (xs : List AnnounceUrl) (tier : ℕ) (us : List Bytes) (a : AnnounceUrl) (ys : List AnnounceUrl)
    → a.tier ≡ tier
    → xs ++ (pending tier (us ++ a.url ∷ []) ++ ys) ≡ xs ++ (pending tier us ++ a ∷ ys)
joins xs tier us a ys e =
    ap (λ l. xs ++ (l ++ ys)) (pending-append tier us a.url)
    ∙ ap (λ l. xs ++ l)
        (append_assoc (pending tier us) (record { url = a.url; tier = tier } ∷ []) ys)
    ∙ ap (λ t. xs ++ (pending tier us ++ record { url = a.url; tier = t } ∷ ys)) (sym e)

module _ {V : Type 0} (B : Bencode V) (laws : IsBencode B) (m : Metafile) where
  -- The urls of one tier.
  parse_tier_lem :
      (tier : ℕ) (xs : List AnnounceUrl) (part : List Bytes) (rest : List AnnounceUrl)
      → IsOrdered (xs ++ (pending tier part ++ rest))
      → all_differ (urls (xs ++ (pending tier part ++ rest))) ≡ true
      → parse_tier B tier (listed m xs) (map B.string part)
        ≡ ok (listed m (xs ++ pending tier part))
  unfolding parse_tier each_string add_tracker
  parse_tier_lem tier xs [] rest ordered differ = ap (λ ys. ok (listed m ys)) (sym (append-nil xs))
  parse_tier_lem tier xs (u ∷ part) rest ordered differ =
      let a : AnnounceUrl = record { url = u; tier = tier } in
      let next = add_announce-next xs a (pending tier part ++ rest) ordered differ in
      let shift = append_assoc xs (a ∷ []) (pending tier part ++ rest) in
      let ordered' = subst IsOrdered (sym shift) ordered in
      let differ' = subst (λ ys. all_differ (urls ys) ≡ true) (sym shift) differ in
      rw (laws.get-string u, next)
        (parse_tier_lem tier (xs ++ a ∷ []) part rest ordered' differ'
          ∙ ap (λ ys. ok (listed m ys)) (append_assoc xs (a ∷ []) (pending tier part)))

  -- The tiers that `tiers_from` makes of the entries behind some urls of one tier.
  parse_tiers_lem :
      (ys : List AnnounceUrl) (tier : ℕ) (us : List Bytes) (w : Bytes) (xs : List AnnounceUrl)
      → IsOrdered (xs ++ (pending tier (us ++ w ∷ []) ++ ys))
      → all_differ (urls (xs ++ (pending tier (us ++ w ∷ []) ++ ys))) ≡ true
      → parse_tiers B tier (listed m xs) (map (strings B) (tiers_from tier (us ++ w ∷ []) ys))
        ≡ ok (listed m (xs ++ (pending tier (us ++ w ∷ []) ++ ys)))
  unfolding parse_tiers tiers_from
  parse_tiers_lem [] tier us w xs ordered differ =
      let part = us ++ w ∷ [] in
      rw (laws.get-list (map B.string part), parse_tier_lem tier xs part [] ordered differ)
        (ap (λ l. ok (listed m (xs ++ l))) (sym (append-nil (pending tier part))))
  parse_tiers_lem (a ∷ ys) tier us w xs ordered differ =
      let part = us ++ w ∷ [] in
      let y : AnnounceUrl = record { url = w; tier = tier } in
      let shift : xs ++ (pending tier part ++ a ∷ ys) ≡ (xs ++ pending tier us) ++ y ∷ a ∷ ys =
        ap (λ l. xs ++ (l ++ a ∷ ys)) (pending-append tier us w)
        ∙ ap (λ l. xs ++ l) (append_assoc (pending tier us) (y ∷ []) (a ∷ ys))
        ∙ sym (append_assoc xs (pending tier us) (y ∷ a ∷ ys)) in
      elim (next_tier 0 [] (xs ++ pending tier us) y a ys (subst IsOrdered shift ordered)) [
        | inl same ↦
            let test : (tier == a.tier) ≡ true = ground arith in
            let same_list = joins xs tier part a ys same in
            rw test (
              parse_tiers_lem ys tier part a.url xs (subst IsOrdered (sym same_list) ordered)
                (subst (λ l. all_differ (urls l) ≡ true) (sym same_list) differ)
              ∙ ap (λ l. ok (listed m l)) same_list)
        | inr next ↦
            let test : (tier == a.tier) ≡ false = ground arith in
            let same_list =
              joins (xs ++ pending tier part) (suc tier) [] a ys next
              ∙ append_assoc xs (pending tier part) (a ∷ ys) in
            rw
              (
                test,
                laws.get-list (map B.string part),
                parse_tier_lem tier xs part (a ∷ ys) ordered differ,
              )
              (parse_tiers_lem ys (suc tier) [] a.url (xs ++ pending tier part)
                  (subst IsOrdered (sym same_list) ordered)
                  (subst (λ l. all_differ (urls l) ≡ true) (sym same_list) differ)
                ∙ ap (λ l. ok (listed m l)) same_list)
      ]

  -- What the printer puts under the two keys gives the list again.
  pub parse_announce_lem :
      (a : AnnounceUrl) (xs : List AnnounceUrl) (root : V) (d : Dict V)
      → IsOrdered (a ∷ xs)
      → all_differ (urls (a ∷ xs)) ≡ true
      → B.get_dict root ≡ some d
      → find_key (codes "announce-list") d
        ≡ some (B.list (map (strings B) (announce_tiers (a ∷ xs))))
      → find_key (codes "announce") d ≡ some (B.string a.url)
      → parse_announce B root (listed m []) ≡ ok (listed m (a ∷ xs))
  unfolding parse_announce announce_tiers tiers_from add_first ordered_from
  parse_announce_lem a xs root d ordered differ is_dict in_list in_single =
      let first : a.tier ≡ 0 = ground arith in
      let test : (0 == a.tier) ≡ true = ground arith in
      let same = joins [] 0 [] a xs first in
      let tiers =
        parse_tiers_lem xs 0 [] a.url [] (subst IsOrdered (sym same) ordered)
          (subst (λ l. all_differ (urls l) ≡ true) (sym same) differ)
        ∙ ap (λ l. ok (listed m l)) same in
      rw
        (
          is_dict,
          in_list,
          test,
          laws.get-list (map (strings B) (tiers_from 0 (a.url ∷ []) xs)),
          tiers,
          in_single,
          laws.get-string a.url,
          contains_first a xs first,
        )
        refl
