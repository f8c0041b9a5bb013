-- ===== src/Storage/Verify/Leaves.antt =====
-- The leaves of the tree that `verify_piece_layers` fills, and the answer for one file.
use dottorrent.Base.{
  ℕ, zero, suc, ◌+◌, ◌-◌, ◌^◌, ◌≤◌, ◌<◌, ◌≡◌, refl, sym, ap, ◌∙◌, true, false, List, [], ◌∷◌, arith,
  Bytes, length, get_or, set, replicate, get_or-set_self, get_or-set_ne, ltb, if◌then◌else◌,
  Bool-cases, inl, inr, Run, ok, throws, violation, undefined, ◌>>=◌, bytes_eq,
}
use native.Mathlib.Decide.{ℕ_discrete as dec_eq}
use dottorrent.Base.Pow.{pow_step}
use dottorrent.Utils.{log2_ceil}
use dottorrent.Merkle.{set_leaf, set_node, get_leaf, get_node, set_leaf_nodes, update, root}
use dottorrent.Merkle.Layout.{IsTree, max_height, tree_height_lem, set_leaf_nodes_lem}
use dottorrent.Merkle.Access.{get_node_lem, set_node_lem, set-IsTree}
use dottorrent.Merkle.Fold.{subtree}
use dottorrent.Merkle.Root.{HasLeaves, root-update}
use dottorrent.Entry.{FileEntry, piece_layer, pieces_root}
use dottorrent.Storage.Verify.{set_leaves, verify_entry, zero_hash}

module _ {H : Type 0} (initial : H) where
  -- The entry of the array for a leaf.
  abbrev leaf : ℕ → List H → ℕ → H
  leaf h t j = get_or t (2 ^ h - 1 + j) initial

  set_leaf_lem :
      (h i : ℕ) (t : List H) (v : H)
      → IsTree h t
      → i < 2 ^ h
      → set_leaf t i v ≡ ok (set t (2 ^ h - 1 + i) v)
  unfolding set_leaf
  set_leaf_lem h i t v tree lt =
      ap (λ l. set_node t l i v) (tree_height_lem h t tree)
      ∙ set_node_lem h t tree h i (omega arith) lt v

  -- A leaf behind one round, from the leaf behind the others.
  next_leaf :
      (h i j : ℕ) (v : H) (vs t t' : List H)
      → IsTree h t
      → i < 2 ^ h
      → leaf h t' j ≡ (
          if ltb j (suc i)
          then leaf h (set t (2 ^ h - 1 + i) v) j
          else get_or vs (j - suc i) (leaf h (set t (2 ^ h - 1 + i) v) j))
      → leaf h t' j ≡ (if ltb j i then leaf h t j else get_or (v ∷ vs) (j - i) (leaf h t j))
  next_leaf h i j v vs t t' (small, size) lt later = elim (dec_eq i j) [
    | yes e ↦
        let here : ltb j (suc i) ≡ true = ground (arith, e) in
        let passed : ltb j i ≡ false = ground (arith, e) in
        let place : j - i ≡ 0 = omega (arith, e) in
        let written : leaf h (set t (2 ^ h - 1 + i) v) j ≡ v =
          ap (λ k. get_or (set t (2 ^ h - 1 + i) v) (2 ^ h - 1 + k) initial) (sym e)
          ∙ get_or-set_self t (2 ^ h - 1 + i) v initial (omega (arith, pow_step h, lt, size)) in
        rw (passed, place) (later ∙ rw here written)
    | no ne ↦
        let kept : leaf h (set t (2 ^ h - 1 + i) v) j ≡ leaf h t j =
          get_or-set_ne t (2 ^ h - 1 + i) (2 ^ h - 1 + j) v initial (λ e. ne (omega (arith, e))) in
        elim (Bool-cases (ltb j i)) [
          | inl before ↦
              let here : ltb j (suc i) ≡ true = ground (arith, before) in
              rw before (later ∙ rw here kept)
          | inr behind ↦
              let passed : ltb j (suc i) ≡ false = ground (arith, behind) in
              let place : j - i ≡ suc (j - suc i) = ground (arith, behind) in
              rw (behind, place) (later ∙ rw passed (ap (get_or vs (j - suc i)) kept))
        ]
  ]

  set_leaves_lem :
      (h i : ℕ) (vs t : List H)
      → IsTree h t
      → i + length vs ≤ 2 ^ h
      → (t' : List H) × (set_leaves i vs t ≡ ok t')
        × IsTree h t'
        × ((j : ℕ) → leaf h t' j ≡ (if ltb j i then leaf h t j else get_or vs (j - i) (leaf h t j)))
  unfolding set_leaves
  set_leaves_lem h i [] t tree fits = (t, refl, tree, λ j. same j)
    where
      same : (j : ℕ) → leaf h t j ≡ (if ltb j i then leaf h t j else leaf h t j)
      same j = elim (Bool-cases (ltb j i)) [ inl e ↦ rw e refl | inr e ↦ rw e refl ]
  set_leaves_lem h i (v ∷ vs) t tree fits =
      let s = set t (2 ^ h - 1 + i) v in
      let (t', done, tree', leaves) =
        set_leaves_lem h (suc i) vs s (set-IsTree h t (2 ^ h - 1 + i) v tree) (omega arith) in
      (
        t',
        rw (set_leaf_lem h i t v tree (omega arith)) done,
        tree',
        λ j. next_leaf h i j v vs t t' tree (omega arith) (leaves j),
      )

-- The leaves of a file: the hashes of its piece layer, and zero behind them.
abbrev pub layer_leaf : FileEntry → ℕ → Bytes
layer_leaf e j = get_or e.layer j zero_hash

filled-HasLeaves :
    (combine : Bytes → Bytes → Bytes) (h : ℕ) (vs t : List Bytes)
    → IsTree h t
    → ((j : ℕ) → leaf zero_hash h t j ≡ get_or vs j zero_hash)
    → HasLeaves zero_hash combine h t (λ j. get_or vs j zero_hash)
unfolding get_leaf
filled-HasLeaves combine h vs t tree leaves j lt =
    ap (λ l. get_node zero_hash t l j) (tree_height_lem h t tree)
    ∙ get_node_lem h t tree h j (omega arith) lt zero_hash
    ∙ ap ok (leaves j)

fresh_leaf : (n h j : ℕ) → get_or (replicate n zero_hash) (2 ^ h - 1 + j) zero_hash ≡ zero_hash
fresh_leaf n h j = any_place n (2 ^ h - 1 + j)
  where
    any_place : (n i : ℕ) → get_or (replicate n zero_hash) i zero_hash ≡ zero_hash
    any_place zero i = refl
    any_place (suc n) zero = refl
    any_place (suc n) (suc i) = any_place n i

bind_result :
    {A : Type 0} {B : Type 0} {C : Type 0} (r : Run A) (f : A → Run B) (k : B → Run C) (b : B)
    → (r >>= f) ≡ ok b
    → (r >>= λ a. f a >>= k) ≡ k b
bind_result (ok a) f k b h = rw h refl
bind_result (throws e) f k b h = cc
bind_result violation f k b h = cc
bind_result undefined f k b h = cc

run_verify :
    (combine : Bytes → Bytes → Bytes) (e : FileEntry) (fresh filled : List Bytes) (found : Bytes)
    → e.has_v2_data ≡ true
    → set_leaf_nodes (length e.layer) zero_hash ≡ ok fresh
    → set_leaves 0 e.layer fresh ≡ ok filled
    → (update zero_hash combine filled >>= λ t. root zero_hash t) ≡ ok found
    → verify_entry combine e ≡ ok (bytes_eq found e.root_hash)
unfolding verify_entry piece_layer pieces_root
run_verify combine e fresh filled found v2 first second third =
    rw (v2, first, second)
      (bind_result (update zero_hash combine filled) (λ t. root zero_hash t)
        (λ found. ok (bytes_eq found e.root_hash)) found third)

-- For a file with v2 data and a piece layer of 1 to 2^30 hashes, the check returns, and its answer is
-- whether the root of the file is the hash of the tree, by recursion, over the piece layer followed by
-- zero hashes up to the next power of two.
pub verify_entry_lem :
    (combine : Bytes → Bytes → Bytes) (e : FileEntry)
    → e.has_v2_data ≡ true
    → 0 < length e.layer
    → length e.layer ≤ 2 ^ max_height
    → verify_entry combine e
      ≡ ok (bytes_eq (subtree combine (log2_ceil (length e.layer)) (layer_leaf e) 0) e.root_hash)
verify_entry_lem combine e v2 some_layer fits =
    let n = length e.layer in
    let h = log2_ceil n in
    let (first, tree, room, least) = set_leaf_nodes_lem {H = Bytes} n zero_hash some_layer fits in
    let fresh = replicate (2 ^ suc h - 1) zero_hash in
    let (filled, second, tree', leaves) =
      set_leaves_lem zero_hash h 0 e.layer fresh tree (omega arith) in
    let has_leaves : HasLeaves zero_hash combine h filled (layer_leaf e) =
      filled-HasLeaves combine h e.layer filled tree' (λ j.
        leaves j
        ∙ first_leaf e.layer j (leaf zero_hash h fresh j) (fresh_leaf (2 ^ suc h - 1) h j)) in
    run_verify combine e fresh filled (subtree combine h (layer_leaf e) 0) v2 first second
      (root-update zero_hash combine h filled (layer_leaf e) tree' has_leaves)
  where
    first_leaf :
        (vs : List Bytes) (j : ℕ) (old : Bytes)
        → old ≡ zero_hash
        → (if ltb j 0 then old else get_or vs (j - 0) old) ≡ get_or vs j zero_hash
    first_leaf vs j old same =
        let passed : ltb j 0 ≡ false = ground arith in
        let place : j - 0 ≡ j = omega arith in rw (passed, place) (ap (get_or vs j) same)
