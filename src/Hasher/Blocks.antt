-- ===== src/Hasher/Blocks.antt =====
-- The loop over the blocks of a chunk computes the digests of its consecutive blocks.
use dottorrent.Base.{
  ℕ, zero, suc, ◌+◌, ◌-◌, ◌*◌, ◌^◌, ◌≤◌, ◌<◌, ◌≡◌, refl, true, List, [], ◌∷◌, ◌++◌, map,
  append_assoc, Bytes, length, take, drop, leb, Run, ok, arith, sym, ap, ◌∙◌,
}
use dottorrent.Base.Split.{split, split-step, split-short, numbered, length-drop, drop-drop}
use dottorrent.Storage.{add64}
use dottorrent.Hasher.{subspan, subspan_from, Digests, hash_blocks}

subspan_ok :
    (d : Bytes) (offset count : ℕ)
    → offset + count ≤ length d
    → subspan d offset count ≡ ok (take count (drop offset d))
unfolding subspan
subspan_ok d offset count h =
    let inside : leb (offset + count) (length d) ≡ true = ground arith in rw inside refl

pub subspan_from_ok :
    (d : Bytes) (offset : ℕ) → offset ≤ length d → subspan_from d offset ≡ ok (drop offset d)
unfolding subspan_from
subspan_from_ok d offset h =
    let inside : leb offset (length d) ≡ true = ground arith in rw inside refl

abbrev digests : List (ℕ × Bytes) → ℕ → Run Digests
digests ds n = ok (ds, n)

same_ok : {ds es : List (ℕ × Bytes)} {m n : ℕ} → ds ≡ es → m ≡ n → digests ds m ≡ digests es n
same_ok {ds} {es} {m} {n} e f = ap (λ l. digests l m) e ∙ ap (digests es) f

module _ (hash : Bytes → Bytes) (size first : ℕ) (d : Bytes) where
  -- The loop from block `k` on, where `more` blocks are full and at most one block of bytes follows them.
  pub hash_blocks_lem :
      (more k : ℕ) (st : Digests)
      → 0 < size
      → k * size + more * size < length d
      → length d ≤ k * size + more * size + size
      → first + k + more < 2 ^ 64
      → st.1 < 2 ^ 64
      → hash_blocks hash size first d more k st
        ≡ ok (
          st.0 ++ numbered 1 (first + k) (map hash (split size (drop (k * size) d))),
          add64 (st.1) (length d - k * size),
        )
  unfolding hash_blocks
  hash_blocks_lem zero k st pos low high fits small =
      let rest = drop (k * size) d in
      let l = length-drop (k * size) d in
      let index : add64 first k ≡ first + k = omega (arith, fits) in
      rw (subspan_from_ok d (k * size) (omega arith), index)
        (same_ok
          (ap (λ ds. st.0 ++ numbered 1 (first + k) (map hash ds))
            (sym (split-short size rest (omega (arith, l, low)) (omega (arith, l, high)))))
          (ap (add64 (st.1)) l))
  hash_blocks_lem (suc more) k st pos low high fits small =
      let rest = drop (k * size) d in
      let l = length-drop (k * size) d in
      let next : (k + 1) * size ≡ k * size + size = omega arith in
      let many : suc more * size ≡ more * size + size = omega arith in
      let index : add64 first k ≡ first + k = omega (arith, fits) in
      rw (subspan_ok d (k * size) size (omega (arith, low, many)), index)
        (hash_blocks_lem more (k + 1)
            (st.0 ++ (first + k, hash (take size rest)) ∷ [], add64 (st.1) size) pos
            (omega (arith, low, next, many)) (omega (arith, high, next, many)) (omega (arith, fits))
            (omega arith)
          ∙ same_ok
              (append_assoc (st.0) ((first + k, hash (take size rest)) ∷ [])
                  (numbered 1 (first + (k + 1)) (map hash (split size (drop ((k + 1) * size) d))))
                ∙ ap (λ ds. st.0 ++ ds)
                    (renumber (first + (k + 1)) (first + k + 1) (omega arith)
                        (first + k, hash (take size rest)) (drop ((k + 1) * size) d)
                        (drop size rest) (shift next)
                      ∙ ap (λ ds. numbered 1 (first + k) (map hash ds))
                          (sym (split-step size rest pos (omega (arith, l, low, many))))))
              (omega (arith, next, many, low)))
    where
      shift :
          (k + 1) * size ≡ k * size + size → drop ((k + 1) * size) d ≡ drop size (drop (k * size) d)
      shift e = ap (λ n. drop n d) e ∙ sym (drop-drop (k * size) size d)

      renumber :
          (i j : ℕ)
          → i ≡ j
          → (x : ℕ × Bytes) (ys zs : Bytes) → ys ≡ zs
          → x ∷ numbered 1 i (map hash (split size ys))
            ≡ x ∷ numbered 1 j (map hash (split size zs))
      renumber i j e x ys zs f =
          ap (λ n. x ∷ numbered 1 n (map hash (split size ys))) e
          ∙ ap (λ l. x ∷ numbered 1 j (map hash (split size l))) f

  -- The whole loop.
  pub hash_blocks_start :
      (more : ℕ) (st : Digests)
      → 0 < size
      → more * size < length d
      → length d ≤ more * size + size
      → first + more < 2 ^ 64
      → st.1 < 2 ^ 64
      → hash_blocks hash size first d more 0 st
        ≡ ok (st.0 ++ numbered 1 first (map hash (split size d)), add64 (st.1) (length d))
  hash_blocks_start more st pos low high fits small =
      let start : 0 * size ≡ 0 = omega arith in
      let index : first + 0 ≡ first = omega arith in
      hash_blocks_lem more 0 st pos (omega (arith, low)) (omega (arith, high)) (omega (arith, fits))
        small
      ∙ same_ok
          (ap (λ n. st.0 ++ numbered 1 n (map hash (split size (drop (0 * size) d)))) index
            ∙ ap (λ n. st.0 ++ numbered 1 first (map hash (split size (drop n d)))) start)
          (omega arith)
