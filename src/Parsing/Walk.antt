-- ===== src/Parsing/Walk.antt =====
-- The loop over the file tree against the walk that visits each directory where it stands.
use dottorrent.Base.{
  ℕ, suc, ◌+◌, ◌==◌, ◌≡◌, refl, true, false, some, List, [], ◌∷◌, ◌++◌, Bytes, codes, length, ok,
  arith, sym, ap, ◌∙◌, append-nil, append_assoc,
}
use dottorrent.Entry.{FileEntry}
use dottorrent.Bencode.{Dict, Bencode, find_key}
use dottorrent.Parsing.{info_dict}
use dottorrent.Parsing.Paths.{root_directory, relative_path}
use dottorrent.Parsing.Files.{parse_file_entry_v2}
use dottorrent.Parsing.Tree.{components_path, tree_loop, file_tree_entries}

module _ {V : Type 0} (B : Bencode V) where
  -- The files below a dictionary, in the order of a walk, and the rounds that the loop takes for them: an empty key
  -- holds a file of the components before it, another key a directory.
  pub data Walk : Dict V → List Bytes → List FileEntry → ℕ → Type 0 where
    walk_end : {components : List Bytes} → Walk [] components [] 0
    walk_file :
        {key : Bytes} {v : V} {below rest : Dict V} {components : List Bytes} {e : FileEntry}
        {es : List FileEntry} {n : ℕ}
        → (length key == 0) ≡ true
        → B.get_dict v ≡ some below
        → parse_file_entry_v2 B v (relative_path (components_path components)) ≡ ok e
        → Walk rest components es n
        → Walk ((key, v) ∷ rest) components (e ∷ es) (suc n)
    walk_directory :
        {key : Bytes} {v : V} {below rest : Dict V} {components : List Bytes}
        {es es' : List FileEntry} {n n' : ℕ}
        → (length key == 0) ≡ false
        → B.get_dict v ≡ some below
        → Walk below (key ∷ components) es n
        → Walk rest components es' n'
        → Walk ((key, v) ∷ rest) components (es ++ es') (n + n' + 2)

  step_file :
      (key : Bytes) {v : V} {below : Dict V} (rest : Dict V) (components : List Bytes)
      {e : FileEntry} (rounds : ℕ) (frames : List (Dict V)) (out : List FileEntry)
      → (length key == 0) ≡ true
      → B.get_dict v ≡ some below
      → parse_file_entry_v2 B v (relative_path (components_path components)) ≡ ok e
      → tree_loop B (suc rounds) (((key, v) ∷ rest) ∷ frames) components out
        ≡ tree_loop B rounds (rest ∷ frames) components (out ++ e ∷ [])
  unfolding tree_loop
  step_file key rest components rounds frames out empty dict entry = rw (dict, empty, entry) refl

  step_directory :
      (key : Bytes) {v : V} {below : Dict V} (rest : Dict V) (components : List Bytes) (rounds : ℕ)
      (frames : List (Dict V)) (out : List FileEntry)
      → (length key == 0) ≡ false
      → B.get_dict v ≡ some below
      → tree_loop B (suc rounds) (((key, v) ∷ rest) ∷ frames) components out
        ≡ tree_loop B rounds (below ∷ rest ∷ frames) (key ∷ components) out
  unfolding tree_loop
  step_directory key rest components rounds frames out filled dict = rw (dict, filled) refl

  step_back :
      (key : Bytes) (rest : Dict V) (components : List Bytes) (rounds : ℕ) (frames : List (Dict V))
      (out : List FileEntry)
      → tree_loop B (suc rounds) ([] ∷ rest ∷ frames) (key ∷ components) out
        ≡ tree_loop B rounds (rest ∷ frames) components out
  unfolding tree_loop
  step_back key rest components rounds frames out = refl

  -- A number of rounds that is another one more.
  rounds_are :
      (frames : List (Dict V)) (components : List Bytes) (out : List FileEntry) (a b : ℕ)
      → a ≡ b
      → tree_loop B a frames components out ≡ tree_loop B b frames components out
  rounds_are frames components out a b e = ap (λ k. tree_loop B k frames components out) e

  -- A dictionary at the top of the stack, with rounds to spare.
  tree_loop-Walk :
      {d : Dict V} {components : List Bytes} {es : List FileEntry} {n : ℕ} (more : ℕ)
      (frames : List (Dict V)) (out : List FileEntry)
      → Walk d components es n
      → tree_loop B (n + more) (d ∷ frames) components out
        ≡ tree_loop B more ([] ∷ frames) components (out ++ es)
  tree_loop-Walk {components = components} more frames out walk_end =
      rounds_are _ _ _ (0 + more) more (omega arith)
      ∙ ap (tree_loop B more ([] ∷ frames) components) (sym (append-nil out))
  tree_loop-Walk {components = components} more frames out
        (walk_file {e = e} {es = es} {n = n} empty dict entry rest) =
      rounds_are _ _ _ (suc n + more) (suc (n + more)) (omega arith)
      ∙ (step_file _ _ _ (n + more) frames out empty dict entry
          ∙ (tree_loop-Walk more frames (out ++ e ∷ []) rest
              ∙ ap (tree_loop B more ([] ∷ frames) components) (append_assoc out (e ∷ []) es)))
  tree_loop-Walk {components = components} more frames out
        (walk_directory {rest = d} {es = es} {es' = es'} {n = n} {n' = n'} filled dict inside
          rest) =
      rounds_are _ _ _ (n + n' + 2 + more) (suc (n + suc (n' + more))) (omega arith)
      ∙ (step_directory _ _ _ (n + suc (n' + more)) frames out filled dict
          ∙ (tree_loop-Walk (suc (n' + more)) (d ∷ frames) out inside
              ∙ (step_back _ _ _ (n' + more) frames (out ++ es)
                  ∙ (tree_loop-Walk more frames (out ++ es) rest
                      ∙ ap (tree_loop B more ([] ∷ frames) components) (append_assoc out es es')))))

  -- A metafile whose info dictionary has a file tree, and a walk over it, in which every value is a dictionary and
  -- every file can be parsed: with two rounds more than the walk takes, or any greater number, the loop ends and
  -- gives the files of the walk in its order.
  pub file_tree_entries-Walk :
      {info tree : Dict V} {v : V} {es : List FileEntry} {n : ℕ} (root : V) (more : ℕ)
      → info_dict B root ≡ ok info
      → find_key (codes "file tree") info ≡ some v
      → B.get_dict v ≡ some tree
      → Walk tree (root_directory ∷ []) es n
      → file_tree_entries B (n + suc (suc more)) root ≡ ok es
  unfolding file_tree_entries tree_loop
  file_tree_entries-Walk root more has_info has_tree is_tree walk =
      rw (has_info, has_tree, is_tree) (tree_loop-Walk (suc (suc more)) [] [] walk)
