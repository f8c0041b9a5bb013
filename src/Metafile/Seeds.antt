-- ===== src/Metafile/Seeds.antt =====
-- The lists without duplicates: http seeds, web seeds, nodes, similar torrents and collections.
use dottorrent.Base.{
  ◌≡◌, refl, Bool, true, false, not, ◌&&◌, ◌||◌, List, [], ◌∷◌, ◌++◌, arith, Bytes, bytes_eq,
  bytes_eq-eq, bytes_eq_refl, Bool-cases, inl, inr,
}
use dottorrent.Metafile.{
  Metafile, member, add_unique, remove_first, add_web_seed, remove_web_seed, clear_web_seeds,
}

-- No two elements are equal.
abbrev pub all_differ : List Bytes → Bool
all_differ [] = true
all_differ (x ∷ xs) = not (member bytes_eq x xs) && all_differ xs

pub bytes_eq_sym : (s t : Bytes) → bytes_eq s t ≡ bytes_eq t s
bytes_eq_sym [] [] = refl
bytes_eq_sym [] (d ∷ t) = refl
bytes_eq_sym (c ∷ s) [] = refl
bytes_eq_sym (c ∷ s) (d ∷ t) = ground (arith, bytes_eq_sym s t)

member-append :
    (v : Bytes) (xs : List Bytes) (w : Bytes)
    → member bytes_eq v (xs ++ w ∷ []) ≡ (member bytes_eq v xs || bytes_eq w v)
member-append v [] w = ground arith
member-append v (x ∷ xs) w = ground (arith, member-append v xs w)

differ-append :
    (xs : List Bytes) (v : Bytes)
    → all_differ xs ≡ true
    → member bytes_eq v xs ≡ false
    → all_differ (xs ++ v ∷ []) ≡ true
differ-append [] v h k = refl
differ-append (x ∷ xs) v h k =
    ground (arith, differ-append xs v, member-append x xs v, bytes_eq_sym x v)

differ-add_unique :
    (xs : List Bytes) (v : Bytes)
    → all_differ xs ≡ true
    → all_differ (add_unique bytes_eq v xs) ≡ true
differ-add_unique xs v h = elim (Bool-cases (member bytes_eq v xs)) [
  | inl e ↦ rw e h
  | inr e ↦ rw e (differ-append xs v h e)
]

member-remove :
    (v w : Bytes) (xs : List Bytes)
    → member bytes_eq w xs ≡ false
    → member bytes_eq w (remove_first bytes_eq v xs) ≡ false
member-remove v w [] h = refl
member-remove v w (x ∷ xs) h = ground (arith, member-remove v w xs)

differ-remove_first :
    (xs : List Bytes) (v : Bytes)
    → all_differ xs ≡ true
    → all_differ (remove_first bytes_eq v xs) ≡ true
differ-remove_first [] v h = refl
differ-remove_first (x ∷ xs) v h = ground (arith, differ-remove_first xs v, member-remove v x xs)

-- The calls that change the web seeds.
pub data SeedCall : Type 0 where
  added : Bytes → SeedCall
  removed : Bytes → SeedCall
  cleared : SeedCall

unfoldable pub run_seed_call : Metafile → SeedCall → Metafile
run_seed_call m (added url) = add_web_seed m url
run_seed_call m (removed url) = remove_web_seed m url
run_seed_call m cleared = clear_web_seeds m

unfoldable pub run_seed_calls : Metafile → List SeedCall → Metafile
unfolding run_seed_call
run_seed_calls m [] = m
run_seed_calls m (c ∷ cs) = run_seed_calls (run_seed_call m c) cs

run_seed_call-differ :
    (m : Metafile) (c : SeedCall)
    → all_differ m.web_seeds ≡ true
    → all_differ (run_seed_call m c).web_seeds ≡ true
unfolding run_seed_call add_web_seed remove_web_seed clear_web_seeds
run_seed_call-differ m (added url) h = differ-add_unique m.web_seeds url h
run_seed_call-differ m (removed url) h = differ-remove_first m.web_seeds url h
run_seed_call-differ m cleared h = refl

-- From web seeds without duplicates, any sequence of calls that add, remove and clear web seeds leads to
-- web seeds without duplicates.
pub web_seeds-run_seed_calls :
    (cs : List SeedCall) (m : Metafile)
    → all_differ m.web_seeds ≡ true
    → all_differ (run_seed_calls m cs).web_seeds ≡ true
unfolding run_seed_calls
web_seeds-run_seed_calls [] m h = h
web_seeds-run_seed_calls (c ∷ cs) m h =
    web_seeds-run_seed_calls cs (run_seed_call m c) (run_seed_call-differ m c h)

-- On web seeds without duplicates, a url is there behind `add_web_seed`, and is not there behind
-- `remove_web_seed`.
pub remove-add_web_seed :
    (m : Metafile) (url : Bytes)
    → all_differ m.web_seeds ≡ true
    → (member bytes_eq url (add_web_seed m url).web_seeds ≡ true)
      × (member bytes_eq url (remove_web_seed m url).web_seeds ≡ false)
unfolding add_web_seed remove_web_seed
remove-add_web_seed m url h = (there m.web_seeds, gone m.web_seeds h)
  where
    there : (xs : List Bytes) → member bytes_eq url (add_unique bytes_eq url xs) ≡ true
    there xs = elim (Bool-cases (member bytes_eq url xs)) [
      | inl e ↦ rw e e
      | inr e ↦ rw e (rw (member-append url xs url, bytes_eq_refl url) (ground arith))
    ]

    gone :
        (xs : List Bytes)
        → all_differ xs ≡ true
        → member bytes_eq url (remove_first bytes_eq url xs) ≡ false
    gone [] h = refl
    gone (x ∷ xs) h = elim (Bool-cases (bytes_eq x url)) [
      | inl e ↦ rw e (rw (← bytes_eq-eq x url e) (ground arith))
      | inr e ↦ rw (e, e) (gone xs (ground arith))
    ]
