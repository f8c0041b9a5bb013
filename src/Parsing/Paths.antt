-- ===== src/Parsing/Paths.antt =====
-- The operations of std::filesystem::path that the parser uses, on paths as the lists of their elements: a
-- root directory is the element "/", and a slash at the end gives an empty last element.
use dottorrent.Base.{List, [], ◌∷◌, ◌++◌, Bytes, ◌==◌, if◌then◌else◌}
use dottorrent.Entry.{FilePath}

abbrev pub root_directory : Bytes
root_directory = b'/' ∷ []

-- The parts between the slashes, with what has been read of the first one.
abbrev pub slash_parts : Bytes → Bytes → List Bytes
slash_parts part [] = part ∷ []
slash_parts part (c ∷ s) =
    let here = slash_parts (part ++ c ∷ []) s in
    let next = slash_parts [] s in if c == b'/' then part ∷ next else here

-- Slashes next to each other count as one.
abbrev pub merge_slashes : List Bytes → FilePath
merge_slashes [] = []
merge_slashes (x ∷ []) = x ∷ []
merge_slashes ([] ∷ y ∷ xs) = merge_slashes (y ∷ xs)
merge_slashes ((c ∷ x) ∷ y ∷ xs) = (c ∷ x) ∷ merge_slashes (y ∷ xs)

abbrev pub behind_slashes : Bytes → Bytes
behind_slashes [] = []
behind_slashes (c ∷ s) = let rest = behind_slashes s in if c == b'/' then rest else c ∷ s

abbrev pub relative_elements : Bytes → FilePath
relative_elements [] = []
relative_elements (c ∷ s) = merge_slashes (slash_parts [] (c ∷ s))

-- The path of a text.
unfoldable pub path_elements : Bytes → FilePath
path_elements [] = []
path_elements (c ∷ s) =
    if c == b'/'
    then root_directory ∷ relative_elements (behind_slashes s)
    else relative_elements (c ∷ s)

-- A path without the empty element of a slash at its end.
abbrev pub without_slash : FilePath → FilePath
without_slash [] = []
without_slash ([] ∷ []) = []
without_slash (x ∷ p) = x ∷ without_slash p

abbrev pub with_slash : FilePath → FilePath
with_slash [] = []
with_slash ((c ∷ []) ∷ []) = if c == b'/' then (c ∷ []) ∷ [] else (c ∷ []) ∷ [] ∷ []
with_slash (x ∷ []) = without_slash (x ∷ []) ++ [] ∷ []
with_slash (x ∷ p) = x ∷ with_slash p

-- p /= text, where a text with a root directory replaces the path.
unfoldable pub path_append : FilePath → Bytes → FilePath
unfolding path_elements
path_append p [] = with_slash p
path_append p (c ∷ s) =
    if c == b'/' then path_elements (c ∷ s) else without_slash p ++ path_elements (c ∷ s)

-- relative_path()
abbrev pub relative_path : FilePath → FilePath
relative_path [] = []
relative_path ((c ∷ []) ∷ p) = if c == b'/' then p else (c ∷ []) ∷ p
relative_path (x ∷ p) = x ∷ p
