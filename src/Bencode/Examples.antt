-- ===== src/Bencode/Examples.antt =====
-- Trees in place of the values of the bencode library, which have its laws.
use dottorrent.Base.{
  ℤ, ◌≡◌, refl, Option, none, some, List, [], ◌∷◌, Bytes, Run, ok, throws, bad_access, ap,
}
use dottorrent.Bencode.{Dict, Bencode, IsBencode}

mutual
  pub data Tree : Type 0 where
    number : ℤ → Tree
    text : Bytes → Tree
    items : Items → Tree
    fields : Fields → Tree

  pub data Items : Type 0 where
    no_item : Items
    item : Tree → Items → Items

  pub data Fields : Type 0 where
    no_field : Fields
    field : Bytes → Tree → Fields → Fields

abbrev pub from_items : Items → List Tree
from_items no_item = []
from_items (item t ts) = t ∷ from_items ts

abbrev pub to_items : List Tree → Items
to_items [] = no_item
to_items (t ∷ ts) = item t (to_items ts)

abbrev pub from_fields : Fields → Dict Tree
from_fields no_field = []
from_fields (field k t fs) = (k, t) ∷ from_fields fs

abbrev pub to_fields : Dict Tree → Fields
to_fields [] = no_field
to_fields ((k, t) ∷ d) = field k t (to_fields d)

abbrev pub tree_integer : Tree → Option ℤ
tree_integer (number n) = some n
tree_integer _ = none

abbrev pub tree_text : Tree → Option Bytes
tree_text (text s) = some s
tree_text _ = none

abbrev pub tree_items : Tree → Option (List Tree)
tree_items (items ts) = some (from_items ts)
tree_items _ = none

abbrev pub tree_fields : Tree → Option (Dict Tree)
tree_fields (fields fs) = some (from_fields fs)
tree_fields _ = none

abbrev pub tree_string : Tree → Run Bytes
tree_string (text s) = ok s
tree_string _ = throws bad_access

abbrev pub trees : Bencode Tree
trees = record {
  integer = number;
  string = text;
  list = λ ts. items (to_items ts);
  dict = λ d. fields (to_fields d);
  get_integer = tree_integer;
  get_string = tree_text;
  get_list = tree_items;
  get_dict = tree_fields;
  get_as_string = tree_string;
}

from-to_items : (ts : List Tree) → from_items (to_items ts) ≡ ts
from-to_items [] = refl
from-to_items (t ∷ ts) = ap (◌∷◌ t) (from-to_items ts)

from-to_fields : (d : Dict Tree) → from_fields (to_fields d) ≡ d
from-to_fields [] = refl
from-to_fields ((k, t) ∷ d) = ap (◌∷◌ (k, t)) (from-to_fields d)

pub trees-IsBencode : IsBencode trees
trees-IsBencode = record {
  get-integer = λ n. refl;
  get-string = λ s. refl;
  get-list = λ ts. ap some (from-to_items ts);
  get-dict = λ d. ap some (from-to_fields d);
  get_as-string = λ s. refl;
}
