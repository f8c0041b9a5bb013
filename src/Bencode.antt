-- ===== src/Bencode.antt =====
-- What the program uses of the bencode library, which is not part of the repository: values that hold an
-- integer, a string, a list or a dictionary, a function to make and one to look into each. A
-- dictionary is the list of its entries in the order of a loop over it, that of the keys.
pub mod Examples
use dottorrent.Base.{
  ℤ, ℕ, ◌-◌, ◌%◌, ◌^◌, ◌≡◌, refl, false, Option, none, some, List, [], ◌∷◌, Bytes, bytes_eq,
  bytes_eq-eq, bytes_eq_refl, ltb, if◌then◌else◌, Run, ok, throws, violation, undefined, bad_access,
  parse_error, out_of_range, Bool-cases, inl, inr,
}
use dottorrent.Announce.{bytes_lt}

abbrev pub Dict : Type 0 → Type 0
Dict V = List (Bytes × V)

pub record Bencode (V : Type 0) : Type 0 where
  pub integer : ℤ → V
  pub string : Bytes → V
  pub list : List V → V
  pub dict : Dict V → V
  -- `none` where the value holds another type, and the call throws `bad_access`.
  pub get_integer : V → Option ℤ
  pub get_string : V → Option Bytes
  pub get_list : V → Option (List V)
  pub get_dict : V → Option (Dict V)
  -- `get_as<std::string_view>`
  pub get_as_string : V → Run Bytes

-- What was put into a value can be read from it.
pub record IsBencode {V : Type 0} (B : Bencode V) : Type 0 where
  pub get-integer : (n : ℤ) → B.get_integer (B.integer n) ≡ some n
  pub get-string : (s : Bytes) → B.get_string (B.string s) ≡ some s
  pub get-list : (vs : List V) → B.get_list (B.list vs) ≡ some vs
  pub get-dict : (d : Dict V) → B.get_dict (B.dict d) ≡ some d
  pub get_as-string : (s : Bytes) → B.get_as_string (B.string s) ≡ ok s

-- The result of a call that throws `bad_access` where there is none.
abbrev pub access {ℓ} : {A : Type ℓ} → Option A → Run A
access none = throws bad_access
access (some v) = ok v

-- What follows for a value that may be missing.
abbrev pub found {ℓ κ} : {A : Type ℓ} {B : Type κ} → Option A → B → (A → B) → B
found none missing next = missing
found (some v) missing next = next v

-- `catch (const bencode::bad_access&)`
abbrev pub catch_access {ℓ} : {A : Type ℓ} → Run A → Run A
catch_access (throws bad_access) = throws parse_error
catch_access (throws e) = throws e
catch_access (ok v) = ok v
catch_access violation = violation
catch_access undefined = undefined

module _ {V : Type 0} where
  -- A dictionary is a std::map.
  abbrev pub find_key : Bytes → Dict V → Option V
  find_key key [] = none
  find_key key ((k, v) ∷ d) = if bytes_eq k key then some v else find_key key d

  abbrev pub insert_or_assign : Bytes → V → Dict V → Dict V
  insert_or_assign key value [] = (key, value) ∷ []
  insert_or_assign key value ((k, v) ∷ d) =
      let rest = insert_or_assign key value d in
      if bytes_eq k key
      then (key, value) ∷ d
      else if bytes_lt key k
      then (key, value) ∷ (k, v) ∷ d
      else (k, v) ∷ rest

  -- dict.at(key)
  abbrev pub at_key : Bytes → Dict V → Run V
  at_key key d = found (find_key key d) (throws out_of_range) (λ v. ok v)

  pub find_key-insert_self :
      (key : Bytes) (value : V) (d : Dict V)
      → find_key key (insert_or_assign key value d) ≡ some value
  find_key-insert_self key value [] = rw (bytes_eq_refl key) refl
  find_key-insert_self key value ((k, v) ∷ d) = elim (Bool-cases (bytes_eq k key)) [
    | inl same ↦ rw (same, bytes_eq_refl key) refl
    | inr other ↦ elim (Bool-cases (bytes_lt key k)) [
      | inl less ↦ rw (other, less, bytes_eq_refl key) refl
      | inr more ↦ rw (other, more, other) (find_key-insert_self key value d)
    ]
  ]

  pub find_key-insert_other :
      (key key' : Bytes) (value : V) (d : Dict V)
      → bytes_eq key key' ≡ false
      → find_key key' (insert_or_assign key value d) ≡ find_key key' d
  find_key-insert_other key key' value [] ne = rw ne refl
  find_key-insert_other key key' value ((k, v) ∷ d) ne = elim (Bool-cases (bytes_eq k key)) [
    | inl same ↦ rw (same, bytes_eq-eq k key same, ne) refl
    | inr other ↦ elim (Bool-cases (bytes_lt key k)) [
      | inl less ↦ rw (other, less, ne) refl
      | inr more ↦ elim (Bool-cases (bytes_eq k key')) [
        | inl hit ↦ rw (other, more, hit) refl
        | inr miss ↦ rw (other, more, miss) (find_key-insert_other key key' value d ne)
      ]
    ]
  ]
