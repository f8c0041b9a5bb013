-- ===== src/Attributes/Letters.antt =====
-- The letters of the attributes: print and parse against each other.
use Prim.Native.Nat.{bit_or}
use dottorrent.Base.{
  both, both_sound, ℕ, ◌+◌, ◌<◌, ◌≡◌, refl, ap, Bool, true, false, ◌&&◌, ◌||◌, [], ◌∷◌, Bytes,
  arith, ◌==◌, ==_iff, if◌then◌else◌, Run, ok, throws, violation, undefined, ◌>>=◌,
  invalid_argument, holds_below, holds_below_sound, Bool-cases, inl, inr,
}
use dottorrent.Attributes.{
  attributes_to_string, add_letter, add_letters, make_file_attributes, symlink, executable, hidden,
  padding_file,
}

is_ok_of : Run ℕ → ℕ → Bool
is_ok_of (ok v) w = v == w
is_ok_of _ w = false

is_ok_of_sound : (r : Run ℕ) (w : ℕ) → is_ok_of r w ≡ true → r ≡ ok w
unfolding is_ok_of
is_ok_of_sound (ok v) w h = ap ok ((==_iff v w).0 h)
is_ok_of_sound (throws e) w h = cc
is_ok_of_sound violation w h = cc
is_ok_of_sound undefined w h = cc

letters_check :
    holds_below (λ v. is_ok_of (make_file_attributes (attributes_to_string v)) v) 16 ≡ true
unfolding holds_below is_ok_of make_file_attributes attributes_to_string
letters_check = refl

-- Every set of the four attributes is read back from its letters.
pub make-attributes_to_string :
    (v : ℕ) → v < 16 → make_file_attributes (attributes_to_string v) ≡ ok v
make-attributes_to_string v h = is_ok_of_sound _ v (holds_below_sound _ 16 v h letters_check)

-- Whether a letter stands in a text.
abbrev pub contains : ℕ → Bytes → Bool
contains c [] = false
contains c (d ∷ s) = d == c || contains c s

-- The attributes for the letters l, x, h and p.
unfoldable pub flags : Bool → Bool → Bool → Bool → ℕ
flags l x h p =
    (if l then symlink else 0)
    + (if x then executable else 0)
    + (if h then hidden else 0)
    + (if p then padding_file else 0)

abbrev pub is_letter : ℕ → Bool
is_letter c = c == b'l' || c == b'x' || c == b'h' || c == b'p'

abbrev pub all_letters : Bytes → Bool
all_letters [] = true
all_letters (c ∷ s) = is_letter c && all_letters s

-- Setting each of the four flags.
or_flags : Bool → Bool → Bool → Bool → Bool
or_flags l x h p =
    bit_or (flags l x h p) symlink == flags true x h p
    && bit_or (flags l x h p) executable == flags l true h p
    && bit_or (flags l x h p) hidden == flags l x true p
    && bit_or (flags l x h p) padding_file == flags l x h true

or_check : both (λ l. both (λ x. both (λ h. both (λ p. or_flags l x h p)))) ≡ true
unfolding or_flags flags
or_check = refl

or_flags_sound : (l x h p : Bool) → or_flags l x h p ≡ true
or_flags_sound l x h p = both_sound (or_flags l x h) p (
    both_sound (λ h'. both (or_flags l x h')) h
      (both_sound (λ x'. both (λ h'. both (or_flags l x' h'))) x
        (both_sound (λ l'. both (λ x'. both (λ h'. both (or_flags l' x' h')))) l or_check)))

or_flags_lem :
    (l x h p : Bool)
    → (bit_or (flags l x h p) symlink ≡ flags true x h p)
      × (bit_or (flags l x h p) executable ≡ flags l true h p)
      × (bit_or (flags l x h p) hidden ≡ flags l x true p)
      × (bit_or (flags l x h p) padding_file ≡ flags l x h true)
unfolding or_flags
or_flags_lem l x h p = ground (arith, or_flags_sound l x h p)

or_true : (b : Bool) → (b || true) ≡ true
or_true true = refl
or_true false = refl

or_assoc : (a b c : Bool) → ((a || b) || c) ≡ (a || (b || c))
or_assoc true b c = refl
or_assoc false b c = refl

or_false : (b : Bool) → (b || false) ≡ b
or_false true = refl
or_false false = refl

add_letter_lem :
    (l x h p : Bool) (c : ℕ)
    → add_letter (flags l x h p) c ≡ (
        if is_letter c
        then ok (flags (l || c == b'l') (x || c == b'x') (h || c == b'h') (p || c == b'p'))
        else throws invalid_argument)
unfolding add_letter
add_letter_lem l x h p c = ground (
  arith,
  or_flags_lem l x h p,
  or_true l,
  or_true x,
  or_true h,
  or_true p,
  or_false l,
  or_false x,
  or_false h,
  or_false p,
)

add_letters_lem :
    (s : Bytes) (l x h p : Bool)
    → add_letters (flags l x h p) s ≡ (
        if all_letters s
        then ok (
            flags
              (l || contains b'l' s)
              (x || contains b'x' s)
              (h || contains b'h' s)
              (p || contains b'p' s))
        else throws invalid_argument)
unfolding add_letters
add_letters_lem [] l x h p = rw (or_false l, or_false x, or_false h, or_false p) refl
add_letters_lem (c ∷ s) l x h p = elim (Bool-cases (is_letter c)) [
  | inl e ↦ rw (add_letter_lem l x h p c) (rw (e, ◌>>=◌) (simp (add_letters_lem s, or_assoc)))
  | inr e ↦ rw (add_letter_lem l x h p c) (rw (e, ◌>>=◌) refl)
]

-- A text of the four letters gives the attributes whose letters are in it, in whatever order and
-- however often; any other text throws.
pub make_file_attributes_lem :
    (s : Bytes)
    → make_file_attributes s ≡ (
        if all_letters s
        then ok (flags (contains b'l' s) (contains b'x' s) (contains b'h' s) (contains b'p' s))
        else throws invalid_argument)
unfolding make_file_attributes flags
make_file_attributes_lem s = add_letters_lem s false false false false
