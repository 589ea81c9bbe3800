-- ===== src/PyText.antt =====
-- The text methods of Python that the program calls: `strip`, `upper`, `split` at commas and `str`
-- of a number. Letters outside ASCII have no case here.
use Prim.Native.Char.{Char, char, code}
use Prim.Native.String.{◌++◌, slice}
use vpn_infrastructure_showc.Base.{
  ◌≡◌, refl, false, Bool-cases, inl, inr, arith, ℕ, zero, suc, ◌-◌, ◌+◌, ◌/◌, ◌%◌, String, Bool,
  Option, none, some, List, [], ◌∷◌, ◌&&◌, ◌||◌, leb, ltb, ◌==◌, str_eq, if◌then◌else◌,
}

is_lower : Char → Bool
is_lower c = leb b'a' (code c) && leb (code c) b'z'

abbrev between : ℕ → ℕ → Char → Bool
between lo hi c = leb lo (code c) && leb (code c) hi

-- `str.isspace`: the white space of Unicode, with the four separators of ASCII
is_space : Char → Bool
is_space c =
    between 9 13 c
    || between 28 32 c
    || (code c == 133)
    || (code c == 160)
    || (code c == 5760)
    || between 8192 8202 c
    || between 8232 8233 c
    || (code c == 8239)
    || (code c == 8287)
    || (code c == 12288)

unfoldable pub upper : String → String
unfolding is_lower
upper String.[] = String.[]
upper (String.◌∷◌ c s) =
    let rest = upper s in
    if is_lower c
    then slice "ABCDEFGHIJKLMNOPQRSTUVWXYZ" (code c - 97) (code c - 96) ++ rest
    else String.◌∷◌ c rest

lstrip : String → String
unfolding is_space
lstrip String.[] = String.[]
lstrip (String.◌∷◌ c s) = let rest = lstrip s in if is_space c then rest else String.◌∷◌ c s

rstrip : String → String
unfolding is_space
rstrip String.[] = String.[]
rstrip (String.◌∷◌ c s) =
    let rest = rstrip s in if str_eq rest "" && is_space c then String.[] else String.◌∷◌ c rest

unfoldable pub strip : String → String
unfolding lstrip rstrip
strip s = rstrip (lstrip s)

-- what follows the first word: the second part of `s.split(maxsplit=1)`, if there is one. The text
-- has no space at its ends.
after_word : String → String
unfolding is_space lstrip
after_word String.[] = String.[]
after_word (String.◌∷◌ c s) = let rest = after_word s in if is_space c then lstrip s else rest

unfoldable pub after_first : String → Option String
unfolding after_word
after_first s = let rest = after_word s in if str_eq rest "" then none else some rest

-- `s[:n]`
unfoldable pub first_chars : ℕ → String → String
first_chars zero s = String.[]
first_chars (suc n) String.[] = String.[]
first_chars (suc n) (String.◌∷◌ c s) = String.◌∷◌ c (first_chars n s)

digit : ℕ → String
digit d = slice "0123456789" d (d + 1)

-- fuel for at least as many digits as there are
digits : ℕ → ℕ → String
unfolding digit
digits zero n = ""
digits (suc f) n =
    let rest = digits f (n / 10) in if ltb n 10 then digit n else rest ++ digit (n % 10)

-- `str(n)`
unfoldable pub decimal : ℕ → String
unfolding digits
decimal n = digits (suc n) n

-- the parts of a text between commas: `s.split(",")`
push_char : Char → List String → List String
push_char c [] = String.◌∷◌ c "" ∷ []
push_char c (part ∷ parts) = String.◌∷◌ c part ∷ parts

unfoldable pub split_commas : String → List String
unfolding push_char
split_commas String.[] = "" ∷ []
split_commas (String.◌∷◌ c s) =
    let rest = split_commas s in if code c == b',' then "" ∷ rest else push_char c rest

is_upper : Char → Bool
is_upper c = leb b'A' (code c) && leb (code c) b'Z'

-- the letter at a place of a text, `a` past its end
nth : String → ℕ → Char
nth String.[] n = char 97 tt
nth (String.◌∷◌ c s) zero = c
nth (String.◌∷◌ c s) (suc n) = nth s n

lower_char : Char → Char
unfolding is_upper nth
lower_char c = if is_upper c then nth "abcdefghijklmnopqrstuvwxyz" (code c - 65) else c

-- `s.lower()`, and SQL's `lower`
unfoldable pub lower : String → String
unfolding lower_char
lower String.[] = String.[]
lower (String.◌∷◌ c s) = String.◌∷◌ (lower_char c) (lower s)

NoUpper : String → Type 0
NoUpper String.[] = Unit
NoUpper (String.◌∷◌ c s) = (is_upper c ≡ false) × NoUpper s

nth-small : (s : String) (n : ℕ) → NoUpper s → is_upper (nth s n) ≡ false
unfolding NoUpper nth is_upper
nth-small String.[] n h = refl
nth-small (String.◌∷◌ c s) zero h = h.0
nth-small (String.◌∷◌ c s) (suc n) h = nth-small s n h.1

letters-NoUpper : NoUpper "abcdefghijklmnopqrstuvwxyz"
unfolding NoUpper is_upper
letters-NoUpper = ground arith

lower_char-small : (c : Char) → is_upper (lower_char c) ≡ false
unfolding lower_char
lower_char-small c = elim (Bool-cases (is_upper c)) [
  | inl big ↦ rw big (nth-small _ (code c - 65) letters-NoUpper)
  | inr small ↦ rw (small, small) refl
]

lower_char-same : (c : Char) → is_upper c ≡ false → lower_char c ≡ c
unfolding lower_char
lower_char-same c h = rw h refl

-- a text in small letters stays as it is
pub lower_twice : (s : String) → lower (lower s) ≡ lower s
unfolding lower
lower_twice String.[] = refl
lower_twice (String.◌∷◌ c s) =
    rw (lower_char-same (lower_char c) (lower_char-small c), lower_twice s) refl
