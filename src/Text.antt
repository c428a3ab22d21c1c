-- ===== src/Text.antt =====
-- Python's `str` as the list of its code points, and the methods of it that the program calls.
-- The case table is the interpreter's on ASCII, Latin-1, Cyrillic and U+0130; digits are ASCII.
pub mod Laws
pub mod Strip
pub mod Split
use Prim.Native.Char.{code}
use mathlib.Core.List.{reverse}
use zapret_gui.Base.{
  ℕ, zero, suc, ◌+◌, ◌-◌, ◌*◌, String, Bool, true, false, ◌&&◌, ◌||◌, Option, none, some, List, [],
  ◌∷◌, ◌++◌, ltb, leb, ◌==◌, nat_eq, text_eq, if◌then◌else◌, length, take, drop, all,
}

abbrev pub Text : Type 0
Text = List ℕ

abbrev pub codes : String → Text
codes String.[] = []
codes (String.◌∷◌ c s) = code c ∷ codes s

abbrev pub between : ℕ → ℕ → ℕ → Bool
between lo hi c = leb lo c && leb c hi

-- `str.isspace` of one character
unfoldable pub is_space : ℕ → Bool
is_space c =
    between 9 13 c
    || between 28 32 c
    || c == 0x85
    || c == 0xa0
    || c == 0x1680
    || between 0x2000 0x200a c
    || between 0x2028 0x2029 c
    || c == 0x202f
    || c == 0x205f
    || c == 0x3000

unfoldable pub is_digit : ℕ → Bool
is_digit c = between 48 57 c

unfoldable pub is_lower : ℕ → Bool
is_lower c = between 97 122 c

unfoldable pub is_upper : ℕ → Bool
is_upper c = between 65 90 c

-- `[a-z0-9]`
unfoldable pub is_lower_alnum : ℕ → Bool
unfolding is_lower is_digit
is_lower_alnum c = is_lower c || is_digit c

-- `[A-Za-z0-9]`
unfoldable pub is_alnum : ℕ → Bool
unfolding is_lower is_upper is_digit
is_alnum c = is_lower c || is_upper c || is_digit c

unfoldable pub lower_char : ℕ → Text
unfolding is_upper
lower_char c =
    if is_upper c
      || between 0xc0 0xde c && (if c == 0xd7 then false else true)
      || between 0x410 0x42f c
    then (c + 32) ∷ []
    else if between 0x400 0x40f c
    then (c + 80) ∷ []
    else if c == 0x130
    then 0x69 ∷ 0x307 ∷ []
    else c ∷ []

-- As `lower_char` does, for the letters of Latin-1 and of the Cyrillic alphabet, and for the dotless
-- and the long letters whose capitals are those of ASCII
unfoldable pub upper_char : ℕ → Text
unfolding is_lower
upper_char c =
    if is_lower c
      || between 0xe0 0xfe c && (if c == 0xf7 then false else true)
      || between 0x430 0x44f c
    then (c - 32) ∷ []
    else if between 0x450 0x45f c
    then (c - 80) ∷ []
    else if c == 0xdf
    then 83 ∷ 83 ∷ []
    else if c == 0x131
    then 73 ∷ []
    else if c == 0x17f
    then 83 ∷ []
    else c ∷ []

-- `s.lower()`
unfoldable pub lower : Text → Text
unfolding lower_char
lower [] = []
lower (c ∷ s) = lower_char c ++ lower s

-- `s.upper()`
unfoldable pub upper : Text → Text
unfolding upper_char
upper [] = []
upper (c ∷ s) = upper_char c ++ upper s

-- `s.startswith(prefix)`, the prefix first
unfoldable pub starts_with : Text → Text → Bool
unfolding nat_eq
starts_with [] s = true
starts_with (p ∷ ps) [] = false
starts_with (p ∷ ps) (c ∷ s) = p == c && starts_with ps s

-- `s.endswith(suffix)`, the suffix first
unfoldable pub ends_with : Text → Text → Bool
unfolding starts_with
ends_with suffix s = starts_with (reverse suffix) (reverse s)

-- `s.find(needle)`, none for -1
unfoldable pub find : Text → Text → Option ℕ
unfolding starts_with
find needle [] = if starts_with needle [] then some 0 else none
find needle (c ∷ s) =
    let rest = find needle s in
    if starts_with needle (c ∷ s) then some 0 else elim rest [ none ↦ none | some i ↦ some (suc i) ]

-- `needle in s`
unfoldable pub has : Text → Text → Bool
unfolding find
has needle s = elim (find needle s) [ none ↦ false | some i ↦ true ]

-- `s.replace(old, new)` for an old text that is not empty; the number counts the characters
-- of a match that are still to be passed over.
replace_go : Text → Text → ℕ → Text → Text
replace_go old new k [] = []
replace_go old new (suc k) (c ∷ s) = replace_go old new k s
replace_go old new zero (c ∷ s) =
    let hit = new ++ replace_go old new (length old - 1) s in
    let miss = c ∷ replace_go old new zero s in if starts_with old (c ∷ s) then hit else miss

unfoldable pub replace : Text → Text → Text → Text
unfolding replace_go starts_with
replace old new s = replace_go old new 0 s

-- `sep.join(parts)`
unfoldable pub join : Text → List Text → Text
join sep [] = []
join sep (p ∷ []) = p
join sep (p ∷ q ∷ ps) = p ++ (sep ++ join sep (q ∷ ps))

-- `int(s)` of a text of digits
unfoldable pub value_from : ℕ → Text → ℕ
value_from acc [] = acc
value_from acc (c ∷ s) = value_from (10 * acc + (c - 48)) s

unfoldable pub to_int : Text → ℕ
unfolding value_from
to_int s = value_from 0 s

-- `s.isdigit()`
unfoldable pub is_digits : Text → Bool
unfolding is_digit
is_digits [] = false
is_digits (c ∷ s) = is_digit c && all is_digit s
