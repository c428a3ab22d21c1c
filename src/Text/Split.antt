-- ===== src/Text/Split.antt =====
-- `str.split` at a separator, `partition`, and `splitlines`.
pub mod Laws
use zapret_gui.Base.{
  ℕ, zero, suc, ◌+◌, ◌-◌, Bool, true, false, ◌&&◌, ◌||◌, Option, none, some, List, [], ◌∷◌, ◌++◌,
  leb, ◌==◌, nat_eq, if◌then◌else◌, length, take, drop,
}
use zapret_gui.Text.{Text, starts_with, find, between, is_space}

-- The part that is being read comes first; the number counts the characters of a separator that
-- are still to be passed over.
split_go : Text → ℕ → Text → Text → List Text
split_go sep k cur [] = cur ∷ []
split_go sep (suc k) cur (c ∷ s) = split_go sep k cur s
split_go sep zero cur (c ∷ s) =
    let hit = cur ∷ split_go sep (length sep - 1) [] s in
    let miss = split_go sep zero (cur ++ c ∷ []) s in if starts_with sep (c ∷ s) then hit else miss

-- `s.split(sep)`
unfoldable pub split : Text → Text → List Text
unfolding split_go starts_with
split sep s = split_go sep 0 [] s

-- `s.partition(sep)` without its middle part: none where the separator is not found
unfoldable pub cut : Text → Text → Option (Text × Text)
unfolding find
cut sep s = elim (find sep s) [ none ↦ none | some i ↦ some (take i s, drop (i + length sep) s) ]

-- `s.split(sep, 1)[0]`
unfoldable pub before : Text → Text → Text
unfolding cut
before sep s = elim (cut sep s) [ none ↦ s | some (a, b) ↦ a ]

-- `s.split(sep, 1)[1]` where the separator is there
unfoldable pub after : Text → Text → Text
unfolding cut
after sep s = elim (cut sep s) [ none ↦ s | some (a, b) ↦ b ]

unfoldable pub is_break : ℕ → Bool
is_break c = between 10 13 c || between 28 30 c || c == 0x85 || c == 0x2028 || c == 0x2029

-- The flag is set behind a carriage return, whose line feed belongs to the same break.
lines_go : Bool → Text → Text → List Text
lines_go cr [] [] = []
lines_go cr (a ∷ cur) [] = (a ∷ cur) ∷ []
lines_go cr cur (c ∷ s) =
    let skip = lines_go false cur s in
    let brk = cur ∷ lines_go (c == 13) [] s in
    let more = lines_go false (cur ++ c ∷ []) s in
    if cr && c == 10 then skip else if is_break c then brk else more

-- `s.splitlines()`
unfoldable pub splitlines : Text → List Text
unfolding lines_go is_break nat_eq
splitlines s = lines_go false [] s

-- `s.split()`: the runs of characters that are not spaces
words_go : Text → Text → List Text
words_go [] [] = []
words_go (a ∷ cur) [] = (a ∷ cur) ∷ []
words_go [] (c ∷ s) =
    let sp = words_go [] s in let more = words_go (c ∷ []) s in if is_space c then sp else more
words_go (a ∷ cur) (c ∷ s) =
    let sp = (a ∷ cur) ∷ words_go [] s in
    let more = words_go ((a ∷ cur) ++ c ∷ []) s in if is_space c then sp else more

unfoldable pub words : Text → List Text
unfolding words_go is_space nat_eq
words s = words_go [] s
