-- ===== src/Bats/Command.antt =====
-- How the command of a strategy is read that is written on several lines.
use mathlib.Core.List.{reverse-append}
use zapret_gui.Base.{
  ◌-◌, ◌≡◌, refl, ◌∙◌, ap, true, false, some, List, [], ◌∷◌, ◌++◌, map, nat_eq, length, take,
  length-append, All, arith,
}
use zapret_gui.Domains.{is_nil}
use zapret_gui.Text.{Text, codes, lower, has, starts_with, ends_with, is_space, join}
use zapret_gui.Text.Strip.{rstrip}
use zapret_gui.Bats.{
  winws_exe, from_start, without_last, parts_from, args_behind, extract_winws_lines,
}

-- A line that goes on in the next one
abbrev pub continued : Text → Text
continued s = s ++ 94 ∷ []

is_nil-continued : (s : Text) → is_nil (continued s) ≡ false
is_nil-continued [] = refl
is_nil-continued (c ∷ s) = refl

rstrip-continued : (s : Text) → rstrip is_space (continued s) ≡ continued s
unfolding rstrip is_space nat_eq
rstrip-continued [] = refl
rstrip-continued (c ∷ s) = rw (rstrip-continued s) (rw (is_nil-continued s) refl)

ends_with-continued : (s : Text) → ends_with (codes "^") (continued s) ≡ true
unfolding ends_with starts_with
ends_with-continued s = rw (reverse-append s (94 ∷ [])) refl

take-length : (s t : Text) → take (length s) (s ++ t) ≡ s
take-length [] t = refl
take-length (c ∷ s) t = ap (λ r. c ∷ r) (take-length s t)

without_last-continued : (s : Text) → without_last (continued s) ≡ s
without_last-continued s =
    let e : length (continued s) - 1 ≡ length s = omega (arith, length-append s (94 ∷ [])) in
    rw e (take-length s (94 ∷ []))

parts_from-continued :
    (s : Text) (lines : List Text) → parts_from (continued s ∷ lines) ≡ s ∷ parts_from lines
unfolding parts_from
parts_from-continued s lines =
    rw (rstrip-continued s) (rw (ends_with-continued s) (rw (without_last-continued s) refl))

parts_from-map :
    (ss : List Text) (last : Text) (rest : List Text)
    → ends_with (codes "^") (rstrip is_space last) ≡ false
    → parts_from (map continued ss ++ last ∷ rest) ≡ ss ++ rstrip is_space last ∷ []
unfolding parts_from
parts_from-map [] last rest h = rw h refl
parts_from-map (s ∷ ss) last rest h =
    parts_from-continued s (map continued ss ++ last ∷ rest)
    ∙ ap (λ r. s ∷ r) (parts_from-map ss last rest h)

abbrev pub Lacks : Text → Type 0
Lacks line = has winws_exe (lower line) ≡ false

from_start-append :
    (heads lines : List Text) → All Lacks heads → from_start (heads ++ lines) ≡ from_start lines
unfolding from_start
from_start-append [] lines h = refl
from_start-append (l ∷ heads) lines (n, h) = rw n (from_start-append heads lines h)

from_start-here :
    (line : Text) (lines : List Text)
    → has winws_exe (lower line) ≡ true
    → from_start (line ∷ lines) ≡ some (line ∷ lines)
unfolding from_start
from_start-here line lines h = rw h refl

-- Where no line before it names winws.exe, a command that starts with a line that does, goes on
-- by a caret at the end of each line but the last, and has a last line with no caret at its
-- end, is read as its lines without the carets, joined by spaces.
pub extract_winws_lines_lem :
    (heads : List Text) (s : Text) (ss : List Text) (last : Text) (rest : List Text)
    → All Lacks heads
    → has winws_exe (lower (continued s)) ≡ true
    → ends_with (codes "^") (rstrip is_space last) ≡ false
    → extract_winws_lines (heads ++ (map continued (s ∷ ss) ++ last ∷ rest))
      ≡ some (args_behind (join (codes " ") (s ∷ ss ++ rstrip is_space last ∷ [])))
unfolding extract_winws_lines
extract_winws_lines_lem heads s ss last rest h w n =
    let lines : List Text = map continued (s ∷ ss) ++ last ∷ rest in
    let found : from_start (heads ++ lines) ≡ some lines =
      from_start-append heads lines h
      ∙ from_start-here (continued s) (map continued ss ++ last ∷ rest) w in
    let parts : parts_from lines ≡ s ∷ ss ++ rstrip is_space last ∷ [] =
      parts_from-map (s ∷ ss) last rest n in
    rw found (ap (λ p. some (args_behind (join (codes " ") p))) parts)
