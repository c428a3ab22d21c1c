-- ===== src/Domains.antt =====
-- zapret_core.py: the user's domains (`normalize_domain`, `read_user_domains`,
-- `write_user_domains`). The IDNA codec of Python is a parameter: none for a UnicodeError.
pub mod Labels
pub mod Stored
use zapret_gui.Base.{
  ℕ, zero, suc, Bool, true, false, not, ◌&&◌, ◌||◌, Option, none, some, List, [], ◌∷◌, ◌++◌, ◌==◌,
  contains, nat_eq, text_eq, if◌then◌else◌, leb, ltb, length, all, drop, last_or, sort_by,
}
use zapret_gui.Text.{Text, codes, is_space, is_lower_alnum, starts_with, has, lower, join}
use zapret_gui.Text.Strip.{strip}
use zapret_gui.Text.Split.{split, before, after, splitlines}

-- `[a-z0-9](?:[a-z0-9-]{0,61}[a-z0-9])?`, the whole text
unfoldable pub is_label : Text → Bool
unfolding is_lower_alnum nat_eq
is_label [] = false
is_label (c ∷ s) =
    is_lower_alnum c
    && all (λ x. is_lower_alnum x || x == 45) s
    && is_lower_alnum (last_or c s)
    && leb (length s) 62

unfoldable pub is_domain : Text → Bool
unfolding is_label split
is_domain s = leb (length s) 253 && all is_label (split (codes ".") s)

abbrev pub first_in : Text → List ℕ → Bool
first_in [] cs = false
first_in (c ∷ s) cs = contains cs c

-- `s.split("://", 1)[1]` where it is there
unfoldable pub without_scheme : Text → Text
unfolding has after
without_scheme s = if has (codes "://") s then after (codes "://") s else s

-- The user part, the port, the spaces and dots at the ends
unfoldable pub host_of : Text → Text
unfolding before split strip is_space
host_of s =
    let path = before (codes "#") (before (codes "?") (before (codes "/") s)) in
    strip (λ c. c == 46) (strip is_space (before (codes ":") (last_or [] (split (codes "@") path))))

unfoldable pub without_www : Text → Text
unfolding starts_with
without_www s = if starts_with (codes "www.") s then drop 4 s else s

abbrev pub is_nil : Text → Bool
is_nil [] = true
is_nil (c ∷ s) = false

unfoldable pub accepted : Option Text → Text
unfolding is_domain
accepted none = []
accepted (some s) = if is_domain s then s else []

module _ (idna : Text → Option Text) where
  unfoldable pub encode_host : Text → Text
  unfolding has accepted
  encode_host s =
      if is_nil s || not (has (codes ".") s) || has (codes " ") s then [] else accepted (idna s)

  unfoldable pub normalize_domain : Text → Text
  unfolding strip lower is_space without_scheme host_of without_www encode_host
  normalize_domain raw =
      let s = lower (strip is_space raw) in
      if is_nil s || first_in s (35 ∷ 59 ∷ [])
      then []
      else encode_host (without_www (host_of (without_scheme s)))

  -- The loop of `write_user_domains`: the new domains, in their order
  unfoldable pub clean_from : List Text → List Text → List Text
  clean_from seen [] = []
  clean_from seen (d ∷ ds) =
      let nd = normalize_domain d in
      let skip = clean_from seen ds in
      let more = nd ∷ clean_from (nd ∷ seen) ds in
      if is_nil nd || contains seen nd then skip else more

-- `a < b` of two texts
unfoldable pub text_ltb : Text → Text → Bool
unfolding nat_eq
text_ltb [] [] = false
text_ltb [] (d ∷ t) = true
text_ltb (c ∷ s) [] = false
text_ltb (c ∷ s) (d ∷ t) = ltb c d || c == d && text_ltb s t

-- The text of a list of lines
abbrev pub file_of : List Text → Text
file_of [] = []
file_of (d ∷ ds) = join (10 ∷ []) (d ∷ ds) ++ 10 ∷ []

-- `write_user_domains`: what it returns and what it writes
unfoldable pub write_user_domains : (Text → Option Text) → List Text → List Text × Text
unfolding clean_from text_eq text_ltb sort_by join
write_user_domains idna domains =
    let clean = sort_by text_ltb (clean_from idna [] domains) in (clean, file_of clean)

unfoldable pub read_lines : List Text → List Text
read_lines [] = []
read_lines (ln ∷ lines) =
    let d = strip is_space ln in
    let rest = read_lines lines in if is_nil d || first_in d (35 ∷ []) then rest else d ∷ rest

-- `read_user_domains`, none where the file is absent or cannot be read
unfoldable pub read_user_domains : Option Text → List Text
unfolding read_lines splitlines strip is_space
read_user_domains none = []
read_user_domains (some content) = read_lines (splitlines content)
