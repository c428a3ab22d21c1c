-- ===== src/Text/Split/Laws.antt =====
-- The parts of a split hold the characters of the text, and lines are read back from their text.
use zapret_gui.Base.{
  ℕ, ◌≡◌, refl, ◌∙◌, ap, Bool, true, false, ◌&&◌, ◌||◌, List, [], ◌∷◌, ◌++◌, append-nil,
  append_assoc, arith, ◌==◌, nat_eq, all, All,
}
use zapret_gui.Text.{Text, starts_with, join}
use zapret_gui.Text.Split.{split, split_go, splitlines, lines_go, is_break}

module _ (p : ℕ → Bool) where
  pub all-append : (xs ys : Text) → all p (xs ++ ys) ≡ (all p xs && all p ys)
  all-append [] ys = refl
  all-append (x ∷ xs) ys = ground (arith, all-append xs ys)

  -- The part that is being read is the front of the first part.
  split_go-first :
      (d : ℕ) (cur s : Text) → all (all p) (split_go (d ∷ []) 0 cur s) ≡ true → all p cur ≡ true
  unfolding split_go starts_with
  split_go-first d cur [] h = ground arith
  split_go-first d cur (c ∷ s) h =
      ground (arith, split_go-first d (cur ++ c ∷ []) s, all-append cur (c ∷ []))

  split_go-all :
      (d : ℕ) (cur s : Text)
      → all (all p) (split_go (d ∷ []) 0 cur s) ≡ true
      → all (λ c. p c || c == d) s ≡ true
  unfolding split_go starts_with
  split_go-all d cur [] h = refl
  split_go-all d cur (c ∷ s) h = ground (
    arith,
    split_go-all d (cur ++ c ∷ []) s,
    split_go-all d [] s,
    split_go-first d (cur ++ c ∷ []) s,
    all-append cur (c ∷ []),
  )

  -- If all parts pass the test, each character passes it or is the separator.
  pub split-all :
      (d : ℕ) (s : Text) → all (all p) (split (d ∷ []) s) ≡ true → all (λ c. p c || c == d) s ≡ true
  unfolding split
  split-all d s h = split_go-all d [] s h

-- A text with no line break in it
abbrev pub IsLine : Text → Type 0
IsLine = All (λ c. is_break c ≡ false)

-- A line is read up to the line feed behind it.
lines_go-line :
    (cur t s : Text)
    → IsLine t
    → lines_go false cur (t ++ 10 ∷ s) ≡ (cur ++ t) ∷ lines_go false [] s
unfolding lines_go is_break nat_eq
lines_go-line cur [] s h = rw append-nil
lines_go-line cur (c ∷ t) s h = rw h.0 (
    lines_go-line (cur ++ c ∷ []) t s h.1
    ∙ ap (λ l. l ∷ lines_go false [] s) (append_assoc cur (c ∷ []) t))

pub splitlines-line : (t s : Text) → IsLine t → splitlines (t ++ 10 ∷ s) ≡ t ∷ splitlines s
unfolding splitlines
splitlines-line t s h = lines_go-line [] t s h

pub splitlines-nil : splitlines [] ≡ []
unfolding splitlines
splitlines-nil = refl

-- Lines that are joined by line feeds, with one at the end, are read back.
pub splitlines-join :
    (t : Text) (ts : List Text)
    → IsLine t
    → All IsLine ts
    → splitlines (join (10 ∷ []) (t ∷ ts) ++ 10 ∷ []) ≡ t ∷ ts
unfolding join
splitlines-join t [] h hs = splitlines-line t [] h ∙ ap (λ r. t ∷ r) splitlines-nil
splitlines-join t (u ∷ ts) h hs =
    rw (append_assoc t ((10 ∷ []) ++ join (10 ∷ []) (u ∷ ts)) (10 ∷ [])) (
      splitlines-line t (join (10 ∷ []) (u ∷ ts) ++ 10 ∷ []) h
      ∙ ap (λ r. t ∷ r) (splitlines-join u ts hs.0 hs.1))
