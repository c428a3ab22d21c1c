-- ===== src/Bats/Split.antt =====
-- What `natural_key` makes of a name.
use zapret_gui.Base.{
  ℕ, ◌≡◌, refl, Bool, true, false, ◌&&◌, List, [], ◌∷◌, ◌++◌, append_assoc, ap, ◌∙◌, nat_eq,
  text_eq, All, Bool-cases, inl, inr, all, not, ◌||◌, arith,
}
use zapret_gui.Text.{Text, lower, is_digit, is_digits, to_int}
use zapret_gui.Result.{ok}
use zapret_gui.Text.Split.Laws.{all-append}
use zapret_gui.Bats.{
  Part, number, word, split_digits, is_superscript, is_digit_text, part_of, parts_of, natural_key,
}

-- Words and numbers take turns; the flag says that a number is next.
abbrev pub Alternates : Bool → List Part → Type 0
Alternates b [] = Unit
Alternates false (word s ∷ ps) = Alternates true ps
Alternates false (number n ∷ ps) = ⊥
Alternates true (number n ∷ ps) = Alternates false ps
Alternates true (word s ∷ ps) = ⊥

-- A character that is no digit to `isdigit()` but to `\d`
abbrev pub IsPlain : ℕ → Type 0
IsPlain c = is_superscript c ≡ false

abbrev pub is_word : Text → Bool
is_word s = all (λ c. not (is_digit c) && not (is_superscript c)) s

-- The parts of a split: words, and runs of digits
abbrev Reads : Bool → Text → Type 0
Reads true s = is_digits s ≡ true
Reads false s = is_word s ≡ true

abbrev Turns : Bool → List Text → Type 0
Turns true [] = Unit
Turns false [] = ⊥
Turns b (t ∷ ts) = Reads b t × Turns (not b) ts

is_digits-append :
    (cur : Text) (c : ℕ)
    → is_digits cur ≡ true
    → is_digit c ≡ true
    → is_digits (cur ++ c ∷ []) ≡ true
unfolding is_digits
is_digits-append [] c h k = cc
is_digits-append (x ∷ cur) c h k = ground (arith, all-append is_digit cur (c ∷ []), h, k)

is_word-append :
    (cur : Text) (c : ℕ)
    → is_word cur ≡ true
    → is_digit c ≡ false
    → IsPlain c
    → is_word (cur ++ c ∷ []) ≡ true
is_word-append cur c h k p =
    ground
      (arith, all-append (λ x. not (is_digit x) && not (is_superscript x)) cur (c ∷ []), h, k, p)

is_digits_single : (c : ℕ) → is_digit c ≡ true → is_digits (c ∷ []) ≡ true
unfolding is_digits
is_digits_single c h = ground (arith, h)

split_digits-Turns :
    (b : Bool) (cur s : Text) → All IsPlain s → Reads b cur → Turns b (split_digits b cur s)
unfolding split_digits
split_digits-Turns true cur [] p h = (h, (refl, tt))
split_digits-Turns false cur [] p h = (h, tt)
split_digits-Turns true cur (c ∷ s) (p, ps) h = elim (Bool-cases (is_digit c)) [
  | inl e ↦ rw e (split_digits-Turns true (cur ++ c ∷ []) s ps (is_digits-append cur c h e))
  | inr e ↦ rw e (h, split_digits-Turns false (c ∷ []) s ps (is_word-append [] c refl e p))
]
split_digits-Turns false cur (c ∷ s) (p, ps) h = elim (Bool-cases (is_digit c)) [
  | inl e ↦ rw e (h, split_digits-Turns true (c ∷ []) s ps (is_digits_single c e))
  | inr e ↦ rw e (split_digits-Turns false (cur ++ c ∷ []) s ps (is_word-append cur c h e p))
]

all-is_digit :
    (s : Text) → all is_digit s ≡ true → all (λ x. is_digit x || is_superscript x) s ≡ true
all-is_digit [] h = refl
all-is_digit (c ∷ s) h = ground (arith, all-is_digit s, h)

part_of-number : (t : Text) → is_digits t ≡ true → part_of t ≡ ok (number (to_int t))
unfolding part_of is_digits is_digit_text
part_of-number [] h = cc
part_of-number (c ∷ s) h = rw (all-is_digit (c ∷ s) h) (rw h refl)

part_of-word : (t : Text) → is_word t ≡ true → part_of t ≡ ok (word (lower t))
unfolding part_of is_digit_text
part_of-word [] h = refl
part_of-word (c ∷ s) h =
    let e : (is_digit c || is_superscript c) ≡ false = ground (arith, h) in rw e refl

-- A key of a name, said without the split: the name is words and runs of digits in turn, each word
-- stands in the key with its capitals lowered, and each run as its value.
abbrev pub IsKeyOf : Bool → List Part → Text → Type 0
IsKeyOf true [] name = name ≡ []
IsKeyOf false [] name = ⊥
IsKeyOf false (word s ∷ ps) name =
    (w : Text) × (rest : Text) × (name ≡ w ++ rest)
    × (is_word w ≡ true)
    × (s ≡ lower w)
    × IsKeyOf true ps rest
IsKeyOf false (number n ∷ ps) name = ⊥
IsKeyOf true (number n ∷ ps) name =
    (d : Text) × (rest : Text) × (name ≡ d ++ rest)
    × (is_digits d ≡ true)
    × (n ≡ to_int d)
    × IsKeyOf false ps rest
IsKeyOf true (word s ∷ ps) name = ⊥

pub IsKeyOf-Alternates :
    (b : Bool) (ps : List Part) (name : Text) → IsKeyOf b ps name → Alternates b ps
IsKeyOf-Alternates true [] name h = tt
IsKeyOf-Alternates false [] name h = tt
IsKeyOf-Alternates false (word s ∷ ps) name (w, rest, e, f, g, h) =
    IsKeyOf-Alternates true ps rest h
IsKeyOf-Alternates false (number n ∷ ps) name h = absurd h
IsKeyOf-Alternates true (number n ∷ ps) name (d, rest, e, f, g, h) =
    IsKeyOf-Alternates false ps rest h
IsKeyOf-Alternates true (word s ∷ ps) name h = absurd h

abbrev flat : List Text → Text
flat [] = []
flat (t ∷ ts) = t ++ flat ts

-- The split loses no character.
flat-split_digits : (b : Bool) (cur s : Text) → flat (split_digits b cur s) ≡ cur ++ s
unfolding split_digits
flat-split_digits true cur [] = refl
flat-split_digits false cur [] = refl
flat-split_digits true cur (c ∷ s) = elim (Bool-cases (is_digit c)) [
  | inl e ↦ rw e (flat-split_digits true (cur ++ c ∷ []) s ∙ append_assoc cur (c ∷ []) s)
  | inr e ↦ rw e (ap (λ t. cur ++ t) (flat-split_digits false (c ∷ []) s))
]
flat-split_digits false cur (c ∷ s) = elim (Bool-cases (is_digit c)) [
  | inl e ↦ rw e (ap (λ t. cur ++ t) (flat-split_digits true (c ∷ []) s))
  | inr e ↦ rw e (flat-split_digits false (cur ++ c ∷ []) s ∙ append_assoc cur (c ∷ []) s)
]

-- Where words and digits take turns, the key is made.
abbrev Made : Bool → List Text → Type 0
Made b ts = (ps : List Part) × (parts_of ts ≡ ok ps) × IsKeyOf b ps (flat ts)

Turns-Made : (b : Bool) (ts : List Text) → Turns b ts → Made b ts
unfolding parts_of
Turns-Made true [] h = ([], refl, refl)
Turns-Made false [] h = absurd h
Turns-Made true (t ∷ ts) (d, h) =
    let (ps, e, k) = Turns-Made false ts h in
    (number (to_int t) ∷ ps, rw (part_of-number t d) (rw e refl), (t, flat ts, refl, d, refl, k))
Turns-Made false (t ∷ ts) (d, h) =
    let (ps, e, k) = Turns-Made true ts h in
    (word (lower t) ∷ ps, rw (part_of-word t d) (rw e refl), (t, flat ts, refl, d, refl, k))

pub natural_key-IsKeyOf :
    (name : Text)
    → All IsPlain name
    → (ps : List Part) × (natural_key name ≡ ok ps) × IsKeyOf false ps name
unfolding natural_key
natural_key-IsKeyOf name p =
    let (ps, e, k) =
      Turns-Made false (split_digits false [] name) (split_digits-Turns false [] name p refl) in
    (ps, e, rw (flat-split_digits false [] name) at k)
